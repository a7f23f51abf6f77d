-- ===== src/Protocol/Stream.antt =====
-- `StreamDecoder` and `split_stream` of tools/lora_usb/protocol.py.
pub mod Chunks
pub mod Recovery
pub mod Pieces
use mowgli_lora_link.Prelude.{
  ℕ, ◌+◌, List, [], ◌∷◌, ◌++◌, length, Bool, true, false, not, ◌&&◌, ◌==◌, ltb, if◌then◌else◌,
  Result, ok, err,
}
use mowgli_lora_link.Protocol.Frame.{Frame, decode_frame}

pub record StreamDecoder : Type 0 where
  pub buffer : List ℕ
  pub discarding : Bool
  pub max_encoded : ℕ

abbrev pub fresh : ℕ → StreamDecoder
fresh max_encoded = record { buffer = []; discarding = false; max_encoded = max_encoded }

-- The default of `max_encoded`.
abbrev pub default_max : ℕ
default_max = 380

-- `except ProtocolError: pass`
pub decoded : Result Frame → List Frame
decoded (ok f) = f ∷ []
decoded (err e) = []

-- The branch of a delimiter: the frames that it completes.
pub completed : StreamDecoder → List Frame
unfolding decoded
completed s =
    if not s.discarding && ltb 0 (length s.buffer) then decoded (decode_frame s.buffer) else []

pub push_byte : StreamDecoder → ℕ → StreamDecoder
push_byte s byte =
    if s.discarding
    then s
    else (let longer = s.buffer ++ (byte ∷ []) in
        if ltb s.max_encoded (length longer)
        then record s { buffer = []; discarding = true }
        else record s { buffer = longer })

-- One round of the loop of `feed`: the new state, and the frames that are appended to the result.
pub feed_byte : StreamDecoder → ℕ → StreamDecoder × List Frame
unfolding completed push_byte
feed_byte s byte =
    if byte == 0
    then (record s { buffer = []; discarding = false }, completed s)
    else (push_byte s byte, [])

pub feed : StreamDecoder → List ℕ → StreamDecoder × List Frame
unfolding feed_byte
feed s [] = (s, [])
feed s (byte ∷ bytes) =
    let (s', frames) = feed_byte s byte in let (s'', more) = feed s' bytes in (s'', frames ++ more)

-- The frames of the stream, and what is left of it.
pub split_stream : List ℕ → ℕ → List Frame × List ℕ
unfolding feed
split_stream stream max_encoded =
    let (decoder, frames) = feed (fresh max_encoded) stream in (frames, decoder.buffer)
