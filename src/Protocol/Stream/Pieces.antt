-- ===== src/Protocol/Stream/Pieces.antt =====
-- The stream decoder against the pieces between the delimiters of the whole stream.
use mowgli_lora_link.Prelude.{
  ℕ, ◌<◌, ◌≡◌, refl, sym, ap, ◌∙◌, arith, List, [], ◌∷◌, ◌++◌, append_assoc, append-nil, length,
  length-append, All, true, false, ◌==◌, ltb, if◌then◌else◌,
}
use mowgli_lora_link.Protocol.Frame.{Frame, decode_frame}
use mowgli_lora_link.Protocol.Stream.{
  StreamDecoder, fresh, decoded, completed, push_byte, feed_byte, feed,
}
use mowgli_lora_link.Protocol.Stream.Chunks.{feed-append}
use mowgli_lora_link.Protocol.Stream.Recovery.{feed-zero}

-- The stream of some pieces, each with a zero byte behind it, and of bytes without one.
pub joined : List (List ℕ) → List ℕ → List ℕ
joined [] rest = rest
joined (piece ∷ pieces) rest = (piece ++ (0 ∷ [])) ++ joined pieces rest

abbrev pub NoZero : List ℕ → Type 0
NoZero = All (λ b. 0 < b)

-- A piece that is not empty and not too long is decoded.
pub frames_of : ℕ → List ℕ → List Frame
frames_of m piece =
    if length piece == 0
    then []
    else (if ltb m (length piece) then [] else decoded (decode_frame piece))

pub all_frames : ℕ → List (List ℕ) → List Frame
all_frames m [] = []
all_frames m (piece ∷ pieces) = frames_of m piece ++ all_frames m pieces

-- The decoder when these bytes have come behind the last delimiter.
pub behind : ℕ → List ℕ → StreamDecoder
behind m rest =
    if ltb m (length rest)
    then record { buffer = []; discarding = true; max_encoded = m }
    else record { buffer = rest; discarding = false; max_encoded = m }

push_behind :
    (m : ℕ) (rest : List ℕ) (b : ℕ)
    → 0 < b
    → feed_byte (behind m rest) b ≡ (behind m (rest ++ (b ∷ [])), [])
unfolding feed_byte push_byte behind
push_behind m rest b positive = ground (arith, length-append rest (b ∷ []))

feed-NoZero :
    (m : ℕ) (rest bytes : List ℕ)
    → NoZero bytes
    → feed (behind m rest) bytes ≡ (behind m (rest ++ bytes), [])
unfolding feed
feed-NoZero m rest [] h = rw (append-nil rest) refl
feed-NoZero m rest (b ∷ bytes) h =
    rw
      (
        push_behind m rest b h.0,
        feed-NoZero m (rest ++ (b ∷ [])) bytes h.1,
        append_assoc rest (b ∷ []) bytes,
      )
      refl

completed-behind : (m : ℕ) (rest : List ℕ) → completed (behind m rest) ≡ frames_of m rest
unfolding completed behind frames_of
completed-behind m rest = ground arith

fresh_behind : (m : ℕ) → behind m [] ≡ fresh m
unfolding behind
fresh_behind m = ground arith

max_behind : (m : ℕ) (rest : List ℕ) → (behind m rest).max_encoded ≡ m
unfolding behind
max_behind m rest = ground arith

feed_piece :
    (m : ℕ) (piece : List ℕ)
    → NoZero piece
    → feed (behind m []) (piece ++ (0 ∷ [])) ≡ (behind m [], frames_of m piece)
feed_piece m piece h =
    rw
      (
        feed-append (behind m []) piece (0 ∷ []),
        feed-NoZero m [] piece h,
        feed-zero (behind m piece),
        completed-behind m piece,
        max_behind m piece,
        fresh_behind m,
      )
      refl

feed_pieces :
    (m : ℕ) (pieces : List (List ℕ)) (rest : List ℕ)
    → All NoZero pieces
    → NoZero rest
    → feed (behind m []) (joined pieces rest) ≡ (behind m rest, all_frames m pieces)
unfolding joined all_frames
feed_pieces m [] rest h k = feed-NoZero m [] rest k
feed_pieces m (piece ∷ pieces) rest h k =
    rw
      (
        feed-append (behind m []) (piece ++ (0 ∷ [])) (joined pieces rest),
        feed_piece m piece h.0,
        feed_pieces m pieces rest h.1 k,
      )
      refl

-- `feed` of a whole stream gives the frames of the pieces between its zero bytes, in order: each piece
-- that is neither empty nor longer than the bound is decoded, and gives nothing if that fails. It keeps
-- what follows the last zero byte, or discards it if that is longer than the bound.
pub feed-joined :
    (m : ℕ) (pieces : List (List ℕ)) (rest : List ℕ)
    → All NoZero pieces
    → NoZero rest
    → feed (fresh m) (joined pieces rest) ≡ (behind m rest, all_frames m pieces)
feed-joined m pieces rest h k =
    ap (λ s. feed s (joined pieces rest)) (sym (fresh_behind m)) ∙ feed_pieces m pieces rest h k
