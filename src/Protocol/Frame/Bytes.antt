-- ===== src/Protocol/Frame/Bytes.antt =====
-- The bytes of an encoded frame: their range and their number.
use mowgli_lora_link.Prelude.{
  ℕ, ◌+◌, ◌≤◌, ◌≡◌, arith, List, ◌∷◌, ◌++◌, length, length-append, All, All-append, ok,
}
use mowgli_lora_link.Crc.{IsByte, crc16}
use mowgli_lora_link.Crc.Detection.{crc16_lt}
use mowgli_lora_link.Wire.{be16, be32}
use mowgli_lora_link.Protocol.Cobs.{cobs_encode}
use mowgli_lora_link.Protocol.Cobs.Blocks.{length-cobs_encode}
use mowgli_lora_link.Protocol.Frame.{Frame, frame_body, with_crc, decode_frame}
use mowgli_lora_link.Protocol.Frame.RoundTrip.{IsFrame, decode_body-with_crc}
use mowgli_lora_link.Protocol.Cobs.RoundTrip.{cobs_decode-cobs_encode}

-- A frame in range whose payload is made of bytes.
pub record IsByteFrame (f : Frame) : Type 0 where
  pub frame : IsFrame f
  pub bytes : All IsByte f.payload

-- The sixteen bytes before the payload.
abbrev head : Frame → List ℕ
head f =
    b'M'
    ∷ b'U'
    ∷ 1
    ∷ f.msg_type
    ∷ 0
    ∷ 0
    ∷ (be32 f.session ++ (be32 f.sequence ++ be16 (length f.payload)))

head-IsByte : (f : Frame) → IsFrame f → All IsByte (head f)
head-IsByte f h = omega (arith, h.typed, h.session_fits, h.sequence_fits, h.payload_fits)

frame_body-IsByte : (f : Frame) → IsByteFrame f → All IsByte (frame_body f)
unfolding frame_body
frame_body-IsByte f h = All-append IsByte (head f) f.payload (head-IsByte f h.frame) h.bytes

pub with_crc-IsByte : (f : Frame) → IsByteFrame f → All IsByte (with_crc (frame_body f))
unfolding with_crc
with_crc-IsByte f h =
    let body = frame_body-IsByte f h in
    All-append IsByte (frame_body f) (be16 (crc16 (frame_body f))) body
      (omega (arith, crc16_lt (frame_body f) body))

length-with_crc : (f : Frame) → length (with_crc (frame_body f)) ≡ 18 + length f.payload
unfolding with_crc frame_body
length-with_crc f = omega (arith, length-append f.payload (be16 (crc16 (frame_body f))))

-- The bytes of a frame before its delimiter.
abbrev pub code_of : Frame → List ℕ
code_of f = cobs_encode (with_crc (frame_body f))

pub length-code_of : (f : Frame) → IsFrame f → length (code_of f) ≤ 276
length-code_of f h =
    omega (arith, h.payload_fits, length-with_crc f, length-cobs_encode (with_crc (frame_body f)))

pub decode_frame-code_of : (f : Frame) → IsFrame f → decode_frame (code_of f) ≡ ok f
unfolding decode_frame
decode_frame-code_of f h =
    rw (cobs_decode-cobs_encode (with_crc (frame_body f))) (decode_body-with_crc f h.payload_fits)
