-- ===== src/Protocol/Frame/RoundTrip.antt =====
-- `decode_frame` after `encode_frame`.
use mowgli_lora_link.Prelude.{
  ℕ, ◌+◌, ◌-◌, ◌≤◌, ◌<◌, ◌≡◌, refl, sym, ◌∙◌, ap, arith, List, [], ◌∷◌, ◌++◌, length, length-append,
  get_or, drop, drop_last, drop_last-append, ok, All,
}
use mowgli_lora_link.Crc.{crc16}
use mowgli_lora_link.Wire.{be16, u16_at, u32_at}
use mowgli_lora_link.Wire.Laws.{u16_at_end}
use mowgli_lora_link.Protocol.Cobs.{cobs_encode}
use mowgli_lora_link.Protocol.Cobs.Blocks.{cobs_encode-positive}
use mowgli_lora_link.Protocol.Cobs.RoundTrip.{cobs_decode-cobs_encode}
use mowgli_lora_link.Protocol.Frame.{
  Frame, frame_body, with_crc, encode_frame, decode_body, decode_frame, max_usb_payload,
}

-- The frames that `encode_frame` accepts.
pub record IsFrame (f : Frame) : Type 0 where
  pub typed : f.msg_type ≤ 255
  pub has_session : 0 < f.session
  pub session_fits : f.session ≤ 0xFFFFFFFF
  pub sequence_fits : f.sequence ≤ 0xFFFFFFFF
  pub payload_fits : length f.payload ≤ max_usb_payload

pub encode_frame-ok :
    (f : Frame)
    → IsFrame f
    → encode_frame f ≡ ok (cobs_encode (with_crc (frame_body f)) ++ (0 ∷ []))
unfolding encode_frame
encode_frame-ok f h = ground arith

-- What `decode_body` tests, and what it returns.
pub record Holds (body : List ℕ) (f : Frame) : Type 0 where
  pub magic : (get_or body 0 0 ≡ b'M') × (get_or body 1 0 ≡ b'U')
  pub header : (get_or body 2 0 ≡ 1) × (get_or body 4 0 ≡ 0) × (get_or body 5 0 ≡ 0)
  pub size : u16_at body 14 ≡ length f.payload
  pub whole : length body ≡ 18 + length f.payload
  pub crc : crc16 (drop_last 2 body) ≡ u16_at body (length body - 2)
  pub msg_type : get_or body 3 0 ≡ f.msg_type
  pub session : u32_at body 6 ≡ f.session
  pub sequence : u32_at body 10 ≡ f.sequence
  pub payload : drop 16 (drop_last 2 body) ≡ f.payload

decode_body_of_Holds :
    (body : List ℕ) (f : Frame)
    → length f.payload ≤ max_usb_payload
    → Holds body f
    → decode_body body ≡ ok f
unfolding decode_body
decode_body_of_Holds body f small h = ground arith

with_crc-Holds : (f : Frame) → Holds (with_crc (frame_body f)) f
unfolding with_crc frame_body
with_crc-Holds f =
    let crc = crc16 (frame_body f) in
    let body = drop_last-append (frame_body f) (be16 crc) 2 refl in
    record {
      magic = (refl, refl);
      header = (refl, refl, refl);
      size = omega arith;
      whole = omega (arith, length-append f.payload (be16 crc));
      crc = ap crc16 body ∙ sym (u16_at_end (frame_body f) crc);
      msg_type = refl;
      session = omega arith;
      sequence = omega arith;
      payload = ap (drop 16) body;
    }

pub decode_body-with_crc :
    (f : Frame) → length f.payload ≤ max_usb_payload → decode_body (with_crc (frame_body f)) ≡ ok f
decode_body-with_crc f small = decode_body_of_Holds _ f small (with_crc-Holds f)

-- On a frame in range `encode_frame` writes bytes that are not zero and then one zero byte, and
-- `decode_frame` reads the frame back from the bytes before it.
pub decode_frame-encode_frame :
    (f : Frame)
    → IsFrame f
    → (wire : List ℕ) × (encode_frame f ≡ ok (wire ++ (0 ∷ [])))
      × All (λ b. 0 < b) wire
      × (decode_frame wire ≡ ok f)
unfolding decode_frame
decode_frame-encode_frame f h = (
  cobs_encode (with_crc (frame_body f)),
  encode_frame-ok f h,
  cobs_encode-positive (with_crc (frame_body f)),
  rw (cobs_decode-cobs_encode (with_crc (frame_body f))) (decode_body-with_crc f h.payload_fits),
)
