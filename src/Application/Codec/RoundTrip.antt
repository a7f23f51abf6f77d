-- ===== src/Application/Codec/RoundTrip.antt =====
-- `decode` after `encode`.
use mowgli_lora_link.Prelude.{
  ℕ, ◌+◌, ◌-◌, ◌≤◌, ◌<◌, ◌≡◌, refl, sym, ◌∙◌, ap, arith, List, ◌++◌, length, length-append, get_or,
  drop, drop_last, drop_last-append, ok,
}
use mowgli_lora_link.Crc.{crc16}
use mowgli_lora_link.Wire.{be16, u16_at, u32_at}
use mowgli_lora_link.Wire.Laws.{u16_at_end}
use mowgli_lora_link.Application.Codec.{
  Frame, header_and_body, encode, decode, max_body_size, max_frame_size,
}

-- The frames that `encode` accepts.
pub record IsFrame (f : Frame) : Type 0 where
  pub typed : f.typ ≤ 0xFF
  pub has_session : 0 < f.sender_session
  pub session_fits : f.sender_session ≤ 0xFFFFFFFF
  pub has_id : 0 < f.message_id
  pub id_fits : f.message_id ≤ 0xFFFFFFFF
  pub age_fits : f.source_age_ms ≤ 0xFFFF
  pub body_fits : length f.body ≤ max_body_size

pub encode-ok :
    (f : Frame) → IsFrame f → encode f ≡ ok (header_and_body f ++ be16 (crc16 (header_and_body f)))
unfolding encode
encode-ok f h = ground arith

pub encode-IsFrame :
    (f : Frame) (raw : List ℕ)
    → encode f ≡ ok raw
    → IsFrame f × (raw ≡ header_and_body f ++ be16 (crc16 (header_and_body f)))
unfolding encode
encode-IsFrame f raw e = ground arith

-- What `decode` reads of a sequence, and what it tests.
pub record Holds (raw : List ℕ) (f : Frame) : Type 0 where
  pub magic : (get_or raw 0 0 ≡ b'M') × (get_or raw 1 0 ≡ b'A')
  pub header : (get_or raw 2 0 ≡ 1) × (get_or raw 4 0 ≡ 0) × (get_or raw 5 0 ≡ 0)
  pub size : u16_at raw 16 ≡ length f.body
  pub whole : length raw ≡ 20 + length f.body
  pub crc : crc16 (drop_last 2 raw) ≡ u16_at raw (length raw - 2)
  pub typ : get_or raw 3 0 ≡ f.typ
  pub session : u32_at raw 6 ≡ f.sender_session
  pub id : u32_at raw 10 ≡ f.message_id
  pub age : u16_at raw 14 ≡ f.source_age_ms
  pub body : drop 18 (drop_last 2 raw) ≡ f.body

decode_of_Holds :
    (raw : List ℕ) (f : Frame)
    → 0 < f.sender_session
    → 0 < f.message_id
    → length f.body ≤ max_body_size
    → Holds raw f
    → decode raw ≡ ok f
unfolding decode
decode_of_Holds raw f session id small h = ground arith

encoded-Holds : (f : Frame) → Holds (header_and_body f ++ be16 (crc16 (header_and_body f))) f
unfolding header_and_body
encoded-Holds f =
    let crc = crc16 (header_and_body f) in
    let body = drop_last-append (header_and_body f) (be16 crc) 2 refl in
    record {
      magic = (refl, refl);
      header = (refl, refl, refl);
      size = omega arith;
      whole = omega (arith, length-append f.body (be16 crc));
      crc = ap crc16 body ∙ sym (u16_at_end (header_and_body f) crc);
      typ = refl;
      session = omega arith;
      id = omega arith;
      age = omega arith;
      body = ap (drop 18) body;
    }

-- `decode` gives back every frame that `encode` accepts, and the encoding has 20 bytes more than the
-- body, 200 at most.
pub decode-encode :
    (f : Frame) (raw : List ℕ)
    → encode f ≡ ok raw
    → (decode raw ≡ ok f) × (length raw ≡ 20 + length f.body) × (length raw ≤ max_frame_size)
decode-encode f raw e =
    let (h, written) = encode-IsFrame f raw e in
    let holds = encoded-Holds f in
    rw written (
      decode_of_Holds _ f h.has_session h.has_id h.body_fits holds,
      holds.whole,
      omega (arith, holds.whole, h.body_fits),
    )
