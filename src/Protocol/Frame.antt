-- ===== src/Protocol/Frame.antt =====
-- `encode_frame` and `decode_frame` of tools/lora_usb/protocol.py.
pub mod RoundTrip
pub mod Detection
pub mod Bytes
mod Tests
use mowgli_lora_link.Prelude.{
  ℕ, ◌+◌, ◌-◌, List, [], ◌∷◌, ◌++◌, length, get_or, drop, drop_last, Bool, not, ◌&&◌, ◌||◌, ◌==◌,
  ltb, leb, if◌then◌else◌, Result, ok, err, protocol_error, raise_if, ◌>>=◌, ◌>>◌,
}
use mowgli_lora_link.Crc.{crc16}
use mowgli_lora_link.Wire.{be16, be32, u16_at, u32_at}
use mowgli_lora_link.Protocol.Cobs.{cobs_encode, cobs_decode}

abbrev pub max_usb_payload : ℕ
max_usb_payload = 256

abbrev pub max_decoded : ℕ
max_decoded = 274

pub record Frame : Type 0 where
  pub msg_type : ℕ
  pub session : ℕ
  pub sequence : ℕ
  pub payload : List ℕ

-- MAGIC, VERSION, the type, two reserved bytes, the identity, the length and the payload.
pub frame_body : Frame → List ℕ
frame_body f =
    b'M'
    ∷ b'U'
    ∷ 1
    ∷ f.msg_type
    ∷ 0
    ∷ 0
    ∷ (be32 f.session ++ (be32 f.sequence ++ (be16 (length f.payload) ++ f.payload)))

pub with_crc : List ℕ → List ℕ
with_crc body = body ++ be16 (crc16 body)

-- The arguments of `encode_frame` are the fields of `f`. The integers are not negative.
pub encode_frame : Frame → Result (List ℕ)
encode_frame f = do
  raise_if
      (not (leb f.msg_type 255)
        || (not (ltb 0 f.session && leb f.session 0xFFFFFFFF) || not (leb f.sequence 0xFFFFFFFF)))
      (protocol_error "invalid frame identity")
  raise_if (ltb max_usb_payload (length f.payload)) (protocol_error "USB payload too large")
  ok (cobs_encode (with_crc (frame_body f)) ++ (0 ∷ []))

-- What `decode_frame` does with the bytes that `cobs_decode` returned.
pub decode_body : List ℕ → Result Frame
decode_body body = do
  raise_if
      (ltb (length body) 18
        || (ltb max_decoded (length body)
            || not (get_or body 0 0 == b'M' && get_or body 1 0 == b'U')))
      (protocol_error "bad USB frame")
  raise_if
      (not (get_or body 2 0 == 1) || (not (get_or body 4 0 == 0) || not (get_or body 5 0 == 0)))
      (protocol_error "unsupported USB header")
  let size = u16_at body 14
  raise_if (ltb max_usb_payload size || not (length body == 18 + size))
      (protocol_error "USB length mismatch")
  raise_if (not (crc16 (drop_last 2 body) == u16_at body (length body - 2)))
      (protocol_error "USB CRC mismatch")
  ok (record {
    msg_type = get_or body 3 0;
    session = u32_at body 6;
    sequence = u32_at body 10;
    payload = drop 16 (drop_last 2 body);
  })

pub decode_frame : List ℕ → Result Frame
unfolding decode_body
decode_frame encoded = do body ← cobs_decode encoded; decode_body body
