-- ===== src/Application/Codec.antt =====
-- `Frame`, `encode` and `decode` of tools/lora_usb/application.py.
pub mod RoundTrip
pub mod Canonical
mod Tests
use mowgli_lora_link.Prelude.{
  ℕ, ◌+◌, ◌-◌, List, [], ◌∷◌, ◌++◌, length, get_or, drop, drop_last, Bool, not, ◌&&◌, ◌||◌, ◌==◌,
  ltb, leb, Result, ok, err, application_error, raise_if, ◌>>=◌, ◌>>◌,
}
use mowgli_lora_link.Crc.{crc16}
use mowgli_lora_link.Wire.{be16, be32, u16_at, u32_at}

abbrev pub header_size : ℕ
header_size = 18

abbrev pub crc_size : ℕ
crc_size = 2

abbrev pub max_body_size : ℕ
max_body_size = 180

abbrev pub max_frame_size : ℕ
max_frame_size = 200

pub record Frame : Type 0 where
  pub typ : ℕ
  pub sender_session : ℕ
  pub message_id : ℕ
  pub source_age_ms : ℕ
  pub body : List ℕ

pub header_and_body : Frame → List ℕ
header_and_body f =
    b'M'
    ∷ b'A'
    ∷ 1
    ∷ f.typ
    ∷ 0
    ∷ 0
    ∷ (be32 f.sender_session
        ++ (be32 f.message_id ++ (be16 f.source_age_ms ++ (be16 (length f.body) ++ f.body))))

-- The integers are not negative.
pub encode : Frame → Result (List ℕ)
encode f = do
  raise_if (not (leb f.typ 0xFF)) (application_error "message type out of range")
  raise_if (not (ltb 0 f.sender_session && leb f.sender_session 0xFFFFFFFF))
      (application_error "sender session out of range")
  raise_if (not (ltb 0 f.message_id && leb f.message_id 0xFFFFFFFF))
      (application_error "message id out of range")
  raise_if (not (leb f.source_age_ms 0xFFFF)) (application_error "source age out of range")
  raise_if (ltb max_body_size (length f.body)) (application_error "body too large")
  ok (header_and_body f ++ be16 (crc16 (header_and_body f)))

pub decode : List ℕ → Result Frame
decode raw = do
  raise_if (not (leb (header_size + crc_size) (length raw) && leb (length raw) max_frame_size))
      (application_error "application frame size")
  raise_if
      (not (get_or raw 0 0 == b'M' && get_or raw 1 0 == b'A')
        || (not (get_or raw 2 0 == 1) || not (get_or raw 4 0 == 0 && get_or raw 5 0 == 0)))
      (application_error "application frame header")
  let sender_session = u32_at raw 6
  let message_id = u32_at raw 10
  let body_length = u16_at raw 16
  raise_if (sender_session == 0 || message_id == 0) (application_error "zero application identity")
  raise_if (ltb max_body_size body_length || not (length raw == header_size + body_length + 2))
      (application_error "application frame length")
  raise_if (not (crc16 (drop_last 2 raw) == u16_at raw (length raw - 2)))
      (application_error "application frame CRC")
  ok (record {
    typ = get_or raw 3 0;
    sender_session = sender_session;
    message_id = message_id;
    source_age_ms = u16_at raw 14;
    body = drop header_size (drop_last 2 raw);
  })
