-- ===== src/Application/Codec/Tests.antt =====
-- Concrete runs for the application frame.
use mowgli_lora_link.Prelude.{
  ℕ, ◌+◌, ◌≤◌, List, [], ◌∷◌, ◌++◌, length, ◌≡◌, refl, arith, Error, err, ok,
}
use mowgli_lora_link.Crc.{crc16}
use mowgli_lora_link.Wire.{be16}
use mowgli_lora_link.Application.Codec.{Frame, header_and_body, encode, decode, max_frame_size}
use mowgli_lora_link.Application.Codec.RoundTrip.{decode-encode}
use mowgli_lora_link.Application.Codec.Canonical.{encode-decode, decode_rejects}

-- A STOP request from session 5 to session 9.
abbrev stop : Frame
stop = record {
  typ = 0x10;
  sender_session = 5;
  message_id = 1;
  source_age_ms = 100;
  body = 0 ∷ 0 ∷ 0 ∷ 9 ∷ 1 ∷ 3 ∷ [];
}

abbrev rest : List ℕ
rest = 16 ∷ 0 ∷ 0 ∷ 0 ∷ 0 ∷ 0 ∷ 5 ∷ 0 ∷ 0 ∷ 0 ∷ 1 ∷ 0 ∷ 100 ∷ 0 ∷ 6 ∷ 0 ∷ 0 ∷ 0 ∷ 9 ∷ 1 ∷ 3 ∷ []

abbrev bytes : List ℕ
bytes = (b'M' ∷ b'A' ∷ 1 ∷ rest) ++ (79 ∷ 60 ∷ [])

decode-encode_example :
    (decode bytes ≡ ok stop)
    × (length bytes ≡ 20 + length stop.body)
    × (length bytes ≤ max_frame_size)
unfolding encode header_and_body crc16
decode-encode_example = decode-encode stop bytes refl

encode-decode_example : encode stop ≡ ok bytes
unfolding decode crc16
encode-decode_example = encode-decode bytes stop (ground arith) refl

decode_rejects_example :
    (e : Error) × (decode
        (((b'M' ∷ b'A' ∷ []) ++ (2 ∷ rest)) ++ be16 (crc16 (header_and_body stop)))
      ≡ err e)
unfolding header_and_body
decode_rejects_example =
    decode_rejects stop (b'M' ∷ b'A' ∷ []) rest 1 2 refl (ground arith) (omega arith) (ground arith)
