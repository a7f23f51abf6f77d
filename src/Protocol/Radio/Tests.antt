-- ===== src/Protocol/Radio/Tests.antt =====
-- Concrete runs for the radio packet.
use mowgli_lora_link.Prelude.{ℕ, ◌≤◌, List, [], ◌∷◌, ◌++◌, length, ◌≡◌, refl, ok}
use mowgli_lora_link.Crc.{crc16}
use mowgli_lora_link.Wire.{be16}
use mowgli_lora_link.Protocol.Radio.{Packet, radio_body, encode_radio, decode_radio}
use mowgli_lora_link.Protocol.Radio.RoundTrip.{decode_radio-encode_radio}

abbrev packet : Packet
packet = record { boot_id = 0x01020304; air_sequence = 7; payload = 0 ∷ 255 ∷ [] }

abbrev packet_body : List ℕ
packet_body = 77 ∷ 76 ∷ 1 ∷ 1 ∷ 0 ∷ 0 ∷ 1 ∷ 2 ∷ 3 ∷ 4 ∷ 0 ∷ 0 ∷ 0 ∷ 7 ∷ 0 ∷ 2 ∷ 0 ∷ 255 ∷ []

decode_radio-encode_radio_example :
    (decode_radio (packet_body ++ be16 (crc16 packet_body)) ≡ ok packet)
    × (length (packet_body ++ be16 (crc16 packet_body)) ≤ 218)
unfolding encode_radio radio_body
decode_radio-encode_radio_example =
    decode_radio-encode_radio packet (packet_body ++ be16 (crc16 packet_body)) refl
