-- ===== src/Protocol/Radio.antt =====
-- `encode_radio` and `decode_radio` of tools/lora_usb/protocol.py: the envelope of a LoRa packet.
pub mod RoundTrip
mod Tests
use mowgli_lora_link.Prelude.{
  ℕ, ◌+◌, ◌-◌, List, [], ◌∷◌, ◌++◌, length, get_or, drop, drop_last, Bool, not, ◌&&◌, ◌||◌, ◌==◌,
  ltb, leb, if◌then◌else◌, Result, ok, err, protocol_error, raise_if, ◌>>=◌, ◌>>◌,
}
use mowgli_lora_link.Crc.{crc16}
use mowgli_lora_link.Wire.{be16, be32, u16_at, u32_at}

abbrev pub max_air_payload : ℕ
max_air_payload = 200

-- The tuple that `decode_radio` returns, and the arguments of `encode_radio`.
pub record Packet : Type 0 where
  pub boot_id : ℕ
  pub air_sequence : ℕ
  pub payload : List ℕ

pub radio_body : Packet → List ℕ
radio_body p =
    b'M'
    ∷ b'L'
    ∷ 1
    ∷ 1
    ∷ 0
    ∷ 0
    ∷ (be32 p.boot_id ++ (be32 p.air_sequence ++ (be16 (length p.payload) ++ p.payload)))

pub encode_radio : Packet → Result (List ℕ)
encode_radio p = do
  raise_if
      (not (ltb 0 p.boot_id && leb p.boot_id 0xFFFFFFFF)
        || (not (ltb 0 p.air_sequence && leb p.air_sequence 0xFFFFFFFF)
            || not (ltb 0 (length p.payload) && leb (length p.payload) max_air_payload)))
      (protocol_error "invalid radio packet")
  ok (radio_body p ++ be16 (crc16 (radio_body p)))

-- `packet[:2] != b"ML" or packet[2:6] != b"\x01\x01\0\0"`
bad_header : List ℕ → Bool
bad_header packet =
    not (get_or packet 0 0 == b'M' && get_or packet 1 0 == b'L')
    || not (
        get_or packet 2 0 == 1
        && (get_or packet 3 0 == 1 && (get_or packet 4 0 == 0 && get_or packet 5 0 == 0)))

pub decode_radio : List ℕ → Result Packet
unfolding bad_header
decode_radio packet = do
  raise_if (ltb (length packet) 19 || bad_header packet) (protocol_error "bad radio packet")
  let n = u16_at packet 14
  raise_if
      (not (ltb 0 n && leb n max_air_payload)
        || (not (length packet == 18 + n)
            || not (crc16 (drop_last 2 packet) == u16_at packet (length packet - 2))))
      (protocol_error "bad radio packet")
  ok (record {
    boot_id = u32_at packet 6;
    air_sequence = u32_at packet 10;
    payload = drop 16 (drop_last 2 packet);
  })
