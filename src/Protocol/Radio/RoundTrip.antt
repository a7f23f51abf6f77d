-- ===== src/Protocol/Radio/RoundTrip.antt =====
-- `decode_radio` after `encode_radio`, and on a packet with a changed byte.
use mowgli_lora_link.Prelude.{
  ℕ, ◌+◌, ◌-◌, ◌≤◌, ◌<◌, ◌≡◌, ◌≢◌, refl, sym, ◌∙◌, ap, arith, List, ◌∷◌, ◌++◌, length,
  length-append, drop, drop_last, drop_last-append, All, false, ok, err, Error, Result-cases, inl,
  inr,
}
use mowgli_lora_link.Crc.{IsByte, crc16}
use mowgli_lora_link.Crc.Detection.{crc16_detects_byte}
use mowgli_lora_link.Wire.{be16, u16_at, u32_at}
use mowgli_lora_link.Wire.Laws.{u16_at_end}
use mowgli_lora_link.Protocol.Radio.{
  Packet, radio_body, encode_radio, bad_header, decode_radio, max_air_payload,
}

-- What `decode_radio` tests, and what it returns.
record Holds (packet : List ℕ) (p : Packet) : Type 0 where
  magic : bad_header packet ≡ false
  size : u16_at packet 14 ≡ length p.payload
  whole : length packet ≡ 18 + length p.payload
  crc : crc16 (drop_last 2 packet) ≡ u16_at packet (length packet - 2)
  boot_id : u32_at packet 6 ≡ p.boot_id
  air_sequence : u32_at packet 10 ≡ p.air_sequence
  payload : drop 16 (drop_last 2 packet) ≡ p.payload

decode_radio_of_Holds :
    (packet : List ℕ) (p : Packet)
    → 0 < length p.payload
    → length p.payload ≤ max_air_payload
    → Holds packet p
    → decode_radio packet ≡ ok p
unfolding decode_radio
decode_radio_of_Holds packet p some_payload small h = ground arith

encoded-Holds : (p : Packet) → Holds (radio_body p ++ be16 (crc16 (radio_body p))) p
unfolding radio_body bad_header
encoded-Holds p =
    let crc = crc16 (radio_body p) in
    let body = drop_last-append (radio_body p) (be16 crc) 2 refl in
    record {
      magic = refl;
      size = omega arith;
      whole = omega (arith, length-append p.payload (be16 crc));
      crc = ap crc16 body ∙ sym (u16_at_end (radio_body p) crc);
      boot_id = omega arith;
      air_sequence = omega arith;
      payload = ap (drop 16) body;
    }

encode_radio_lem :
    (p : Packet) (wire : List ℕ)
    → encode_radio p ≡ ok wire
    → (wire ≡ radio_body p ++ be16 (crc16 (radio_body p)))
      × (0 < length p.payload)
      × (length p.payload ≤ max_air_payload)
unfolding encode_radio
encode_radio_lem p wire e = ground arith

-- Whatever packet `encode_radio` accepts, `decode_radio` gives it back from the bytes written, and
-- there are at most 218 of them.
pub decode_radio-encode_radio :
    (p : Packet) (wire : List ℕ)
    → encode_radio p ≡ ok wire
    → (decode_radio wire ≡ ok p) × (length wire ≤ 218)
decode_radio-encode_radio p wire e =
    let (written, some_payload, small) = encode_radio_lem p wire e in
    let holds = encoded-Holds p in
    rw written (decode_radio_of_Holds _ p some_payload small holds, omega (arith, holds.whole))

decode_radio-crc :
    (packet : List ℕ) (p : Packet)
    → decode_radio packet ≡ ok p
    → crc16 (drop_last 2 packet) ≡ u16_at packet (length packet - 2)
unfolding decode_radio
decode_radio-crc packet p e = ground arith

-- If one byte of what the checksum of a packet of bytes covers is changed to another byte, the
-- packet does not decode, wherever it stands.
pub decode_radio_rejects :
    (p : Packet) (xs ys : List ℕ) (b b' : ℕ)
    → radio_body p ≡ xs ++ (b ∷ ys)
    → All IsByte (radio_body p)
    → IsByte b'
    → b ≢ b'
    → (e : Error) × (decode_radio ((xs ++ (b' ∷ ys)) ++ be16 (crc16 (radio_body p))) ≡ err e)
decode_radio_rejects p xs ys b b' split bytes byte changed =
    let crc = crc16 (radio_body p) in
    let corrupt = xs ++ (b' ∷ ys) in
    elim (Result-cases (decode_radio (corrupt ++ be16 crc))) [
      | inr failed ↦ failed
      | inl (q, decoded) ↦ absurd (
          crc16_detects_byte xs ys b b' (rw split at bytes) byte changed (
            ap crc16 (sym split)
            ∙ sym (u16_at_end corrupt crc)
            ∙ sym (decode_radio-crc (corrupt ++ be16 crc) q decoded)
            ∙ ap crc16 (drop_last-append corrupt (be16 crc) 2 refl)))
    ]
