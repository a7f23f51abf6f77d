-- ===== src/Application/Synthetic/Validity.antt =====
-- The validity and the length of the synthetic frames.
use mowgli_lora_link.Prelude.{
  ℕ, zero, suc, ◌+◌, ◌-◌, ◌%◌, ◌≤◌, ◌≡◌, refl, sym, ap, ◌∙◌, arith, List, ◌++◌, length,
  length-append, drop_last-append, true, leb, max, ok,
}
use mowgli_lora_link.Crc.{crc24q}
use mowgli_lora_link.Wire.{be24}
use mowgli_lora_link.Wire.Laws.{u24_at_end}
use mowgli_lora_link.Application.Rtcm.{valid_rtcm3, type_field, max_rtcm_frame_size}
use mowgli_lora_link.Application.Rtcm.Validity.{IsRtcm, IsRtcm-valid_rtcm3}
use mowgli_lora_link.Application.Synthetic.{
  filler, synthetic_payload, header_and_payload, synthetic_rtcm,
}

length-filler : (n index seed : ℕ) → length (filler n index seed) ≡ n
unfolding filler
length-filler zero index seed = refl
length-filler (suc n) index seed = ap suc (length-filler n (index + 1) seed)

-- A payload of at most 1023 bytes behind a header and before its checksum is a frame.
IsRtcm-payload :
    (payload : List ℕ)
    → length payload ≤ 1023
    → IsRtcm (header_and_payload payload ++ be24 (crc24q (header_and_payload payload)))
unfolding header_and_payload
IsRtcm-payload payload small =
    let crc = crc24q (header_and_payload payload) in
    let size = length-append payload (be24 crc) in
    record {
      long = omega (arith, size);
      marker = refl;
      reserved = omega arith;
      whole = omega (arith, size);
      crc =
          ap crc24q (drop_last-append (header_and_payload payload) (be24 crc) 3 refl)
          ∙ sym (u24_at_end (header_and_payload payload) crc);
    }

synthetic_bytes : ℕ → ℕ → ℕ → List ℕ
unfolding header_and_payload synthetic_payload
synthetic_bytes message_type size seed =
    let covered = header_and_payload (synthetic_payload message_type (size - 6) seed) in
    covered ++ be24 (crc24q covered)

length-synthetic_payload :
    (message_type n seed : ℕ) → length (synthetic_payload message_type n seed) ≡ max 2 n
unfolding synthetic_payload
length-synthetic_payload message_type n seed = ground (arith, length-filler (n - 2) 2 seed)

synthetic_bytes-shape :
    (message_type size seed : ℕ)
    → (length (synthetic_bytes message_type size seed) ≡ max 2 (size - 6) + 6)
      × (type_field (synthetic_bytes message_type size seed) ≡ message_type % 4096)
unfolding synthetic_bytes
synthetic_bytes-shape message_type size seed =
    let payload = synthetic_payload message_type (size - 6) seed in
    let crc = crc24q (header_and_payload payload) in
    (
      omega (
        arith,
        length-append (filler (size - 6 - 2) 2 seed) (be24 crc),
        length-filler (size - 6 - 2) 2 seed,
      ),
      omega arith,
    )

-- For every length from 6 to 1029 `synthetic_rtcm` returns a valid frame that carries the low twelve
-- bits of the type. It has the length asked for, except that it is never shorter than eight bytes.
pub synthetic_rtcm_lem :
    (message_type size seed : ℕ)
    → 6 ≤ size
    → size ≤ max_rtcm_frame_size
    → (raw : List ℕ) × (synthetic_rtcm message_type size seed ≡ ok raw)
      × (valid_rtcm3 raw ≡ true)
      × (length raw ≡ max 8 size)
      × (type_field raw ≡ message_type % 4096)
unfolding synthetic_rtcm synthetic_bytes
synthetic_rtcm_lem message_type size seed long small =
    let payload = synthetic_payload message_type (size - 6) seed in
    let (size_lem, type_lem) = synthetic_bytes-shape message_type size seed in
    let from : leb 6 size ≡ true = ground arith in
    let upto : leb size max_rtcm_frame_size ≡ true = ground arith in
    (
      synthetic_bytes message_type size seed,
      rw (from, upto),
      IsRtcm-valid_rtcm3 _ (
          IsRtcm-payload payload
            (omega (arith, length-synthetic_payload message_type (size - 6) seed))),
      omega (arith, size_lem),
      type_lem,
    )
