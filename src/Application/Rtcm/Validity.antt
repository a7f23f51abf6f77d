-- ===== src/Application/Rtcm/Validity.antt =====
-- What `valid_rtcm3` tests, and frames with a changed byte.
use mowgli_lora_link.Prelude.{
  ℕ, ◌+◌, ◌-◌, ◌≤◌, ◌≡◌, ◌≢◌, refl, sym, ap, ◌∙◌, arith, List, ◌∷◌, ◌++◌, length, get_or, drop_last,
  drop_last-append, All, true, false, Bool-cases, inl, inr,
}
use mowgli_lora_link.Crc.{IsByte, crc24q}
use mowgli_lora_link.Crc.Detection.{crc24q_detects_byte}
use mowgli_lora_link.Wire.{be24, u24_at}
use mowgli_lora_link.Wire.Laws.{u24_at_end}
use mowgli_lora_link.Application.Rtcm.{valid_rtcm3, payload_length, reserved_bits}

pub record IsRtcm (raw : List ℕ) : Type 0 where
  pub long : 6 ≤ length raw
  pub marker : get_or raw 0 0 ≡ 0xD3
  pub reserved : reserved_bits raw ≡ 0
  pub whole : length raw ≡ payload_length raw + 6
  pub crc : crc24q (drop_last 3 raw) ≡ u24_at raw (length raw - 3)

pub valid_rtcm3-IsRtcm : (raw : List ℕ) → valid_rtcm3 raw ≡ true → IsRtcm raw
unfolding valid_rtcm3
valid_rtcm3-IsRtcm raw h = ground arith

pub IsRtcm-valid_rtcm3 : (raw : List ℕ) → IsRtcm raw → valid_rtcm3 raw ≡ true
unfolding valid_rtcm3
IsRtcm-valid_rtcm3 raw h = ground arith

-- If one byte of what the checksum of a frame of bytes covers is changed to another byte, the
-- frame is not valid, wherever it stands.
pub valid_rtcm3_rejects :
    (xs ys : List ℕ) (b b' : ℕ)
    → All IsByte (xs ++ (b ∷ ys))
    → IsByte b'
    → b ≢ b'
    → valid_rtcm3 ((xs ++ (b' ∷ ys)) ++ be24 (crc24q (xs ++ (b ∷ ys)))) ≡ false
valid_rtcm3_rejects xs ys b b' bytes byte changed =
    let crc = crc24q (xs ++ (b ∷ ys)) in
    let corrupt = xs ++ (b' ∷ ys) in
    elim (Bool-cases (valid_rtcm3 (corrupt ++ be24 crc))) [
      | inr invalid ↦ invalid
      | inl valid ↦ absurd (
          crc24q_detects_byte xs ys b b' bytes byte changed (
            sym (u24_at_end corrupt crc)
            ∙ sym (valid_rtcm3-IsRtcm (corrupt ++ be24 crc) valid).crc
            ∙ ap crc24q (drop_last-append corrupt (be24 crc) 3 refl)))
    ]
