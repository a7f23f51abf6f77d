-- ===== src/Application/Rtcm/Tests.antt =====
-- Concrete runs for the RTCM frames and their fragments.
use mowgli_lora_link.Prelude.{ℕ, ◌≤◌, List, [], ◌∷◌, length, All, ◌≡◌, refl, arith, ok}
use mowgli_lora_link.Crc.{crc24q}
use mowgli_lora_link.Application.Codec.{Frame}
use mowgli_lora_link.Application.Codec.RoundTrip.{IsFrame}
use mowgli_lora_link.Application.Rtcm.{valid_rtcm3, fragment}
use mowgli_lora_link.Application.Rtcm.Fragments.{IsFragmentable, joined, fragment_lem}

abbrev station : List ℕ
station = 0xD3 ∷ 0 ∷ 2 ∷ 0x3E ∷ 0xD0 ∷ 164 ∷ 224 ∷ 0 ∷ []

station-IsFragmentable : IsFragmentable station 5 1 100
unfolding valid_rtcm3 crc24q
station-IsFragmentable = record {
  valid = refl;
  small = omega arith;
  has_session = omega arith;
  session_fits = omega arith;
  has_id = omega arith;
  id_fits = omega arith;
  age_fits = omega arith;
}

fragment_lem_example :
    (frames : List Frame) × (fragment station 5 1 100 ≡ ok frames)
    × (length frames ≤ 6)
    × All IsFrame frames
    × (joined frames ≡ station)
fragment_lem_example = fragment_lem station 5 1 100 station-IsFragmentable
