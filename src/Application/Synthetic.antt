-- ===== src/Application/Synthetic.antt =====
-- `synthetic_rtcm` and `synthetic_epoch` of tools/lora_usb/application.py.
pub mod Validity
mod Tests
use mowgli_lora_link.Prelude.{
  ℕ, zero, suc, ◌+◌, ◌-◌, ◌*◌, ◌/◌, ◌%◌, List, [], ◌∷◌, ◌++◌, length, not, ◌&&◌, ◌==◌, leb,
  if◌then◌else◌, Result, ok, err, application_error, raise_if, ◌>>=◌, ◌>>◌,
}
use mowgli_lora_link.Crc.{crc24q}
use mowgli_lora_link.Wire.{be16, be24}
use mowgli_lora_link.Application.Rtcm.{max_rtcm_frame_size}

-- `payload[index] = (seed * 31 + index * 17) & 0xFF` for the n indices from `index` on.
pub filler : ℕ → ℕ → ℕ → List ℕ
filler zero index seed = []
filler (suc n) index seed = ((seed * 31 + index * 17) % 256) ∷ filler n (index + 1) seed

-- `payload = bytearray(n)`, then `payload[:2] = …`: the slice takes what there is of the two bytes and
-- puts two in their place, so that the payload has two bytes at least.
pub synthetic_payload : ℕ → ℕ → ℕ → List ℕ
unfolding filler
synthetic_payload message_type n seed = be16 (message_type * 16 % 65536) ++ filler (n - 2) 2 seed

pub header_and_payload : List ℕ → List ℕ
header_and_payload payload = 0xD3 ∷ (length payload / 256 % 4) ∷ (length payload % 256) ∷ payload

pub synthetic_rtcm : ℕ → ℕ → ℕ → Result (List ℕ)
unfolding synthetic_payload header_and_payload
synthetic_rtcm message_type size seed = do
  raise_if (not (leb 6 size && leb size max_rtcm_frame_size))
      (application_error "synthetic RTCM length")
  let covered = header_and_payload (synthetic_payload message_type (size - 6) seed)
  ok (covered ++ be24 (crc24q covered))

-- RTCM_OBSERVATION_SIZES and RTCM_STATIC_SIZES
abbrev pub observation_sizes : List (ℕ × ℕ)
observation_sizes = (1077, 446) ∷ (1087, 226) ∷ (1097, 446) ∷ (1127, 586) ∷ []

abbrev pub static_sizes : List (ℕ × ℕ)
static_sizes = (1005, 25) ∷ (1230, 18) ∷ []

synthetic_all : List (ℕ × ℕ) → ℕ → Result (List (List ℕ))
synthetic_all [] seed = ok []
synthetic_all ((message_type, size) ∷ rest) seed = do
  frame ← synthetic_rtcm message_type size seed
  frames ← synthetic_all rest seed
  ok (frame ∷ frames)

pub synthetic_epoch : ℕ → Result (List (List ℕ))
unfolding synthetic_all
synthetic_epoch epoch = do
  frames ← synthetic_all observation_sizes epoch
  more ← if epoch % 10 == 0 then synthetic_all static_sizes epoch else ok []
  ok (frames ++ more)
