-- ===== src/Application/Synthetic/Tests.antt =====
-- Concrete runs for the synthetic RTCM frames.
use mowgli_lora_link.Prelude.{ℕ, ◌%◌, max, List, length, ◌≡◌, arith, ok, true}
use mowgli_lora_link.Application.Rtcm.{valid_rtcm3, type_field}
use mowgli_lora_link.Application.Synthetic.{synthetic_rtcm}
use mowgli_lora_link.Application.Synthetic.Validity.{synthetic_rtcm_lem}

-- Six bytes are asked for, and eight returned.
synthetic_rtcm_lem_example :
    (raw : List ℕ) × (synthetic_rtcm 1077 6 3 ≡ ok raw)
    × (valid_rtcm3 raw ≡ true)
    × (length raw ≡ max 8 6)
    × (type_field raw ≡ 1077 % 4096)
synthetic_rtcm_lem_example = synthetic_rtcm_lem 1077 6 3 (omega arith) (omega arith)
