-- ===== src/Application/Reassembler/Tests.antt =====
-- Concrete runs for the reassembly.
use mowgli_lora_link.Prelude.{ℕ, ◌<◌, ◌≤◌, List, [], ◌∷◌, length, ◌≡◌, refl, arith, ok, some}
use mowgli_lora_link.Crc.{crc24q}
use mowgli_lora_link.Dict.{lookup, contains, insert, remove, insert_last, trim}
use mowgli_lora_link.Application.Codec.{Frame}
use mowgli_lora_link.Application.Rtcm.{valid_rtcm3, max_rtcm_frame_size}
use mowgli_lora_link.Application.Reassembler.{init, add, parse_fragment, transport_ttl}
use mowgli_lora_link.Application.Reassembler.Bounds.{IsBounded, add-IsBounded}
use mowgli_lora_link.Application.Reassembler.Delivery.{Delivered, add-Delivered}

abbrev station : List ℕ
station = 0xD3 ∷ 0 ∷ 2 ∷ 0x3E ∷ 0xD0 ∷ 164 ∷ 224 ∷ 0 ∷ []

-- The only fragment of `station`, of type 1005.
abbrev only : Frame
only = record {
  typ = 0x30;
  sender_session = 5;
  message_id = 1;
  source_age_ms = 100;
  body = 3 ∷ 237 ∷ 0 ∷ 8 ∷ 0 ∷ 1 ∷ station;
}

delivers : (add init only 2000).1 ≡ ok (some station)
unfolding add valid_rtcm3 crc24q lookup contains insert remove insert_last trim
delivers = refl

add-Delivered_example :
    Delivered (5, 1) (parse_fragment only.body) (add init only 2000).0 station
    × (length station ≤ max_rtcm_frame_size)
    × (only.source_age_ms < transport_ttl)
add-Delivered_example = add-Delivered init only 2000 station delivers

add-IsBounded_example : IsBounded (add init only 2000).0
add-IsBounded_example =
    add-IsBounded init only 2000 (record { items = omega arith; blocked = omega arith })
