-- ===== src/Protocol/Cobs/Tests.antt =====
-- Concrete runs for the byte stuffing.
use mowgli_lora_link.Prelude.{ℕ, List, [], ◌∷◌, ◌≡◌, ◌≢◌, refl, err, ok, out_of_fuel}
use mowgli_lora_link.Protocol.Cobs.{cobs_encode, cobs_decode}
use mowgli_lora_link.Protocol.Cobs.RoundTrip.{cobs_decode-cobs_encode, cobs_decode-ne-stuck}

encoded : cobs_encode (0x11 ∷ 0x22 ∷ 0 ∷ 0x33 ∷ []) ≡ 3 ∷ 0x11 ∷ 0x22 ∷ 2 ∷ 0x33 ∷ []
unfolding cobs_encode
encoded = refl

cobs_decode-cobs_encode_example :
    cobs_decode (cobs_encode (0x11 ∷ 0 ∷ 0 ∷ 0x33 ∷ [])) ≡ ok (0x11 ∷ 0 ∷ 0 ∷ 0x33 ∷ [])
cobs_decode-cobs_encode_example = cobs_decode-cobs_encode (0x11 ∷ 0 ∷ 0 ∷ 0x33 ∷ [])

cobs_decode-ne-stuck_example : cobs_decode (5 ∷ 1 ∷ []) ≢ err out_of_fuel
cobs_decode-ne-stuck_example = cobs_decode-ne-stuck (5 ∷ 1 ∷ [])

abbrev two : List ℕ
two = 0 ∷ 7 ∷ []
