-- ===== src/Crc/Tests.antt =====
-- Concrete runs for the checksums.
use mowgli_lora_link.Prelude.{[], ◌∷◌, ◌++◌, ◌≡◌, ◌≢◌, refl, arith}
use mowgli_lora_link.Crc.{crc16, crc24q}
use mowgli_lora_link.Crc.Detection.{crc16_detects_byte, crc24q_detects_byte}

-- The check value of the CRC-16/CCITT-FALSE algorithm on the digits 1 to 9.
crc16_check : crc16 (49 ∷ 50 ∷ 51 ∷ 52 ∷ 53 ∷ 54 ∷ 55 ∷ 56 ∷ 57 ∷ []) ≡ 0x29B1
unfolding crc16
crc16_check = refl

crc16_detects_byte_example : crc16 ((1 ∷ []) ++ (2 ∷ 3 ∷ [])) ≢ crc16 ((1 ∷ []) ++ (7 ∷ 3 ∷ []))
crc16_detects_byte_example =
    crc16_detects_byte (1 ∷ []) (3 ∷ []) 2 7 (ground arith) (omega arith) (ground arith)

crc24q_detects_byte_example :
    crc24q ((0xD3 ∷ 0 ∷ []) ++ (2 ∷ 3 ∷ [])) ≢ crc24q ((0xD3 ∷ 0 ∷ []) ++ (7 ∷ 3 ∷ []))
crc24q_detects_byte_example =
    crc24q_detects_byte (0xD3 ∷ 0 ∷ []) (3 ∷ []) 2 7 (ground arith) (omega arith) (ground arith)
