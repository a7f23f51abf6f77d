-- ===== src/Crc.antt =====
-- The checksums: `crc16` of tools/lora_usb/protocol.py (repeated in tools/lora_usb/application.py)
-- and `crc24q` of tools/lora_usb/application.py. A byte sequence is a list of numbers.
mod Bits
pub mod Detection
mod Tests
use mathlib.Core.List.{foldl}
use mowgli_lora_link.Prelude.{ℕ, zero, suc, ◌*◌, ◌/◌, ◌%◌, ◌<◌, bit_xor, List, ◌==◌, if◌then◌else◌}

abbrev pub IsByte : ℕ → Type 0
IsByte b = b < 256

-- `for _ in range(n): crc = f(crc)`
repeat : ℕ → (ℕ → ℕ) → ℕ → ℕ
repeat zero f crc = crc
repeat (suc n) f crc = repeat n f (f crc)

-- `& 0x8000` tests the digit that `/ 0x8000 % 2` reads, and `& 0xFFFF` is `% 0x10000`.
crc16_round : ℕ → ℕ
crc16_round crc =
    if crc / 0x8000 % 2 == 1 then bit_xor (crc * 2) 0x1021 % 0x10000 else crc * 2 % 0x10000

crc16_byte : ℕ → ℕ → ℕ
crc16_byte crc byte = repeat 8 crc16_round (bit_xor crc (byte * 256))

unfoldable pub crc16 : List ℕ → ℕ
unfolding repeat crc16_round crc16_byte
crc16 = foldl crc16_byte 0xFFFF

crc24q_round : ℕ → ℕ
crc24q_round crc =
    if crc / 0x800000 % 2 == 1 then bit_xor (crc * 2) 0x1864CFB % 0x1000000 else crc * 2 % 0x1000000

crc24q_byte : ℕ → ℕ → ℕ
crc24q_byte crc byte = repeat 8 crc24q_round (bit_xor crc (byte * 65536))

unfoldable pub crc24q : List ℕ → ℕ
unfolding repeat crc24q_round crc24q_byte
crc24q = foldl crc24q_byte 0
