-- ===== src/Wire.antt =====
-- Python's `struct` with the big-endian formats of the source, and `int.from_bytes(…, "big")`.
-- `be16` and `be32` write a field whose range the source has tested before.
pub mod Laws
use mowgli_lora_link.Prelude.{
  ℕ, zero, suc, ◌+◌, ◌-◌, ◌*◌, ◌/◌, ◌%◌, ◌^◌, ◌≤◌, ◌<◌, ◌≡◌, arith, List, [], ◌∷◌, get_or, ltb,
  if◌then◌else◌, All, Bool,
}
use mowgli_lora_link.Prelude.Int.{ℤ, pos, negsuc}

-- `>H` and `>I`
abbrev pub be16 : ℕ → List ℕ
be16 n = (n / 256) ∷ (n % 256) ∷ []

-- `n.to_bytes(3, "big")`
abbrev pub be24 : ℕ → List ℕ
be24 n = (n / 65536) ∷ (n / 256 % 256) ∷ (n % 256) ∷ []

abbrev pub be32 : ℕ → List ℕ
be32 n = (n / 16777216) ∷ (n / 65536 % 256) ∷ (n / 256 % 256) ∷ (n % 256) ∷ []

-- The unsigned fields that start at index i of a buffer; the source has tested its length.
abbrev pub u16_at : List ℕ → ℕ → ℕ
u16_at xs i = get_or xs i 0 * 256 + get_or xs (i + 1) 0

abbrev pub u24_at : List ℕ → ℕ → ℕ
u24_at xs i = get_or xs i 0 * 65536 + get_or xs (i + 1) 0 * 256 + get_or xs (i + 2) 0

abbrev pub u32_at : List ℕ → ℕ → ℕ
u32_at xs i =
    get_or xs i 0 * 16777216
    + get_or xs (i + 1) 0 * 65536
    + get_or xs (i + 2) 0 * 256
    + get_or xs (i + 3) 0

-- `>h` and `>i`: two's complement.
abbrev pub signed16 : ℕ → ℤ
signed16 n = if ltb n 0x8000 then pos n else negsuc (0xFFFF - n)

abbrev pub signed32 : ℕ → ℤ
signed32 n = if ltb n 0x80000000 then pos n else negsuc (0xFFFFFFFF - n)

-- The two's complement of a signed field, and the range that `>i` accepts.
abbrev pub bits32 : ℤ → ℕ
bits32 (pos n) = n
bits32 (negsuc n) = 0xFFFFFFFF - n

abbrev pub in_i32 : ℤ → Bool
in_i32 (pos n) = ltb n 0x80000000
in_i32 (negsuc n) = ltb n 0x80000000
