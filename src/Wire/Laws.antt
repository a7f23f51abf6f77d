-- ===== src/Wire/Laws.antt =====
-- Fields read from where they were written.
use mowgli_lora_link.Prelude.{
  ℕ, zero, suc, ◌+◌, ◌-◌, ◌*◌, ◌/◌, ◌%◌, ◌<◌, ◌≡◌, arith, List, [], ◌∷◌, ◌++◌, length,
  length-append, get_or,
}
use mowgli_lora_link.Wire.{be16, be24, be32, u16_at, u24_at}

pub get_or-append_right :
    (xs ys : List ℕ) (i j : ℕ) → j ≡ length xs + i → get_or (xs ++ ys) j 0 ≡ get_or ys i 0
get_or-append_right [] ys i j h = let e : j ≡ i = omega arith in rw e
get_or-append_right (x ∷ xs) ys i zero h = absurd (omega arith)
get_or-append_right (x ∷ xs) ys i (suc j) h = get_or-append_right xs ys i j (omega arith)

-- The two bytes of a trailing checksum.
pub u16_at_end : (xs : List ℕ) (c : ℕ) → u16_at (xs ++ be16 c) (length (xs ++ be16 c) - 2) ≡ c
u16_at_end xs c =
    let size = length-append xs (be16 c) in
    omega (
      arith,
      get_or-append_right xs (be16 c) 0 (length (xs ++ be16 c) - 2) (omega arith),
      get_or-append_right xs (be16 c) 1 (length (xs ++ be16 c) - 2 + 1) (omega arith),
    )

pub be16_value : (n : ℕ) → n / 256 * 256 + n % 256 ≡ n
be16_value n = omega arith

pub be32_value :
    (n : ℕ) → n / 16777216 * 16777216 + n / 65536 % 256 * 65536 + n / 256 % 256 * 256 + n % 256 ≡ n
be32_value n = omega arith

-- The bytes of a field, written again.
pub be16_bytes : (a b : ℕ) → a < 256 → b < 256 → be16 (a * 256 + b) ≡ a ∷ b ∷ []
be16_bytes a b ha hb =
    let e : (a * 256 + b) / 256 ≡ a = omega arith in
    let e' : (a * 256 + b) % 256 ≡ b = omega arith in rw (e, e')

pub be32_bytes :
    (a b c d : ℕ)
    → a < 256
    → b < 256
    → c < 256
    → d < 256
    → be32 (a * 16777216 + b * 65536 + c * 256 + d) ≡ a ∷ b ∷ c ∷ d ∷ []
be32_bytes a b c d ha hb hc hd =
    let n = a * 16777216 + b * 65536 + c * 256 + d in
    let e : n / 16777216 ≡ a = omega arith in
    let e' : n / 65536 % 256 ≡ b = omega arith in
    let e'' : n / 256 % 256 ≡ c = omega arith in
    let e''' : n % 256 ≡ d = omega arith in λ i. e i ∷ e' i ∷ e'' i ∷ e''' i ∷ []

pub u24_at_end : (xs : List ℕ) (c : ℕ) → u24_at (xs ++ be24 c) (length (xs ++ be24 c) - 3) ≡ c
u24_at_end xs c =
    let size = length-append xs (be24 c) in
    omega (
      arith,
      get_or-append_right xs (be24 c) 0 (length (xs ++ be24 c) - 3) (omega arith),
      get_or-append_right xs (be24 c) 1 (length (xs ++ be24 c) - 3 + 1) (omega arith),
      get_or-append_right xs (be24 c) 2 (length (xs ++ be24 c) - 3 + 2) (omega arith),
    )
