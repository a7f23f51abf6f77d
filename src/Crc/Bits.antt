-- ===== src/Crc/Bits.antt =====
-- Exclusive or at variables: its lowest digit, its laws, and its reduction modulo a power of two.
use Prim.Native.Nat.{differ, digits, bit_xor-bitwise}
use mathlib.Core.WellFounded
use native.Mathlib.Nat.{pow-suc, one-le-pow, mod-lt, mod-eq_of_lt}
use mowgli_lora_link.Prelude.{
  ℕ, zero, suc, ◌+◌, ◌*◌, ◌/◌, ◌%◌, ◌^◌, ◌≤◌, ◌<◌, bit_xor, ◌≡◌, refl, ◌∙◌, ap, arith, lt_wf,
}

-- The digit recursion behind `bit_xor`, whose fuel does not matter once it is enough.
abbrev xor_digits : ℕ → ℕ → ℕ → ℕ
xor_digits n a b = digits (λ y. y) differ n a b

xor_digits_fuel : (m n a b : ℕ) → a ≤ m → a ≤ n → xor_digits m a b ≡ xor_digits n a b
xor_digits_fuel zero zero a b p q = refl
xor_digits_fuel zero (suc n) zero b p q = refl
xor_digits_fuel zero (suc n) (suc a) b p q = absurd (omega arith)
xor_digits_fuel (suc m) zero zero b p q = refl
xor_digits_fuel (suc m) zero (suc a) b p q = absurd (omega arith)
xor_digits_fuel (suc m) (suc n) zero b p q = refl
xor_digits_fuel (suc m) (suc n) (suc a) b p q =
    rw (xor_digits_fuel m n (suc a / 2) (b / 2) (omega arith) (omega arith))

zero-bit_xor : (b : ℕ) → bit_xor 0 b ≡ b
zero-bit_xor b = bit_xor-bitwise 0 b

differ_bits : (x y : ℕ) → x < 2 → y < 2 → differ x y ≡ (x + y) % 2
differ_bits zero zero p q = refl
differ_bits zero (suc zero) p q = refl
differ_bits (suc zero) zero p q = refl
differ_bits (suc zero) (suc zero) p q = refl
differ_bits (suc (suc x)) y p q = absurd (omega arith)
differ_bits x (suc (suc y)) p q = absurd (omega arith)

pub bit_xor_step : (a b : ℕ) → bit_xor a b ≡ bit_xor (a / 2) (b / 2) * 2 + (a + b) % 2
bit_xor_step zero b = omega (arith, zero-bit_xor b, zero-bit_xor (b / 2))
bit_xor_step (suc a) b = omega (
  arith,
  bit_xor-bitwise (suc a) b,
  bit_xor-bitwise (suc a / 2) (b / 2),
  xor_digits_fuel a (suc a / 2) (suc a / 2) (b / 2) (omega arith) (omega arith),
  differ_bits (suc a % 2) (b % 2) (omega arith) (omega arith),
)

-- Exclusive or with the same number twice gives the other number back.
pub bit_xor_cancel : (a b : ℕ) → bit_xor a (bit_xor a b) ≡ b
bit_xor_cancel a =
    WellFounded.induction lt_wf {C = λ x. (b : ℕ) → bit_xor x (bit_xor x b) ≡ b} a step
  where
    step :
        (n : ℕ)
        → ((m : ℕ) → m < n → (b : ℕ) → bit_xor m (bit_xor m b) ≡ b)
        → (b : ℕ) → bit_xor n (bit_xor n b) ≡ b
    step zero ih b = zero-bit_xor (bit_xor 0 b) ∙ zero-bit_xor b
    step (suc n) ih b =
        let low : bit_xor (suc n) b / 2 ≡ bit_xor (suc n / 2) (b / 2) =
          omega (arith, bit_xor_step (suc n) b) in
        omega (
          arith,
          bit_xor_step (suc n) (bit_xor (suc n) b),
          bit_xor_step (suc n) b,
          ap (λ x. bit_xor (suc n / 2) x) low,
          ih (suc n / 2) (omega arith) (b / 2),
        )

bit_xor-zero : (a : ℕ) → bit_xor a 0 ≡ a
bit_xor-zero a = WellFounded.induction lt_wf {C = λ x. bit_xor x 0 ≡ x} a step
  where
    step : (n : ℕ) → ((m : ℕ) → m < n → bit_xor m 0 ≡ m) → bit_xor n 0 ≡ n
    step zero ih = refl
    step (suc n) ih = omega (arith, bit_xor_step (suc n) 0, ih (suc n / 2) (omega arith))

pub bit_xor_comm : (a b : ℕ) → bit_xor a b ≡ bit_xor b a
bit_xor_comm a = WellFounded.induction lt_wf {C = λ x. (b : ℕ) → bit_xor x b ≡ bit_xor b x} a step
  where
    step :
        (n : ℕ)
        → ((m : ℕ) → m < n → (b : ℕ) → bit_xor m b ≡ bit_xor b m)
        → (b : ℕ) → bit_xor n b ≡ bit_xor b n
    step zero ih b = omega (arith, zero-bit_xor b, bit_xor-zero b)
    step (suc n) ih b = omega (
      arith,
      bit_xor_step (suc n) b,
      bit_xor_step b (suc n),
      ih (suc n / 2) (omega arith) (b / 2),
    )

-- A remainder by twice P, one digit at a time.
double_mod : (x p : ℕ) → 0 < p → x % (2 * p) ≡ x / 2 % p * 2 + x % 2
double_mod x p h = grind arith

-- One digit more of `bit_xor_mod`, at a modulus p.
bit_xor_mod_double :
    (p a b : ℕ)
    → 0 < p
    → bit_xor (a / 2) (b / 2) % p ≡ bit_xor (a / 2 % p) (b / 2 % p)
    → bit_xor a b % (2 * p) ≡ bit_xor (a % (2 * p)) (b % (2 * p))
bit_xor_mod_double p a b h ih =
    let half_a : a % (2 * p) / 2 ≡ a / 2 % p = omega (arith, double_mod a p h) in
    let half_b : b % (2 * p) / 2 ≡ b / 2 % p = omega (arith, double_mod b p h) in
    let half_xor : bit_xor a b / 2 ≡ bit_xor (a / 2) (b / 2) = omega (arith, bit_xor_step a b) in
    let right : bit_xor (a % (2 * p) / 2) (b % (2 * p) / 2) ≡ bit_xor (a / 2 % p) (b / 2 % p) =
      rw (half_a, half_b) in
    omega (
      arith,
      ap (λ x. x % p) half_xor,
      right,
      ih,
      double_mod (bit_xor a b) p h,
      double_mod a p h,
      double_mod b p h,
      bit_xor_step a b,
      bit_xor_step (a % (2 * p)) (b % (2 * p)),
    )

-- The lowest k digits of the result come from the lowest k digits of the arguments.
pub bit_xor_mod : (k a b : ℕ) → bit_xor a b % 2 ^ k ≡ bit_xor (a % 2 ^ k) (b % 2 ^ k)
bit_xor_mod zero a b =
    let low : (x : ℕ) → x % 1 ≡ 0 = λ x. omega arith in rw (low a, low b, low (bit_xor a b))
bit_xor_mod (suc k) a b =
    let double : 2 ^ suc k ≡ 2 * 2 ^ k = omega (arith, pow-suc 2 k) in
    rw double (
      bit_xor_mod_double (2 ^ k) a b (one-le-pow k 2 (omega arith)) (bit_xor_mod k (a / 2) (b / 2)))

-- The result has no more digits than the arguments.
pub bit_xor_lt : (k a b : ℕ) → a < 2 ^ k → b < 2 ^ k → bit_xor a b < 2 ^ k
bit_xor_lt k a b p q =
    let same : bit_xor a b % 2 ^ k ≡ bit_xor a b =
      bit_xor_mod k a b ∙ rw (mod-eq_of_lt p, mod-eq_of_lt q) in
    omega (arith, same, mod-lt (bit_xor a b) (one-le-pow k 2 (omega arith)))
