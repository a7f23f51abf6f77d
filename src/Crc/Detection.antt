-- ===== src/Crc/Detection.antt =====
-- The ranges of the checksums, and inputs that differ in one byte.
use mathlib.Core.List.{foldl}
use mowgli_lora_link.Prelude.{
  ℕ, zero, suc, ◌*◌, ◌%◌, ◌<◌, bit_xor, ◌≡◌, ◌≢◌, ◌∙◌, ap, arith, List, [], ◌∷◌, ◌++◌, All,
}
use mowgli_lora_link.Crc.{
  IsByte, repeat, crc16_round, crc16_byte, crc16, crc24q_round, crc24q_byte, crc24q,
}
use mowgli_lora_link.Crc.Bits.{bit_xor_step, bit_xor_cancel, bit_xor_comm, bit_xor_mod, bit_xor_lt}

-- A number is recovered from its exclusive or with a known one.
bit_xor_injective_left : (k a b : ℕ) → bit_xor a k ≡ bit_xor b k → a ≡ b
bit_xor_injective_left k a b e = omega (
  arith,
  ap (λ x. bit_xor k x) (bit_xor_comm k a ∙ e ∙ bit_xor_comm b k),
  bit_xor_cancel k a,
  bit_xor_cancel k b,
)

bit_xor_injective_right : (k a b : ℕ) → bit_xor k a ≡ bit_xor k b → a ≡ b
bit_xor_injective_right k a b e =
    omega (arith, ap (λ x. bit_xor k x) e, bit_xor_cancel k a, bit_xor_cancel k b)

-- A round of a register with an odd polynomial: its lowest digit tells which branch it took.
crc16_round_lt : (c : ℕ) → crc16_round c < 0x10000
unfolding crc16_round
crc16_round_lt c = ground arith

crc16_round_injective :
    (c d : ℕ) → c < 0x10000 → d < 0x10000 → crc16_round c ≡ crc16_round d → c ≡ d
unfolding crc16_round
crc16_round_injective c d hc hd e = ground (
  arith,
  bit_xor_mod 16 (c * 2) 0x1021,
  bit_xor_mod 16 (d * 2) 0x1021,
  bit_xor_step (c * 2) 0x1021,
  bit_xor_step (d * 2) 0x1021,
  bit_xor_injective_left 0x1021 (c * 2 % 0x10000) (d * 2 % 0x10000),
)

crc24q_round_lt : (c : ℕ) → crc24q_round c < 0x1000000
unfolding crc24q_round
crc24q_round_lt c = ground arith

crc24q_round_injective :
    (c d : ℕ) → c < 0x1000000 → d < 0x1000000 → crc24q_round c ≡ crc24q_round d → c ≡ d
unfolding crc24q_round
crc24q_round_injective c d hc hd e = ground (
  arith,
  bit_xor_mod 24 (c * 2) 0x1864CFB,
  bit_xor_mod 24 (d * 2) 0x1864CFB,
  bit_xor_step (c * 2) 0x1864CFB,
  bit_xor_step (d * 2) 0x1864CFB,
  bit_xor_injective_left 0x864CFB (c * 2 % 0x1000000) (d * 2 % 0x1000000),
)

-- What holds of one round holds of eight.
module _ (m : ℕ) (round : ℕ → ℕ) (round_lt : (c : ℕ) → round c < m)
    (injective : (c d : ℕ) → c < m → d < m → round c ≡ round d → c ≡ d) where
  repeat_lt : (n c : ℕ) → c < m → repeat n round c < m
  unfolding repeat
  repeat_lt zero c h = h
  repeat_lt (suc n) c h = repeat_lt n (round c) (round_lt c)

  repeat_injective : (n c d : ℕ) → c < m → d < m → repeat n round c ≡ repeat n round d → c ≡ d
  unfolding repeat
  repeat_injective zero c d hc hd e = e
  repeat_injective (suc n) c d hc hd e =
      injective c d hc hd (repeat_injective n (round c) (round d) (round_lt c) (round_lt d) e)

-- A checksum register below m, and the step of one byte: from equal bytes it goes to equal states
-- only from equal states, and from one state only by equal bytes.
record IsRegister (m : ℕ) (step : ℕ → ℕ → ℕ) : Type 0 where
  below : (c b : ℕ) → c < m → IsByte b → step c b < m
  by_state : (c d b : ℕ) → c < m → d < m → IsByte b → step c b ≡ step d b → c ≡ d
  by_byte : (c b b' : ℕ) → c < m → IsByte b → IsByte b' → step c b ≡ step c b' → b ≡ b'

crc16_byte-IsRegister : IsRegister 0x10000 crc16_byte
unfolding crc16_byte
crc16_byte-IsRegister = record {
  below = λ c b hc hb.
      repeat_lt 0x10000 crc16_round crc16_round_lt crc16_round_injective 8 _ (mixed c b hc hb);
  by_state = λ c d b hc hd hb e.
      bit_xor_injective_left (b * 256) c d (unrolled _ _ (mixed c b hc hb) (mixed d b hd hb) e);
  by_byte = λ c b b' hc hb hb' e.
      let same : b * 256 ≡ b' * 256 =
        bit_xor_injective_right c (b * 256) (b' * 256)
          (unrolled _ _ (mixed c b hc hb) (mixed c b' hc hb') e) in
      omega (arith, same);
}
  where
    mixed : (c b : ℕ) → c < 0x10000 → b < 256 → bit_xor c (b * 256) < 0x10000
    mixed c b hc hb = bit_xor_lt 16 c (b * 256) hc (omega arith)

    unrolled :
        (c d : ℕ)
        → c < 0x10000
        → d < 0x10000
        → repeat 8 crc16_round c ≡ repeat 8 crc16_round d
        → c ≡ d
    unrolled = repeat_injective 0x10000 crc16_round crc16_round_lt crc16_round_injective 8

crc24q_byte-IsRegister : IsRegister 0x1000000 crc24q_byte
unfolding crc24q_byte
crc24q_byte-IsRegister = record {
  below = λ c b hc hb.
      repeat_lt 0x1000000 crc24q_round crc24q_round_lt crc24q_round_injective 8 _ (mixed c b hc hb);
  by_state = λ c d b hc hd hb e.
      bit_xor_injective_left (b * 65536) c d (unrolled _ _ (mixed c b hc hb) (mixed d b hd hb) e);
  by_byte = λ c b b' hc hb hb' e.
      let same : b * 65536 ≡ b' * 65536 =
        bit_xor_injective_right c (b * 65536) (b' * 65536)
          (unrolled _ _ (mixed c b hc hb) (mixed c b' hc hb') e) in
      omega (arith, same);
}
  where
    mixed : (c b : ℕ) → c < 0x1000000 → b < 256 → bit_xor c (b * 65536) < 0x1000000
    mixed c b hc hb = bit_xor_lt 24 c (b * 65536) hc (omega arith)

    unrolled :
        (c d : ℕ)
        → c < 0x1000000
        → d < 0x1000000
        → repeat 8 crc24q_round c ≡ repeat 8 crc24q_round d
        → c ≡ d
    unrolled = repeat_injective 0x1000000 crc24q_round crc24q_round_lt crc24q_round_injective 8

module _ (m : ℕ) (step : ℕ → ℕ → ℕ) (register : IsRegister m step) where
  foldl_lt : (c : ℕ) (xs : List ℕ) → c < m → All IsByte xs → foldl step c xs < m
  foldl_lt c [] hc h = hc
  foldl_lt c (x ∷ xs) hc h = foldl_lt (step c x) xs (register.below c x hc h.0) h.1

  foldl_injective :
      (c d : ℕ) (xs : List ℕ)
      → c < m
      → d < m
      → All IsByte xs
      → foldl step c xs ≡ foldl step d xs
      → c ≡ d
  foldl_injective c d [] hc hd h e = e
  foldl_injective c d (x ∷ xs) hc hd h e = register.by_state c d x hc hd h.0 (
      foldl_injective (step c x) (step d x) xs (register.below c x hc h.0)
        (register.below d x hd h.0) h.1 e)

  -- Two inputs that differ in one byte leave the register in different states.
  one_byte :
      (c : ℕ) (xs ys : List ℕ) (b b' : ℕ)
      → c < m
      → All IsByte (xs ++ (b ∷ ys))
      → IsByte b'
      → foldl step c (xs ++ (b ∷ ys)) ≡ foldl step c (xs ++ (b' ∷ ys))
      → b ≡ b'
  one_byte c [] ys b b' hc h hb' e = register.by_byte c b b' hc h.0 hb' (
      foldl_injective (step c b) (step c b') ys (register.below c b hc h.0)
        (register.below c b' hc hb') h.1 e)
  one_byte c (x ∷ xs) ys b b' hc h hb' e =
      one_byte (step c x) xs ys b b' (register.below c x hc h.0) h.1 hb' e

pub crc16_lt : (xs : List ℕ) → All IsByte xs → crc16 xs < 0x10000
unfolding crc16
crc16_lt xs h = foldl_lt 0x10000 crc16_byte crc16_byte-IsRegister 0xFFFF xs (omega arith) h

pub crc24q_lt : (xs : List ℕ) → All IsByte xs → crc24q xs < 0x1000000
unfolding crc24q
crc24q_lt xs h = foldl_lt 0x1000000 crc24q_byte crc24q_byte-IsRegister 0 xs (omega arith) h

-- Two byte sequences that are equal but for one byte, which differs, have different `crc16` values.
pub crc16_detects_byte :
    (xs ys : List ℕ) (b b' : ℕ)
    → All IsByte (xs ++ (b ∷ ys))
    → IsByte b'
    → b ≢ b'
    → crc16 (xs ++ (b ∷ ys)) ≢ crc16 (xs ++ (b' ∷ ys))
unfolding crc16
crc16_detects_byte xs ys b b' h hb' ne = λ e.
    ne (one_byte 0x10000 crc16_byte crc16_byte-IsRegister 0xFFFF xs ys b b' (omega arith) h hb' e)

-- Two byte sequences that are equal but for one byte, which differs, have different `crc24q` values.
pub crc24q_detects_byte :
    (xs ys : List ℕ) (b b' : ℕ)
    → All IsByte (xs ++ (b ∷ ys))
    → IsByte b'
    → b ≢ b'
    → crc24q (xs ++ (b ∷ ys)) ≢ crc24q (xs ++ (b' ∷ ys))
unfolding crc24q
crc24q_detects_byte xs ys b b' h hb' ne = λ e.
    ne (one_byte 0x1000000 crc24q_byte crc24q_byte-IsRegister 0 xs ys b b' (omega arith) h hb' e)
