-- ===== src/Protocol/Cobs/Blocks.antt =====
-- What `cobs_encode` writes, block by block: its bytes and its length.
use mathlib.Core.List.{foldl}
use mowgli_lora_link.Prelude.{
  ℕ, zero, suc, ◌+◌, ◌*◌, ◌/◌, ◌≤◌, ◌<◌, ◌≡◌, refl, ap, ◌∙◌, arith, List, [], ◌∷◌, ◌++◌,
  append_assoc, length, length-append, set_middle, All, All-append, false, ◌==◌, if◌then◌else◌,
  Bool-cases, suc-==-zero, inl, inr,
}
use mowgli_lora_link.Crc.{IsByte}
use mowgli_lora_link.Protocol.Cobs.{Encoder, close_block, encode_byte, finish, cobs_encode}

-- The encoding of the bytes still to come, after the block that is open.
unfoldable pub blocks : List ℕ → List ℕ → List ℕ
blocks block [] = suc (length block) ∷ block
blocks block (b ∷ bs) =
    if b == 0
    then (suc (length block) ∷ block) ++ blocks [] bs
    else (if suc (suc (length block)) == 0xFF
        then (0xFF ∷ (block ++ (b ∷ []))) ++ blocks [] bs
        else blocks (block ++ (b ∷ [])) bs)

-- The encoder's state once the blocks in `done` are closed and `block` is open.
opened : List ℕ → List ℕ → Encoder
opened done block = record {
  out = done ++ (0 ∷ block);
  code = suc (length block);
  code_pos = length done;
}

close_block_lem :
    (done block : List ℕ) (c : ℕ)
    → close_block (record { out = done ++ (0 ∷ block); code = c; code_pos = length done })
      ≡ opened (done ++ (c ∷ block)) []
unfolding close_block opened
close_block_lem done block c = ground (
  arith,
  set_middle done block 0 c,
  length-append done (0 ∷ block),
  length-append done (c ∷ block),
)

encode_byte_zero :
    (done block : List ℕ)
    → encode_byte (opened done block) 0 ≡ opened (done ++ (suc (length block) ∷ block)) []
unfolding encode_byte opened
encode_byte_zero done block = close_block_lem done block (suc (length block))

-- A byte that is not zero joins the block, which is closed once it holds 254 bytes.
encode_byte_nonzero :
    (done block : List ℕ) (b : ℕ)
    → (b == 0) ≡ false
    → encode_byte (opened done block) b ≡ (
        if suc (suc (length block)) == 0xFF
        then opened (done ++ (0xFF ∷ (block ++ (b ∷ [])))) []
        else opened done (block ++ (b ∷ [])))
unfolding encode_byte opened
encode_byte_nonzero done block b ne = ground (
  arith,
  append_assoc done (0 ∷ block) (b ∷ []),
  length-append block (b ∷ []),
  close_block_lem done (block ++ (b ∷ [])) 0xFF,
)

encode_loop :
    (bs done block : List ℕ)
    → finish (foldl encode_byte (opened done block) bs) ≡ done ++ blocks block bs
unfolding blocks
encode_loop [] done block = unfold finish opened in set_middle done block 0 (suc (length block))
encode_loop (zero ∷ bs) done block =
    let closed = suc (length block) ∷ block in
    rw (encode_byte_zero done block, encode_loop bs (done ++ closed) [])
      (append_assoc done closed (blocks [] bs))
encode_loop (suc b ∷ bs) done block = elim (Bool-cases (suc (suc (length block)) == 0xFF)) [
  | inl full ↦
      let closed : List ℕ = 0xFF ∷ (block ++ (suc b ∷ [])) in
      rw (encode_byte_nonzero done block (suc b) (suc-==-zero b), suc-==-zero b, full)
        (encode_loop bs (done ++ closed) [] ∙ append_assoc done closed (blocks [] bs))
  | inr more ↦
      rw (encode_byte_nonzero done block (suc b) (suc-==-zero b), suc-==-zero b, more)
        (encode_loop bs done (block ++ (suc b ∷ [])))
]

pub cobs_encode-blocks : (bs : List ℕ) → cobs_encode bs ≡ blocks [] bs
unfolding cobs_encode
cobs_encode-blocks [] = unfold blocks in refl
cobs_encode-blocks (b ∷ bs) = unfold opened in encode_loop (b ∷ bs) [] []

-- A byte that the framing can carry between two delimiters.
abbrev pub IsFrameByte : ℕ → Type 0
IsFrameByte b = (0 < b) × (b < 256)

-- What holds of every code and of every byte but zero holds of what is written.
blocks_all :
    (P : ℕ → Type 0) (codes : (n : ℕ) → n ≤ 254 → P (suc n)) (bs block : List ℕ)
    → All (λ b. 0 < b → P b) bs
    → All P block
    → length block ≤ 253
    → All P (blocks block bs)
unfolding blocks
blocks_all P codes [] block h hb short = (codes (length block) (omega arith), hb)
blocks_all P codes (zero ∷ bs) block h hb short = (
  codes (length block) (omega arith),
  All-append P block (blocks [] bs) hb (blocks_all P codes bs [] h.1 tt (omega arith)),
)
blocks_all P codes (suc b ∷ bs) block h hb short =
    let longer : All P (block ++ (suc b ∷ [])) =
      All-append P block (suc b ∷ []) hb (h.0 (omega arith), tt) in
    elim (Bool-cases (suc (suc (length block)) == 0xFF)) [
      | inl full ↦
          rw (suc-==-zero b, full)
            (
              codes 254 (omega arith),
              All-append P (block ++ (suc b ∷ [])) (blocks [] bs) longer
                  (blocks_all P codes bs [] h.1 tt (omega arith)),
            )
      | inr more ↦
          rw (suc-==-zero b, more)
            (blocks_all P codes bs (block ++ (suc b ∷ [])) h.1 longer
              (ground (arith, length-append block (suc b ∷ []))))
    ]

frame_bytes : (bs : List ℕ) → All IsByte bs → All (λ b. 0 < b → IsFrameByte b) bs
frame_bytes [] h = tt
frame_bytes (b ∷ bs) h = (λ positive. (positive, h.0), frame_bytes bs h.1)

-- The encoding of bytes holds no zero byte, so a zero byte can end it.
pub cobs_encode-IsFrameByte : (bs : List ℕ) → All IsByte bs → All IsFrameByte (cobs_encode bs)
cobs_encode-IsFrameByte bs h = rw (cobs_encode-blocks bs) (
    blocks_all IsFrameByte (λ n small. (omega arith, omega arith)) bs [] (frame_bytes bs h) tt
      (omega arith))

positive_bytes : (bs : List ℕ) → All (λ b. 0 < b → 0 < b) bs
positive_bytes [] = tt
positive_bytes (b ∷ bs) = (λ positive. positive, positive_bytes bs)

-- No zero byte is written, whatever the numbers are.
pub cobs_encode-positive : (bs : List ℕ) → All (λ b. 0 < b) (cobs_encode bs)
cobs_encode-positive bs =
    rw (cobs_encode-blocks bs)
      (blocks_all (λ b. 0 < b) (λ n small. omega arith) bs [] (positive_bytes bs) tt (omega arith))

blocks_overhead :
    (bs block : List ℕ)
    → length block ≤ 253
    → 254 * length (blocks block bs)
      ≤ 254 * (length block + length bs + 1) + (length block + length bs)
unfolding blocks
blocks_overhead [] block h = omega arith
blocks_overhead (zero ∷ bs) block h =
    omega (arith, length-append block (blocks [] bs), blocks_overhead bs [] (omega arith))
blocks_overhead (suc b ∷ bs) block h = ground (
  arith,
  length-append block (suc b ∷ []),
  length-append (block ++ (suc b ∷ [])) (blocks [] bs),
  blocks_overhead bs [] (omega arith),
  blocks_overhead bs (block ++ (suc b ∷ [])),
)

-- The encoding of n bytes has at most n + 1 + n / 254 bytes.
pub length-cobs_encode : (bs : List ℕ) → length (cobs_encode bs) ≤ length bs + 1 + length bs / 254
length-cobs_encode bs =
    omega (arith, ap length (cobs_encode-blocks bs), blocks_overhead bs [] (omega arith))

blocks_nonempty : (bs block : List ℕ) → 0 < length (blocks block bs)
unfolding blocks
blocks_nonempty [] block = omega arith
blocks_nonempty (zero ∷ bs) block = omega arith
blocks_nonempty (suc b ∷ bs) block = elim (Bool-cases (suc (suc (length block)) == 0xFF)) [
  | inl full ↦ rw (suc-==-zero b, full) (omega arith)
  | inr more ↦ rw (suc-==-zero b, more) (blocks_nonempty bs (block ++ (suc b ∷ [])))
]

pub cobs_encode_nonempty : (bs : List ℕ) → 0 < length (cobs_encode bs)
cobs_encode_nonempty bs = rw (cobs_encode-blocks bs) (blocks_nonempty bs [])
