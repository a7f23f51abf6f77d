-- ===== src/Protocol/Cobs/RoundTrip.antt =====
-- `cobs_decode` after `cobs_encode`, and the end of its loop.
use mowgli_lora_link.Prelude.{
  ℕ, zero, suc, ◌+◌, ◌-◌, ◌≤◌, ◌<◌, ◌≡◌, ◌≢◌, refl, sym, ap, ◌∙◌, arith, List, [], ◌∷◌, ◌++◌,
  append_assoc, append-nil, length, length-append, length-drop, take, drop, take_left, drop_left,
  take_of_length-le, drop_of_length-le, true, false, not, ◌&&◌, ◌==◌, ltb, if◌then◌else◌,
  Bool-cases, suc-==-zero, inl, inr, ok, err, out_of_fuel,
}
use mowgli_lora_link.Protocol.Cobs.{decode_loop, cobs_encode, cobs_decode}
use mowgli_lora_link.Protocol.Cobs.Blocks.{blocks, cobs_encode-blocks}

-- One round of the loop on a whole block.
decode_block :
    (fuel : ℕ) (block rest out : List ℕ)
    → decode_loop (suc fuel) (suc (length block) ∷ (block ++ rest)) out
      ≡ decode_loop fuel rest (
          out
          ++ block
          ++ (if not (suc (length block) == 0xFF) && ltb 0 (length rest) then 0 ∷ [] else []))
unfolding decode_loop
decode_block fuel block rest out =
    let whole : suc (length block) - 1 ≡ length block = omega arith in
    let fits : ltb (length (suc (length block) ∷ (block ++ rest))) (suc (length block)) ≡ false =
      ground (arith, length-append block rest) in
    rw (whole, suc-==-zero (length block), fits, take_left block rest, drop_left block rest)

blocks_nonempty : (bs block : List ℕ) → ltb 0 (length (blocks block bs)) ≡ true
unfolding blocks
blocks_nonempty [] block = ground arith
blocks_nonempty (zero ∷ bs) block = ground arith
blocks_nonempty (suc b ∷ bs) block = elim (Bool-cases (suc (suc (length block)) == 0xFF)) [
  | inl full ↦ rw (suc-==-zero b, full) (ground arith)
  | inr more ↦ rw (suc-==-zero b, more) (blocks_nonempty bs (block ++ (suc b ∷ [])))
]

-- The last block ends the loop, and no zero is added behind it.
decode_last :
    (fuel : ℕ) (block out : List ℕ)
    → decode_loop (suc fuel) (suc (length block) ∷ block) out ≡ ok (out ++ block)
unfolding decode_loop
decode_last fuel block out =
    let whole : suc (length block) - 1 ≡ length block = omega arith in
    let fits : ltb (length (suc (length block) ∷ block)) (suc (length block)) ≡ false =
      ground arith in
    let all : take (length block) block ≡ block = take_of_length-le _ block (omega arith) in
    let rest : drop (length block) block ≡ [] = drop_of_length-le _ block (omega arith) in
    let end : (not (suc (length block) == 0xFF) && false) ≡ false = ground arith in
    rw (whole, suc-==-zero (length block), fits, all, rest, end) (ap ok (append-nil (out ++ block)))

-- A block of 254 bytes gives no zero.
decode_full :
    (fuel : ℕ) (block rest out : List ℕ) (b : ℕ)
    → (suc (suc (length block)) == 0xFF) ≡ true
    → decode_loop (suc fuel) (0xFF ∷ (block ++ (b ∷ []) ++ rest)) out
      ≡ decode_loop fuel rest (out ++ (block ++ (b ∷ [])))
decode_full fuel block rest out b full =
    let size : suc (length (block ++ (b ∷ []))) ≡ 0xFF =
      ground (arith, length-append block (b ∷ [])) in
    rw size at (decode_block fuel (block ++ (b ∷ [])) rest out)
    ∙ ap (decode_loop fuel rest) (append-nil (out ++ (block ++ (b ∷ []))))

-- The loop reads back the block that is open and then the bytes that follow it.
decode_blocks :
    (bs block out : List ℕ) (fuel : ℕ)
    → length block ≤ 253
    → length bs < fuel
    → decode_loop fuel (blocks block bs) out ≡ ok (out ++ (block ++ bs))
unfolding blocks
decode_blocks bs block out zero short h = absurd (omega arith)
decode_blocks [] block out (suc fuel) short h =
    decode_last fuel block out ∙ ap (λ x. ok (out ++ x)) (sym (append-nil block))
decode_blocks (zero ∷ bs) block out (suc fuel) short h =
    let partial : (suc (length block) == 0xFF) ≡ false = ground arith in
    rw (decode_block fuel block (blocks [] bs) out, partial, blocks_nonempty bs [])
      (decode_blocks bs [] (out ++ block ++ (0 ∷ [])) fuel (omega arith) (omega arith)
        ∙ ap ok (append_assoc (out ++ block) (0 ∷ []) bs ∙ append_assoc out block (0 ∷ bs)))
decode_blocks (suc b ∷ bs) block out (suc fuel) short h =
    elim (Bool-cases (suc (suc (length block)) == 0xFF)) [
      | inl full ↦
          rw (suc-==-zero b, full)
            (decode_full fuel block (blocks [] bs) out (suc b) full
              ∙ decode_blocks bs [] (out ++ (block ++ (suc b ∷ []))) fuel (omega arith)
                  (omega arith)
              ∙ ap ok (
                  append_assoc out (block ++ (suc b ∷ [])) bs
                  ∙ ap (λ x. out ++ x) (append_assoc block (suc b ∷ []) bs)))
      | inr more ↦
          rw (suc-==-zero b, more)
            (decode_blocks bs (block ++ (suc b ∷ [])) out (suc fuel)
                (ground (arith, length-append block (suc b ∷ []))) (omega arith)
              ∙ ap (λ x. ok (out ++ x)) (append_assoc block (suc b ∷ []) bs))
    ]

cobs_decode_loop : (xs : List ℕ) → 0 < length xs → cobs_decode xs ≡ decode_loop (length xs) xs []
unfolding cobs_decode
cobs_decode_loop [] h = absurd (omega arith)
cobs_decode_loop (x ∷ xs) h = refl

blocks_longer : (bs block : List ℕ) → length block + length bs < length (blocks block bs)
unfolding blocks
blocks_longer [] block = omega arith
blocks_longer (zero ∷ bs) block =
    omega (arith, length-append block (blocks [] bs), blocks_longer bs [])
blocks_longer (suc b ∷ bs) block = ground (
  arith,
  length-append block (suc b ∷ []),
  length-append (block ++ (suc b ∷ [])) (blocks [] bs),
  blocks_longer bs [],
  blocks_longer bs (block ++ (suc b ∷ [])),
)

decode_whole : (bs : List ℕ) → cobs_decode (blocks [] bs) ≡ ok bs
decode_whole bs =
    cobs_decode_loop (blocks [] bs) (omega (arith, blocks_longer bs []))
    ∙ decode_blocks bs [] [] (length (blocks [] bs)) (omega arith)
        (omega (arith, blocks_longer bs []))

-- `cobs_decode` gives back the bytes that `cobs_encode` was given.
pub cobs_decode-cobs_encode : (bs : List ℕ) → cobs_decode (cobs_encode bs) ≡ ok bs
cobs_decode-cobs_encode bs = rw (cobs_encode-blocks bs) (decode_whole bs)

-- No input runs out of fuel.
decode_loop-ne-stuck :
    (fuel : ℕ) (xs out : List ℕ) → length xs ≤ fuel → decode_loop fuel xs out ≢ err out_of_fuel
unfolding decode_loop
decode_loop-ne-stuck fuel [] out h = λ e. cc
decode_loop-ne-stuck zero (c ∷ xs) out h = absurd (omega arith)
decode_loop-ne-stuck (suc fuel) (zero ∷ xs) out h = λ e. cc
decode_loop-ne-stuck (suc fuel) (suc n ∷ xs) out h = ground (
  arith,
  length-drop n xs,
  decode_loop-ne-stuck fuel (drop n xs) (
      out
      ++ take (suc n - 1) xs
      ++ (if not (suc n == 0xFF) && ltb 0 (length (drop n xs)) then 0 ∷ [] else [])),
)

-- The loop of `cobs_decode` ends on every input, with bytes or an exception, in at most as many rounds
-- as there are bytes.
pub cobs_decode-ne-stuck : (xs : List ℕ) → cobs_decode xs ≢ err out_of_fuel
unfolding cobs_decode
cobs_decode-ne-stuck [] = λ e. cc
cobs_decode-ne-stuck (b ∷ bs) = decode_loop-ne-stuck (length (b ∷ bs)) (b ∷ bs) [] (omega arith)
