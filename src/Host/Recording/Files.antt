-- ===== src/Host/Recording/Files.antt =====
-- What `_records` gives of a file that `main_record` has written, whole or cut short.
use mowgli_lora_link.Prelude.{
  ℕ, suc, ◌+◌, ◌-◌, ◌/◌, ◌%◌, ◌≤◌, ◌<◌, ◌≡◌, refl, ◌∙◌, ap, sym, arith, List, [], ◌∷◌, ◌++◌, length,
  length-append, take, append_assoc, append-nil, none, some, ok, value_error, take_left, drop_left,
  ltb, lt→ltb, if◌then◌else◌, Error, ◌==◌, true, false, Bool-cases, inl, inr, ltb→lt, length-take,
}
use mowgli_lora_link.Wire.{be16}
use mowgli_lora_link.Wire.Laws.{be16_value, be32_value}
use mowgli_lora_link.Host.Recording.{
  magic, Record, read_records, records, starts_with_magic, be64, pack, ends_with, timestamp_of,
}

-- The record fits the fields of its header.
pub record Fits (r : Record) : Type 0 where
  pub early : r.timestamp_ns < 18446744073709551616
  pub short : length r.raw < 65536

-- The bytes of a record, and of records one after the other.
pub entry : Record → List ℕ
entry r = be64 r.timestamp_ns ++ (be16 (length r.raw) ++ r.raw)

unfoldable pub entries : List Record → List ℕ
entries [] = []
entries (r ∷ rs) = entry r ++ entries rs

pub pack-ok : (r : Record) → Fits r → pack r ≡ ok (entry r)
unfolding pack entry
pack-ok r h = rw (lt→ltb _ _ h.early, lt→ltb _ _ h.short)

stamp_value : (n : ℕ) → timestamp_of (be64 n ++ []) ≡ n
stamp_value n = rw (be32_value (n / 4294967296), be32_value (n % 4294967296)) (omega arith)

read_entry :
    (fuel : ℕ) (r : Record) (more : List ℕ)
    → read_records (suc fuel) (entry r ++ more)
      ≡ record (read_records fuel more) { given = r ∷ (read_records fuel more).given }
unfolding read_records entry
read_entry fuel r more =
    let size = be16_value (length r.raw) in
    let full : (length r.raw == length r.raw) ≡ true = ground arith in
    rw (size, take_left r.raw more, drop_left r.raw more, full, stamp_value r.timestamp_ns) refl

read_entries :
    (fuel : ℕ) (rs : List Record) (more : List ℕ)
    → read_records (length rs + fuel) (entries rs ++ more)
      ≡ record (read_records fuel more) { given = rs ++ (read_records fuel more).given }
unfolding entries
read_entries fuel [] more = let e : 0 + fuel ≡ fuel = omega arith in rw e refl
read_entries fuel (r ∷ rs) more =
    let e : suc (length rs) + fuel ≡ suc (length rs + fuel) = omega arith in
    rw
      (
        e,
        append_assoc (entry r) (entries rs) more,
        read_entry (length rs + fuel) r (entries rs ++ more),
        read_entries fuel rs more,
      )
      refl

pub length-entry : (r : Record) → length (entry r) ≡ 10 + length r.raw
unfolding entry
length-entry r = omega arith

pub entries-append : (rs rs' : List Record) → entries (rs ++ rs') ≡ entries rs ++ entries rs'
unfolding entries
entries-append [] rs' = refl
entries-append (r ∷ rs) rs' =
    rw (append_assoc (entry r) (entries rs) (entries rs'), entries-append rs rs') refl

length-entries-ge : (rs : List Record) → length rs ≤ length (entries rs)
unfolding entries
length-entries-ge [] = omega arith
length-entries-ge (r ∷ rs) =
    omega (arith, length-append (entry r) (entries rs), length-entry r, length-entries-ge rs)

records_magic :
    (bytes : List ℕ) → records (magic ++ bytes) ≡ read_records (suc (length (magic ++ bytes))) bytes
unfolding records starts_with_magic
records_magic bytes = refl

-- Behind the records of the file, the rest of its bytes is read with fuel that is left.
records-append :
    (rs : List Record) (more : List ℕ)
    → (fuel : ℕ) × (records (magic ++ (entries rs ++ more))
        ≡ record (read_records (suc fuel) more) {
          given = rs ++ (read_records (suc fuel) more).given;
        })
records-append rs more =
    let bytes = entries rs ++ more in
    let fuel = length (magic ++ bytes) - length rs in
    let enough : suc (length (magic ++ bytes)) ≡ length rs + suc fuel =
      omega
        (arith, length-append magic bytes, length-append (entries rs) more, length-entries-ge rs) in
    (
      fuel,
      records_magic bytes ∙ ap (λ n. read_records n bytes) enough ∙ read_entries (suc fuel) rs more,
    )

read_nothing : (fuel : ℕ) → read_records (suc fuel) [] ≡ ends_with none
unfolding read_records
read_nothing fuel = refl

-- The exception of a record that is cut short.
abbrev pub cut_error : ℕ → Error
cut_error n =
    if ltb n 10
    then value_error "truncated recording header"
    else value_error "truncated recording frame"

cut_header :
    (fuel n : ℕ) (r : Record)
    → 0 < n
    → n < 10
    → read_records (suc fuel) (take n (entry r)) ≡ ends_with (some (cut_error n))
unfolding read_records
cut_header fuel n r positive short =
    let size : length (take 10 (take n (entry r))) ≡ n =
      omega (
        arith,
        length-take 10 (take n (entry r)),
        length-take n (entry r),
        length-entry r,
        short,
      ) in
    let some_bytes : (n == 0) ≡ false = ground arith in
    let too_few : (n == 10) ≡ false = ground arith in
    rw (size, some_bytes, too_few, lt→ltb n 10 short) refl

cut_frame :
    (fuel k : ℕ) (r : Record)
    → k < length r.raw
    → read_records (suc fuel) (be64 r.timestamp_ns ++ (be16 (length r.raw) ++ take k r.raw))
      ≡ ends_with (some (value_error "truncated recording frame"))
unfolding read_records
cut_frame fuel k r short =
    let fewer : (length (take (length r.raw) (take k r.raw)) == length r.raw) ≡ false =
      ground (arith, length-take (length r.raw) (take k r.raw), length-take k r.raw) in
    rw (be16_value (length r.raw), fewer) refl

take_behind_header :
    (n k : ℕ) (r : Record)
    → n ≡ 10 + k
    → take n (entry r) ≡ be64 r.timestamp_ns ++ (be16 (length r.raw) ++ take k r.raw)
unfolding entry
take_behind_header n k r e =
    let sucs : n ≡ suc (suc (suc (suc (suc (suc (suc (suc (suc (suc k))))))))) = omega (arith, e) in
    rw sucs refl

read_cut :
    (fuel n : ℕ) (r : Record)
    → 0 < n
    → n < length (entry r)
    → read_records (suc fuel) (take n (entry r)) ≡ ends_with (some (cut_error n))
read_cut fuel n r positive short = elim (Bool-cases (ltb n 10)) [
  | inl e ↦ cut_header fuel n r positive (ltb→lt n 10 e)
  | inr e ↦
      let large : 10 ≤ n = ground arith in
      let split = take_behind_header n (n - 10) r (omega (arith, large)) in
      rw (split, e) (cut_frame fuel (n - 10) r (omega (arith, length-entry r, short, large)))
]

pub records-whole :
    (rs : List Record) → records (magic ++ entries rs) ≡ record { given = rs; ended = none }
records-whole rs =
    let (fuel, whole) = records-append rs [] in
    ap (λ bytes. records (magic ++ bytes)) (sym (append-nil (entries rs)))
    ∙ whole
    ∙ rw (read_nothing fuel, append-nil rs) refl

-- A file that holds the records whole gives them back, with no exception. If it ends within one more
-- record, it gives the whole ones, and then the exception for a header or for a frame cut short.
pub records-entries :
    (rs : List Record) (r : Record) (n : ℕ)
    → 0 < n
    → n < length (entry r)
    → (records (magic ++ entries rs) ≡ record { given = rs; ended = none })
      × (records (magic ++ (entries rs ++ take n (entry r)))
          ≡ record { given = rs; ended = some (cut_error n) })
records-entries rs r n positive short =
    let (fuel, cut) = records-append rs (take n (entry r)) in
    (records-whole rs, cut ∙ rw (read_cut fuel n r positive short, append-nil rs) refl)
