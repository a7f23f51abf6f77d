-- ===== src/Dict/Laws.antt =====
-- What a lookup finds after a write, and how many entries there are.
use mowgli_lora_link.Prelude.{
  ℕ, suc, ◌+◌, ◌≤◌, ◌≡◌, ◌≢◌, refl, arith, true, false, List, [], ◌∷◌, ◌++◌, length, none, some,
  Bool-cases, inl, inr, sym,
}
use mathlib.Core.Bool.{false≢true}
use mowgli_lora_link.Dict.{Key, same, Dict, lookup, contains, insert, remove, insert_last, trim}

module _ {ℓ} {K : Type ℓ} ⦃k : Key K⦄ where
  pub same_self : (a : K) → same a a ≡ true
  same_self a = (k.same_iff a a).1 refl

  pub same_ne : (a b : K) → a ≢ b → same a b ≡ false
  same_ne a b h = elim (Bool-cases (same a b)) [
    | inl e ↦ absurd (h ((k.same_iff a b).0 e))
    | inr e ↦ e
  ]

module _ {ℓ κ} {K : Type ℓ} {V : Type κ} ⦃k : Key K⦄ where
  pub contains-lookup :
      (key : K) (d : Dict K V) → contains key d ≡ true → (v : V) × (lookup key d ≡ some v)
  unfolding contains lookup
  contains-lookup key [] h = absurd (false≢true h)
  contains-lookup key ((j, v) ∷ d) h = elim (Bool-cases (same j key)) [
    | inl e ↦ (v, rw e)
    | inr e ↦ let (w, found) = contains-lookup key d (rw e at h) in (w, rw e found)
  ]

  pub lookup-contains-false :
      (key : K) (d : Dict K V) → contains key d ≡ false → lookup key d ≡ none
  unfolding contains lookup
  lookup-contains-false key [] h = refl
  lookup-contains-false key ((j, v) ∷ d) h = elim (Bool-cases (same j key)) [
    | inl e ↦ absurd (false≢true (sym (rw e at h)))
    | inr e ↦ rw e (lookup-contains-false key d (rw e at h))
  ]

  pub lookup-insert_self : (key : K) (v : V) (d : Dict K V) → lookup key (insert key v d) ≡ some v
  unfolding lookup insert
  lookup-insert_self key v [] = rw (same_self key)
  lookup-insert_self key v ((j, w) ∷ d) = elim (Bool-cases (same j key)) [
    | inl e ↦ rw (e, e)
    | inr e ↦ rw (e, e) (lookup-insert_self key v d)
  ]

  pub length-remove-le : (key : K) (d : Dict K V) → length (remove key d) ≤ length d
  unfolding remove
  length-remove-le key [] = omega arith
  length-remove-le key ((j, w) ∷ d) = ground (arith, length-remove-le key d)

  pub length-insert_le : (key : K) (v : V) (d : Dict K V) → length (insert key v d) ≤ length d + 1
  unfolding insert
  length-insert_le key v [] = omega arith
  length-insert_le key v ((j, w) ∷ d) = ground (arith, length-insert_le key v d)

  -- A key that is there takes no new entry.
  pub length-insert_present :
      (key : K) (v : V) (d : Dict K V) → contains key d ≡ true → length (insert key v d) ≡ length d
  unfolding insert contains
  length-insert_present key v [] h = absurd (false≢true h)
  length-insert_present key v ((j, w) ∷ d) h = ground (arith, length-insert_present key v d)

module _ {ℓ κ} {K : Type ℓ} {V : Type κ} ⦃k : Key K⦄ where
  -- A key that is found takes no new entry.
  pub length-insert_found :
      (key : K) (v w : V) (d : Dict K V)
      → lookup key d ≡ some w
      → length (insert key v d) ≡ length d
  unfolding insert lookup
  length-insert_found key v w [] h = cc
  length-insert_found key v w ((j, x) ∷ d) h = ground (arith, length-insert_found key v w d)

pub length-trim {ℓ} : {A : Type ℓ} (n : ℕ) (xs : List A) → length (trim n xs) ≤ n
unfolding trim
length-trim n [] = omega arith
length-trim n (x ∷ xs) = ground (arith, length-trim n xs)

-- A list that fits is left alone.
pub trim_of_le {ℓ} : {A : Type ℓ} (n : ℕ) (xs : List A) → length xs ≤ n → trim n xs ≡ xs
unfolding trim
trim_of_le n [] h = refl
trim_of_le n (x ∷ xs) h = ground arith

module _ {ℓ κ} {K : Type ℓ} {V : Type κ} ⦃k : Key K⦄ where
  pub remove_absent : (key : K) (d : Dict K V) → lookup key d ≡ none → remove key d ≡ d
  unfolding lookup remove
  remove_absent key [] h = refl
  remove_absent key ((j, w) ∷ d) h = ground (arith, remove_absent key d)

  lookup-last :
      (key : K) (v : V) (d : Dict K V)
      → lookup key d ≡ none
      → lookup key (d ++ ((key, v) ∷ [])) ≡ some v
  unfolding lookup
  lookup-last key v [] h = rw (same_self key)
  lookup-last key v ((j, w) ∷ d) h = ground (arith, lookup-last key v d)

  lookup-trim :
      (key : K) (v : V) (d : Dict K V) (n : ℕ)
      → lookup key d ≡ none
      → lookup key (trim (suc n) (d ++ ((key, v) ∷ []))) ≡ some v
  unfolding lookup trim
  lookup-trim key v [] n h = ground (arith, same_self key)
  lookup-trim key v ((j, w) ∷ d) n h = ground (arith, lookup-trim key v d n, lookup-last key v d)

  -- A new entry at the end stays when the oldest entries are dropped.
  pub lookup-trim_last :
      (key : K) (v : V) (d : Dict K V) (n : ℕ)
      → lookup key d ≡ none
      → lookup key (trim (suc n) (insert_last key v d)) ≡ some v
  unfolding insert_last
  lookup-trim_last key v d n h = rw (remove_absent key d h) (lookup-trim key v d n h)

module _ {ℓ κ} {K : Type ℓ} {V : Type κ} ⦃k : Key K⦄ where
  contains-last : (key : K) (v : V) (d : Dict K V) → contains key (d ++ ((key, v) ∷ [])) ≡ true
  unfolding contains
  contains-last key v [] = rw (same_self key)
  contains-last key v ((j, w) ∷ d) = ground (arith, contains-last key v d)

  contains-trim :
      (key : K) (v : V) (d : Dict K V) (n : ℕ)
      → contains key (trim (suc n) (d ++ ((key, v) ∷ []))) ≡ true
  unfolding contains trim
  contains-trim key v [] n = ground (arith, same_self key)
  contains-trim key v ((j, w) ∷ d) n =
      ground (arith, contains-trim key v d n, contains-last key v d)

  -- The newest entry is not dropped.
  pub contains-trim_last :
      (key : K) (v : V) (d : Dict K V) (n : ℕ)
      → contains key (trim (suc n) (insert_last key v d)) ≡ true
  unfolding insert_last
  contains-trim_last key v d n = contains-trim key v (remove key d) n
