-- ===== src/Bench/Scheduler/Choice.antt =====
-- What `min` and `max` over the items choose, whatever the order is.
use mowgli_lora_link.Prelude.{
  ℕ, zero, suc, ◌+◌, ◌≡◌, refl, sym, arith, List, [], ◌∷◌, ◌++◌, length, All, All-append,
  append_assoc, append-nil, Bool, true, false, if◌then◌else◌, Bool-cases, inl, inr, length-append,
  if_cases, ◌∙◌, ap,
}
use mathlib.Core.Bool.{false≢true}
use mathlib.Core.List.Perm
use mathlib.Core.List.{Perm}
use mowgli_lora_link.Bench.Scheduler.{best_of, remove_at}

module _ {A : Type 0} where
  -- `a` is the element at the index.
  pub At : List A → ℕ → A → Type 0
  At [] i a = ⊥
  At (x ∷ xs) zero a = x ≡ a
  At (x ∷ xs) (suc i) a = At xs i a

  At-append : (xs ys : List A) (i : ℕ) (a : A) → At xs i a → At (xs ++ ys) i a
  unfolding At
  At-append [] ys i a h = absurd h
  At-append (x ∷ xs) ys zero a h = h
  At-append (x ∷ xs) ys (suc i) a h = At-append xs ys i a h

  At-last : (xs : List A) (a : A) → At (xs ++ (a ∷ [])) (length xs) a
  unfolding At
  At-last [] a = refl
  At-last (x ∷ xs) a = At-last xs a

  remove_at-perm : (xs : List A) (i : ℕ) (a : A) → At xs i a → Perm xs (a ∷ remove_at i xs)
  unfolding At remove_at
  remove_at-perm [] i a h = absurd h
  remove_at-perm (x ∷ xs) zero a h = rw h Perm.rfl
  remove_at-perm (x ∷ xs) (suc i) a h =
      Perm.trans (Perm.cons x (remove_at-perm xs i a h)) (Perm.swap a x (remove_at i xs))

  -- One `a` is taken out, and what is before and behind it stays in its order.
  abbrev pub Without : A → List A → List A → Type 0
  Without a xs others =
      (before : List A) × (after : List A) × (xs ≡ before ++ (a ∷ after))
      × (others ≡ before ++ after)

  remove_at-Without : (xs : List A) (i : ℕ) (a : A) → At xs i a → Without a xs (remove_at i xs)
  unfolding At remove_at
  remove_at-Without [] i a h = absurd h
  remove_at-Without (x ∷ xs) zero a h = ([], xs, ap (λ y. y ∷ xs) h, refl)
  remove_at-Without (x ∷ xs) (suc i) a h =
      let (before, after, e, same) = remove_at-Without xs i a h in
      (x ∷ before, after, ap (λ ys. x ∷ ys) e, ap (λ ys. x ∷ ys) same)

  pub All-remove_at : (P : A → Type 0) (xs : List A) (i : ℕ) → All P xs → All P (remove_at i xs)
  unfolding remove_at
  All-remove_at P [] i h = tt
  All-remove_at P (x ∷ xs) zero h = h.1
  All-remove_at P (x ∷ xs) (suc i) h = (h.0, All-remove_at P xs i h.1)

  pub length-remove_at :
      (xs : List A) (i : ℕ) (a : A) → At xs i a → length (remove_at i xs) + 1 ≡ length xs
  unfolding At remove_at
  length-remove_at [] i a h = absurd h
  length-remove_at (x ∷ xs) zero a h = omega arith
  length-remove_at (x ∷ xs) (suc i) a h = omega (arith, length-remove_at xs i a h)

module _ {A : Type 0} (wins : A → A → Bool) (irreflexive : (a : A) → wins a a ≡ false)
    (transitive : (a b c : A) → wins a b ≡ true → wins b c ≡ true → wins a c ≡ true) where
  Unbeaten : A → List A → Type 0
  Unbeaten b xs = All (λ x. wins x b ≡ false) xs

  -- The one that beats the best so far is beaten by none that went before.
  loses : (a b x : A) → wins a b ≡ false → wins x b ≡ true → wins a x ≡ false
  loses a b x h k = elim (Bool-cases (wins a x)) [
    | inl e ↦ absurd (false≢true (sym h ∙ transitive a x b e k))
    | inr e ↦ e
  ]

  newer_stands : (xs : List A) (b x : A) → Unbeaten b xs → wins x b ≡ true → Unbeaten x xs
  unfolding Unbeaten
  newer_stands [] b x h k = tt
  newer_stands (a ∷ xs) b x h k = (loses a b x h.0 k, newer_stands xs b x h.1 k)

  -- The choice among the elements `seen`, which hold the best one so far, and the rest.
  record IsChoice (xs : List A) (best : ℕ × A) : Type 0 where
    pub stands : At xs best.0 best.1
    pub unbeaten : Unbeaten best.1 xs

  next-IsChoice :
      (seen : List A) (best : ℕ × A) (x : A)
      → IsChoice seen best
      → IsChoice (seen ++ (x ∷ [])) (if wins x best.1 then (length seen, x) else best)
  unfolding Unbeaten
  next-IsChoice seen best x h =
      if_cases (IsChoice (seen ++ (x ∷ []))) (wins x best.1) _ _
        (λ won. record {
          stands = At-last seen x;
          unbeaten =
              All-append _ seen (x ∷ []) (newer_stands seen best.1 x h.unbeaten won)
                (irreflexive x, tt);
        })
        (λ lost. record {
          stands = At-append seen (x ∷ []) best.0 best.1 h.stands;
          unbeaten = All-append _ seen (x ∷ []) h.unbeaten (lost, tt);
        })

  best_of-IsChoice :
      (seen : List A) (best : ℕ × A) (xs : List A)
      → IsChoice seen best
      → IsChoice (seen ++ xs) (best_of wins best (length seen) xs)
  unfolding best_of
  best_of-IsChoice seen best [] h = rw (append-nil seen) h
  best_of-IsChoice seen best (x ∷ xs) h =
      let next = if wins x best.1 then (length seen, x) else best in
      let ih = best_of-IsChoice (seen ++ (x ∷ [])) next xs (next-IsChoice seen best x h) in
      let longer : length (seen ++ (x ∷ [])) ≡ suc (length seen) =
        omega (arith, length-append seen (x ∷ [])) in
      rw (append_assoc seen (x ∷ []) xs, longer) at ih

  -- What is chosen stands at its index, and no element beats it.
  pub best_of_lem :
      (x : A) (xs : List A)
      → let best = best_of wins (0, x) 1 xs in
        Perm (x ∷ xs) (best.1 ∷ remove_at best.0 (x ∷ xs))
        × (length (remove_at best.0 (x ∷ xs)) ≡ length xs)
        × All (λ y. wins y best.1 ≡ false) (x ∷ xs)
  unfolding At Unbeaten
  best_of_lem x xs =
      let best = best_of wins (0, x) 1 xs in
      let choice =
        best_of-IsChoice (x ∷ []) (0, x) xs
          (record { stands = refl; unbeaten = (irreflexive x, tt) }) in
      (
        remove_at-perm (x ∷ xs) best.0 best.1 choice.stands,
        omega (arith, length-remove_at (x ∷ xs) best.0 best.1 choice.stands),
        choice.unbeaten,
      )

  pub best_of-Without :
      (x : A) (xs : List A)
      → let best = best_of wins (0, x) 1 xs in Without best.1 (x ∷ xs) (remove_at best.0 (x ∷ xs))
  unfolding At Unbeaten
  best_of-Without x xs =
      let best = best_of wins (0, x) 1 xs in
      let choice =
        best_of-IsChoice (x ∷ []) (0, x) xs
          (record { stands = refl; unbeaten = (irreflexive x, tt) }) in
      remove_at-Without (x ∷ xs) best.0 best.1 choice.stands
