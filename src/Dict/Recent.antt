-- ===== src/Dict/Recent.antt =====
-- How long an entry stays in a dict whose oldest entries are dropped.
use mowgli_lora_link.Prelude.{
  ℕ, ◌+◌, ◌≤◌, ◌≡◌, refl, ap, ◌∙◌, arith, [], ◌∷◌, ◌++◌, length, length-append, append_assoc, none,
  some, ltb, if_elim,
}
use mowgli_lora_link.Dict.{Key, Dict, lookup, insert_last, trim}
use mowgli_lora_link.Dict.Laws.{same_self, trim_of_le, remove_absent}

module _ {ℓ κ} {K : Type ℓ} {V : Type κ} ⦃k : Key K⦄ where
  -- The entry is the first one of its key, and at most n entries are newer.
  pub record Recent (n : ℕ) (key : K) (v : V) (d : Dict K V) : Type (ℓ ⊔ κ) where
    pub before : Dict K V
    pub after : Dict K V
    pub split : d ≡ before ++ ((key, v) ∷ after)
    pub first : lookup key before ≡ none
    pub newer : length after ≤ n

  lookup_behind :
      (key : K) (v : V) (before after : Dict K V)
      → lookup key before ≡ none
      → lookup key (before ++ ((key, v) ∷ after)) ≡ some v
  unfolding lookup
  lookup_behind key v [] after h = rw (same_self key) refl
  lookup_behind key v ((j, w) ∷ before) after h = ground (arith, lookup_behind key v before after)

  pub Recent-lookup :
      (n : ℕ) (key : K) (v : V) (d : Dict K V) → Recent n key v d → lookup key d ≡ some v
  Recent-lookup n key v d h = rw h.split (lookup_behind key v h.before h.after h.first)

  lookup_tail :
      (key j : K) (w : V) (d : Dict K V) → lookup key ((j, w) ∷ d) ≡ none → lookup key d ≡ none
  unfolding lookup
  lookup_tail key j w d h = ground arith

  trim_before :
      (m n : ℕ) (key : K) (v : V) (before after : Dict K V)
      → lookup key before ≡ none
      → length after ≤ n
      → n + 1 ≤ m
      → Recent n key v (trim m (before ++ ((key, v) ∷ after)))
  unfolding trim lookup
  trim_before m n key v [] after h newer room = record {
    before = [];
    after = after;
    split = trim_of_le m ((key, v) ∷ after) (omega arith);
    first = refl;
    newer = newer;
  }
  trim_before m n key v ((j, w) ∷ before) after h newer room =
      if_elim (Recent n key v) (ltb m (length ((j, w) ∷ (before ++ ((key, v) ∷ after))))) _ _
        (trim_before m n key v before after (lookup_tail key j w before h) newer room)
        (record { before = (j, w) ∷ before; after = after; split = refl; first = h; newer = newer })

  -- A new entry at the end is the newest one.
  pub insert_last-Recent :
      (m : ℕ) (key : K) (v : V) (d : Dict K V)
      → lookup key d ≡ none
      → 1 ≤ m
      → Recent 0 key v (trim m (insert_last key v d))
  unfolding insert_last
  insert_last-Recent m key v d h room =
      rw (remove_absent key d h) (trim_before m 0 key v d [] h (omega arith) (omega arith))

  -- A new entry makes the others older, and drops none that is among the newest m.
  pub Recent-insert_last :
      (m n : ℕ) (key : K) (v : V) (j : K) (w : V) (d : Dict K V)
      → Recent n key v d
      → lookup j d ≡ none
      → n + 2 ≤ m
      → Recent (n + 1) key v (trim m (insert_last j w d))
  unfolding insert_last
  Recent-insert_last m n key v j w d h new room =
      let longer : d ++ ((j, w) ∷ []) ≡ h.before ++ ((key, v) ∷ (h.after ++ ((j, w) ∷ []))) =
        ap (λ xs. xs ++ ((j, w) ∷ [])) h.split
        ∙ append_assoc h.before ((key, v) ∷ h.after) ((j, w) ∷ []) in
      rw (remove_absent j d new, longer)
        (trim_before m (n + 1) key v h.before (h.after ++ ((j, w) ∷ [])) h.first
          (omega (arith, h.newer, length-append h.after ((j, w) ∷ []))) (omega (arith, room)))
