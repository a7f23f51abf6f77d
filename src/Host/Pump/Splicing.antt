-- ===== src/Host/Pump/Splicing.antt =====
-- The bytes that are fed to the parser between two resets.
use mowgli_lora_link.Prelude.{
  ℕ, ◌+◌, ◌≤◌, ◌<◌, ◌≡◌, ◌⊎◌, inl, inr, refl, arith, List, [], ◌∷◌, ◌++◌, length, length-append,
  false, ◌==◌, ltb, if◌then◌else◌, if_elim, if_cases, Bool-cases,
}
use mowgli_lora_link.Host.Pump.{
  Pump, Item, chunk, session_started, failure, finished, next_generation, discard_queued_input,
  put_fresh, Action, reset_source, ingest, max_queue,
}

-- What `ingest` has been called with since the last reset, in order; the log has the latest first.
unfoldable pub fed : List Action → List (List ℕ)
fed [] = []
fed (reset_source ∷ log) = []
fed (ingest g raw at ∷ log) = fed log ++ (raw ∷ [])

abbrev pub IsPrefix : List (List ℕ) → List (List ℕ) → Type 0
IsPrefix xs ys = (rest : List (List ℕ)) × (ys ≡ xs ++ rest)

-- The chunks are the first ones of one of the stretches.
unfoldable pub FromOne : List (List ℕ) → List (List (List ℕ)) → Type 0
FromOne xs [] = ⊥
FromOne xs (stretch ∷ stretches) = IsPrefix xs stretch ⊎ FromOne xs stretches

-- So it was at each call of `ingest`: the parser has then been given, since its last reset, the
-- beginning of one stretch, without a gap.
unfoldable pub Whole : List (List (List ℕ)) → List Action → Type 0
Whole stretches [] = Unit
Whole stretches (reset_source ∷ log) = Whole stretches log
Whole stretches (ingest g raw at ∷ log) =
    FromOne (fed log ++ (raw ∷ [])) stretches × Whole stretches log

pub Whole-later :
    (old new : List (List (List ℕ))) (log : List Action)
    → ((xs : List (List ℕ)) → FromOne xs old → FromOne xs new)
    → Whole old log
    → Whole new log
unfolding Whole
Whole-later old new [] grows h = tt
Whole-later old new (reset_source ∷ log) grows h = Whole-later old new log grows h
Whole-later old new (ingest g raw at ∷ log) grows h =
    (grows _ h.0, Whole-later old new log grows h.1)

-- The bytes of the chunks of generation g.
unfoldable pub payloads : ℕ → List Item → List (List ℕ)
payloads g [] = []
payloads g (chunk c ∷ items) =
    let rest = payloads g items in if c.generation == g then c.raw ∷ rest else rest
payloads g (session_started h ∷ items) = payloads g items
payloads g (failure text ∷ items) = payloads g items
payloads g (finished ∷ items) = payloads g items

pub payloads-append :
    (g : ℕ) (xs ys : List Item) → payloads g (xs ++ ys) ≡ payloads g xs ++ payloads g ys
unfolding payloads
payloads-append g [] ys = refl
payloads-append g (chunk c ∷ xs) ys = elim (Bool-cases (c.generation == g)) [
  | inl e ↦ rw (e, payloads-append g xs ys) refl
  | inr e ↦ rw (e, payloads-append g xs ys) refl
]
payloads-append g (session_started h ∷ xs) ys = payloads-append g xs ys
payloads-append g (failure text ∷ xs) ys = payloads-append g xs ys
payloads-append g (finished ∷ xs) ys = payloads-append g xs ys

-- No chunk is of a later generation than g.
unfoldable pub NotNewer : ℕ → List Item → Type 0
NotNewer g [] = Unit
NotNewer g (chunk c ∷ items) = (c.generation ≤ g) × NotNewer g items
NotNewer g (session_started h ∷ items) = NotNewer g items
NotNewer g (failure text ∷ items) = NotNewer g items
NotNewer g (finished ∷ items) = NotNewer g items

pub NotNewer-payloads :
    (g : ℕ) (items : List Item)
    → NotNewer g items
    → (payloads (g + 1) items ≡ []) × NotNewer (g + 1) items
unfolding NotNewer payloads
NotNewer-payloads g [] h = (refl, tt)
NotNewer-payloads g (chunk c ∷ items) h =
    let (none_left, still) = NotNewer-payloads g items h.1 in
    let other : (c.generation == g + 1) ≡ false = ground (arith, h.0) in
    (rw (other, none_left) refl, (omega (arith, h.0), still))
NotNewer-payloads g (session_started k ∷ items) h = NotNewer-payloads g items h
NotNewer-payloads g (failure text ∷ items) h = NotNewer-payloads g items h
NotNewer-payloads g (finished ∷ items) h = NotNewer-payloads g items h

pub NotNewer-append :
    (g : ℕ) (xs ys : List Item) → NotNewer g xs → NotNewer g ys → NotNewer g (xs ++ ys)
unfolding NotNewer
NotNewer-append g [] ys h k = k
NotNewer-append g (chunk c ∷ xs) ys h k = (h.0, NotNewer-append g xs ys h.1 k)
NotNewer-append g (session_started i ∷ xs) ys h k = NotNewer-append g xs ys h k
NotNewer-append g (failure text ∷ xs) ys h k = NotNewer-append g xs ys h k
NotNewer-append g (finished ∷ xs) ys h k = NotNewer-append g xs ys h k

discarded : (p : Pump) → (discard_queued_input p).queue ≡ []
unfolding discard_queued_input
discarded p = if_elim (λ (q : Pump). q.queue ≡ []) _ _ _ refl refl

-- If the queue holds at most 64 items, so it does after `put_fresh`.
pub put_fresh-bounded :
    (raw : List ℕ) (at : ℕ) (p : Pump)
    → length p.queue ≤ max_queue
    → length (put_fresh raw at p).queue ≤ max_queue
unfolding put_fresh
put_fresh-bounded raw at p h =
    if_cases (λ (q : Pump). length q.queue ≤ max_queue) (ltb (length p.queue) max_queue) _ _
      (λ room.
        let fits : length p.queue < max_queue = ground arith in
        omega (
          arith,
          fits,
          length-append p.queue
              (chunk (record { raw = raw; received_at = at; generation = p.generation }) ∷ []),
        ))
      (λ full. rw (discarded (next_generation p)) (omega arith))
