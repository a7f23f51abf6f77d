-- ===== src/Bench/Scheduler/Eviction.antt =====
-- What `push` of the bench's queue does with the new item and with the queued ones.
use mowgli_lora_link.Prelude.{
  suc, ◌+◌, ◌≡◌, ◌≤◌, ◌<◌, ◌⊎◌, refl, arith, List, [], ◌∷◌, ◌++◌, length, All, max, Bool, true,
  false, Bool-cases, inl, inr, length-append, if_cases, Result, ok, ltb, leb, ap, leb→le, ltb→lt,
}
use mowgli_lora_link.Bench.Scheduler.Choice.{Without, best_of_lem, best_of-Without}
use mowgli_lora_link.Bench.Scheduler.Priorities.{append_known, cons_known, remove_known}
use mowgli_lora_link.Bench.Scheduler.Replacement.{
  Replaced, replace_telemetry-Replaced, replace_telemetry-known,
}
use mowgli_lora_link.Bench.Scheduler.Order.{worse_irreflexive, worse_transitive}
use mowgli_lora_link.Bench.Scheduler.{
  WorkItem, Scheduler, priority, has_priority, all_have_priority, worse, best_of, remove_at,
  replace_telemetry, append_item, push_full, push_retained, push,
}

-- `x` has a higher priority than `out`, or the same one and came no later.
abbrev pub NoWorse : WorkItem → WorkItem → Type 0
NoWorse x out = (priority x < priority out) ⊎ ((priority x ≡ priority out) × (x.order ≤ out.order))

no_worse :
    (out : WorkItem) (items : List WorkItem)
    → All (λ x. worse x out ≡ false) items
    → All (λ x. NoWorse x out) items
unfolding worse
no_worse out [] h = tt
no_worse out (x ∷ items) h = (ground (arith, h.0), no_worse out items h.1)

-- `push` on the queue that the replaced telemetry has left: there is room; or the queue is full, and
-- the item that came last of those of the lowest priority makes room for one of a higher priority; or
-- no item of the full queue has a lower priority than the new one, which is refused.
pub data Pushed (item : WorkItem) (s s' : Scheduler) : Bool → Type 0 where
  entered : length s.items < s.limit → s'.items ≡ s.items ++ (item ∷ []) → Pushed item s s' true
  evicted :
      (out : WorkItem) (others : List WorkItem)
      → length s.items ≡ length others + 1
      → Without out s.items others
      → priority item < priority out
      → All (λ x. NoWorse x out) s.items
      → s'.items ≡ others ++ (item ∷ [])
      → Pushed item s s' true
  refused :
      s.limit ≤ length s.items
      → All (λ x. priority x ≤ priority item) s.items
      → s'.items ≡ s.items
      → Pushed item s s' false

-- What is counted, and the high water mark.
pub record Counted (item : WorkItem) (s s' : Scheduler) : Type 0 where
  pub limit : s'.limit ≡ s.limit
  pub accounted : length s'.items + s'.queue_drops ≡ length s.items + s.queue_drops + 1
  pub stale : s'.stale_rtcm_drops ≡ s.stale_rtcm_drops
  pub replaced : s'.telemetry_replaced ≡ s.telemetry_replaced
  pub high_water :
      ((s'.high_water ≡ s.high_water) × (length s'.items ≡ length s.items))
      ⊎ (s'.high_water ≡ max s.high_water (length s'.items))

none_lower :
    (item out : WorkItem) (items : List WorkItem)
    → ltb (priority item) (priority out) ≡ false
    → All (λ x. worse x out ≡ false) items
    → All (λ x. priority x ≤ priority item) items
unfolding worse
none_lower item out [] h k = tt
none_lower item out (x ∷ items) h k = (ground (arith, k.0), none_lower item out items h k.1)

-- `push` succeeds, and this is what it has done.
abbrev pub Succeeds : WorkItem → Scheduler → Result (Scheduler × Bool) → Type 0
Succeeds item s r =
    (s' : Scheduler) × (accepted : Bool) × (r ≡ ok (s', accepted))
    × Pushed item s s' accepted
    × Counted item s s'
    × (all_have_priority s'.items ≡ true)

push_full-Succeeds :
    (item first : WorkItem) (items : List WorkItem) (s : Scheduler)
    → s.items ≡ first ∷ items
    → has_priority item ≡ true
    → all_have_priority (first ∷ items) ≡ true
    → s.limit ≤ length s.items
    → Succeeds item s (push_full item (first ∷ items) s)
unfolding push_full append_item
push_full-Succeeds item first items s e known all_known full =
    let worst = best_of worse (0, first) 1 items in
    let others = remove_at worst.0 (first ∷ items) in
    let (_, shorter, unbeaten) = best_of_lem worse worse_irreflexive worse_transitive first items in
    let without = best_of-Without worse worse_irreflexive worse_transitive first items in
    let fine : all_have_priority (item ∷ first ∷ items) ≡ true =
      cons_known item (first ∷ items) known all_known in
    let size : length s.items ≡ suc (length items) = ap length e in
    elim (Bool-cases (ltb (priority item) (priority worst.1))) [
      | inl lower ↦ (
        append_item item (record s { items = others; queue_drops = s.queue_drops + 1 }),
        true,
        rw (fine, lower),
        evicted worst.1 others (omega (arith, size, shorter)) (rw e without) (ltb→lt _ _ lower)
            (rw e (no_worse worst.1 (first ∷ items) unbeaten)) refl,
        record {
          limit = refl;
          accounted = omega (arith, size, shorter, length-append others (item ∷ []));
          stale = refl;
          replaced = refl;
          high_water = inr (rw (length-append others (item ∷ [])) refl);
        },
        append_known item others known (remove_known worst.0 (first ∷ items) all_known),
      )
      | inr higher ↦ (
        record s { queue_drops = s.queue_drops + 1 },
        false,
        rw (fine, higher),
        refused full (rw e (none_lower item worst.1 (first ∷ items) higher unbeaten)) refl,
        record {
          limit = refl;
          accounted = omega arith;
          stale = refl;
          replaced = refl;
          high_water = inl (refl, refl);
        },
        rw e all_known,
      )
    ]

push_nonempty :
    (item : WorkItem) (items : List WorkItem) (s : Scheduler)
    → s.items ≡ items
    → has_priority item ≡ true
    → all_have_priority items ≡ true
    → 0 < length items
    → s.limit ≤ length s.items
    → Succeeds item s (push_full item items s)
push_nonempty item [] s e known all_known positive full = absurd (omega arith)
push_nonempty item (first ∷ items) s e known all_known positive full =
    push_full-Succeeds item first items s e known all_known full

push_retained-Succeeds :
    (item : WorkItem) (s : Scheduler)
    → has_priority item ≡ true
    → all_have_priority s.items ≡ true
    → 0 < s.limit
    → Succeeds item s (push_retained item s)
unfolding push_retained append_item
push_retained-Succeeds item s known all_known positive =
    if_cases (Succeeds item s) (leb s.limit (length s.items)) _ _
      (λ full.
        push_nonempty item s.items s refl known all_known (omega (arith, leb→le _ _ full, positive))
          (leb→le _ _ full))
      (λ room. (
        append_item item s,
        true,
        refl,
        entered (ground arith) refl,
        record {
          limit = refl;
          accounted = omega (arith, length-append s.items (item ∷ []));
          stale = refl;
          replaced = refl;
          high_water = inr (rw (length-append s.items (item ∷ [])) refl);
        },
        append_known item s.items known all_known,
      ))

pub push-Succeeds :
    (item : WorkItem) (s : Scheduler)
    → has_priority item ≡ true
    → all_have_priority s.items ≡ true
    → 0 < s.limit
    → Replaced item s (replace_telemetry item s)
      × Succeeds item (replace_telemetry item s) (push item s)
unfolding push
push-Succeeds item s known all_known positive =
    let replaced = replace_telemetry-Replaced item s in
    (
      replaced,
      push_retained-Succeeds item (replace_telemetry item s) known
          (replace_telemetry-known item s all_known) (rw replaced.limit positive),
    )
