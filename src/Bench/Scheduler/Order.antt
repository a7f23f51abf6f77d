-- ===== src/Bench/Scheduler/Order.antt =====
-- Which item leaves the queue of the bench, and which one makes room.
use mowgli_lora_link.Prelude.{
  ℕ, ◌+◌, ◌≡◌, ◌≤◌, ◌<◌, ◌⊎◌, refl, sym, arith, List, [], ◌∷◌, ◌++◌, length, All, append_assoc,
  append-nil, true, false, if◌then◌else◌, Bool-cases, inl, inr, ◌∙◌, Option, none, some, ok, subst,
}
use mathlib.Core.List.{Perm}
use mowgli_lora_link.Bench.Scheduler.Choice.{best_of_lem}
use mowgli_lora_link.Bench.Scheduler.Priorities.{remove_known}
use mowgli_lora_link.Bench.Scheduler.{
  WorkItem, Scheduler, priority, all_have_priority, worse, goes_before, best_of, remove_at,
  is_stale, add_key, drop_stale, pop_first, pop,
}

pub worse_irreflexive : (a : WorkItem) → worse a a ≡ false
unfolding worse
worse_irreflexive a = ground arith

pub worse_transitive : (a b c : WorkItem) → worse a b ≡ true → worse b c ≡ true → worse a c ≡ true
unfolding worse
worse_transitive a b c h k = ground arith

goes_before_irreflexive : (a : WorkItem) → goes_before a a ≡ false
unfolding goes_before
goes_before_irreflexive a = ground arith

goes_before_transitive :
    (a b c : WorkItem) → goes_before a b ≡ true → goes_before b c ≡ true → goes_before a c ≡ true
unfolding goes_before
goes_before_transitive a b c h k = ground arith

-- The items that are not stale, in their order.
pub fresh_items : ℕ → List WorkItem → List WorkItem
fresh_items now [] = []
fresh_items now (item ∷ items) =
    let rest = fresh_items now items in if is_stale now item then rest else item ∷ rest

pub length-fresh_items-le :
    (now : ℕ) (items : List WorkItem) → length (fresh_items now items) ≤ length items
unfolding fresh_items
length-fresh_items-le now [] = omega arith
length-fresh_items-le now (x ∷ items) = ground (arith, length-fresh_items-le now items)

-- The limit, and the counters that `pop` leaves alone.
pub record SameCounts (s s' : Scheduler) : Type 0 where
  pub limit : s'.limit ≡ s.limit
  pub high_water : s'.high_water ≡ s.high_water
  pub queue_drops : s'.queue_drops ≡ s.queue_drops
  pub telemetry_replaced : s'.telemetry_replaced ≡ s.telemetry_replaced

-- What the loop of `pop` leaves: the fresh items, and every other one is counted.
pub record Dropped (now : ℕ) (items : List WorkItem) (s s' : Scheduler) : Type 0 where
  pub kept : s'.items ≡ s.items ++ fresh_items now items
  pub counted :
      s'.stale_rtcm_drops + length (fresh_items now items) ≡ s.stale_rtcm_drops + length items
  pub same : SameCounts s s'

pub drop_stale-Dropped :
    (now : ℕ) (items : List WorkItem) (s : Scheduler) → Dropped now items s (drop_stale now items s)
unfolding drop_stale fresh_items
drop_stale-Dropped now [] s = record {
  kept = sym (append-nil s.items);
  counted = refl;
  same = record { limit = refl; high_water = refl; queue_drops = refl; telemetry_replaced = refl };
}
drop_stale-Dropped now (item ∷ items) s = elim (Bool-cases (is_stale now item)) [
  | inl e ↦
      let ih = drop_stale-Dropped now items (record s {
        stale_rtcm_drops = s.stale_rtcm_drops + 1;
        stale_rtcm_keys = add_key item.rtcm_key s.stale_rtcm_keys;
      }) in
      rw e (record {
        kept = rw e ih.kept;
        counted = rw e (omega (arith, ih.counted));
        same = record {
          limit = ih.same.limit;
          high_water = ih.same.high_water;
          queue_drops = ih.same.queue_drops;
          telemetry_replaced = ih.same.telemetry_replaced;
        };
      })
  | inr e ↦
      let ih = drop_stale-Dropped now items (record s { items = s.items ++ (item ∷ []) }) in
      rw e (record {
        kept = rw e (ih.kept ∙ append_assoc s.items (item ∷ []) (fresh_items now items));
        counted = rw e (omega (arith, ih.counted));
        same = record {
          limit = ih.same.limit;
          high_water = ih.same.high_water;
          queue_drops = ih.same.queue_drops;
          telemetry_replaced = ih.same.telemetry_replaced;
        };
      })
]

-- `a` has the smaller number, or the same one and is as old, or older; then the order of arrival counts.
abbrev pub NotAfter : WorkItem → WorkItem → Type 0
NotAfter a b =
    (priority a < priority b)
    ⊎ ((priority a ≡ priority b)
        × ((a.created_at < b.created_at) ⊎ ((a.created_at ≡ b.created_at) × (a.order ≤ b.order))))

not_after : (a b : WorkItem) → goes_before b a ≡ false → NotAfter a b
unfolding goes_before
not_after a b h = ground arith

none_after :
    (a : WorkItem) (items : List WorkItem)
    → All (λ x. goes_before x a ≡ false) items
    → All (NotAfter a) items
none_after a [] h = tt
none_after a (x ∷ items) h = (not_after a x h.0, none_after a items h.1)

-- `min` gives the item of the highest priority, the oldest among these, of the fresh ones, and the queue keeps the others; it gives none
-- if there is none.
abbrev pub Chosen : List WorkItem → Scheduler → Option WorkItem → Type 0
Chosen fresh s' none = (fresh ≡ []) × (s'.items ≡ [])
Chosen fresh s' (some item) =
    Perm fresh (item ∷ s'.items) × (length s'.items + 1 ≡ length fresh) × All (NotAfter item) fresh

all_fresh :
    (now : ℕ) (items : List WorkItem)
    → all_have_priority items ≡ true
    → all_have_priority (fresh_items now items) ≡ true
unfolding all_have_priority fresh_items
all_fresh now [] h = refl
all_fresh now (item ∷ items) h = ground (arith, all_fresh now items)

pop_first-Chosen :
    (items : List WorkItem) (s : Scheduler)
    → all_have_priority items ≡ true
    → s.items ≡ items
    → (s' : Scheduler) × (r : Option WorkItem) × (pop_first items s ≡ ok (s', r))
      × Chosen items s' r
      × SameCounts s s'
      × (s'.stale_rtcm_drops ≡ s.stale_rtcm_drops)
      × (all_have_priority s'.items ≡ true)
unfolding pop_first
pop_first-Chosen [] s h e = (
  s,
  none,
  refl,
  (refl, e),
  record { limit = refl; high_water = refl; queue_drops = refl; telemetry_replaced = refl },
  refl,
  rw e h,
)
pop_first-Chosen (first ∷ items) s h e =
    let best = best_of goes_before (0, first) 1 items in
    let chosen =
      best_of_lem goes_before goes_before_irreflexive goes_before_transitive first items in
    (
      record s { items = remove_at best.0 (first ∷ items) },
      some best.1,
      rw h,
      (chosen.0, omega (arith, chosen.1), none_after best.1 (first ∷ items) chosen.2),
      record { limit = refl; high_water = refl; queue_drops = refl; telemetry_replaced = refl },
      refl,
      remove_known best.0 (first ∷ items) h,
    )

-- If every queued type has a priority, `pop` succeeds: the item that it gives is fresh, and
-- of the fresh ones it has the most urgent priority, then the earliest time, then the earliest place
-- of arrival; the queue keeps exactly the other fresh ones; it gives none only if no item
-- is fresh. Each item that is not fresh is counted, and the other counters stay.
pub pop-Chosen :
    (now : ℕ) (s : Scheduler)
    → all_have_priority s.items ≡ true
    → (s' : Scheduler) × (r : Option WorkItem) × (pop now s ≡ ok (s', r))
      × Chosen (fresh_items now s.items) s' r
      × SameCounts s s'
      × (s'.stale_rtcm_drops + length (fresh_items now s.items)
          ≡ s.stale_rtcm_drops + length s.items)
      × (all_have_priority s'.items ≡ true)
unfolding pop
pop-Chosen now s h =
    let dropped = drop_stale-Dropped now s.items (record s { items = [] }) in
    let fresh = drop_stale now s.items (record s { items = [] }) in
    let known : all_have_priority fresh.items ≡ true = rw dropped.kept (all_fresh now s.items h) in
    let (s', r, popped, chosen, same, stale, still_known) =
      pop_first-Chosen fresh.items fresh known refl in
    (
      s',
      r,
      popped,
      subst (λ items. Chosen items s' r) dropped.kept chosen,
      record {
        limit = same.limit ∙ dropped.same.limit;
        high_water = same.high_water ∙ dropped.same.high_water;
        queue_drops = same.queue_drops ∙ dropped.same.queue_drops;
        telemetry_replaced = same.telemetry_replaced ∙ dropped.same.telemetry_replaced;
      },
      omega (arith, stale, dropped.counted),
      still_known,
    )
