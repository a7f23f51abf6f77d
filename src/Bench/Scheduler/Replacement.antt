-- ===== src/Bench/Scheduler/Replacement.antt =====
-- Which queued telemetry the new item of the bench replaces.
use mowgli_lora_link.Prelude.{
  ℕ, suc, ◌+◌, ◌≡◌, ◌≤◌, refl, sym, ◌∙◌, arith, List, [], ◌∷◌, length, true, false, if_cases, ◌==◌,
  if_elim,
}
use mathlib.Core.Bool.{false≢true}
use mowgli_lora_link.Bench.Scheduler.{
  WorkItem, Scheduler, all_have_priority, Direction, base_to_robot, robot_to_base, same_direction,
  is_replaced_by, retain_others, replace_telemetry, telemetry,
}

-- The new item and the queued one are telemetry of one direction.
abbrev pub Outdates : WorkItem → WorkItem → Type 0
Outdates item x =
    (item.frame.typ ≡ telemetry) × (x.frame.typ ≡ telemetry) × (x.direction ≡ item.direction)

-- Exactly the items that the new one outdates are gone, and the others are in their order.
pub data Retained (item : WorkItem) : List WorkItem → List WorkItem → Type 0 where
  end : Retained item [] []
  gone :
      (x : WorkItem) (xs ys : List WorkItem)
      → Outdates item x
      → Retained item xs ys
      → Retained item (x ∷ xs) ys
  stays :
      (x : WorkItem) (xs ys : List WorkItem)
      → ¬ Outdates item x
      → Retained item xs ys
      → Retained item (x ∷ xs) (x ∷ ys)

-- What `push` does to the queue before the item enters it: what is gone is counted.
pub record Replaced (item : WorkItem) (s s' : Scheduler) : Type 0 where
  pub retained : Retained item s.items s'.items
  pub shorter : length s'.items ≤ length s.items
  pub accounted : length s'.items + s'.telemetry_replaced ≡ length s.items + s.telemetry_replaced
  pub limit : s'.limit ≡ s.limit
  pub high_water : s'.high_water ≡ s.high_water
  pub queue_drops : s'.queue_drops ≡ s.queue_drops
  pub stale : s'.stale_rtcm_drops ≡ s.stale_rtcm_drops

-- The test on the directions decides their equality.
same_direction_eq : (a b : Direction) → same_direction a b ≡ true → a ≡ b
same_direction_eq base_to_robot base_to_robot h = refl
same_direction_eq base_to_robot robot_to_base h = cc
same_direction_eq robot_to_base base_to_robot h = cc
same_direction_eq robot_to_base robot_to_base h = refl

same_direction_self : (a : Direction) → same_direction a a ≡ true
same_direction_self base_to_robot = refl
same_direction_self robot_to_base = refl

outdates :
    (item x : WorkItem)
    → item.frame.typ ≡ telemetry
    → is_replaced_by item x ≡ true
    → Outdates item x
unfolding is_replaced_by
outdates item x e h = (e, ground arith, same_direction_eq x.direction item.direction (ground arith))

not_outdated : (item x : WorkItem) → is_replaced_by item x ≡ false → ¬ Outdates item x
unfolding is_replaced_by
not_outdated item x h (e, typ, direction) =
    false≢true (sym h ∙ rw (typ, direction, same_direction_self item.direction) refl)

retain_others_lem :
    (item : WorkItem) (items : List WorkItem)
    → item.frame.typ ≡ telemetry
    → Retained item items (retain_others item items).0
      × (length (retain_others item items).0 + (retain_others item items).1 ≡ length items)
unfolding retain_others
retain_others_lem item [] h = (end, refl)
retain_others_lem item (x ∷ items) h =
    let (retained, counted) = retain_others_lem item items h in
    if_cases
      (λ (r : List WorkItem × ℕ).
        Retained item (x ∷ items) r.0 × (length r.0 + r.1 ≡ suc (length items)))
      (is_replaced_by item x) _ _
      (λ e. (gone x items _ (outdates item x h e) retained, omega (arith, counted)))
      (λ e. (stays x items _ (not_outdated item x e) retained, omega (arith, counted)))

retain_others-known :
    (item : WorkItem) (items : List WorkItem)
    → all_have_priority items ≡ true
    → all_have_priority (retain_others item items).0 ≡ true
unfolding retain_others all_have_priority
retain_others-known item [] h = refl
retain_others-known item (x ∷ items) h = ground (arith, retain_others-known item items)

others_stay :
    (item : WorkItem) (items : List WorkItem)
    → (item.frame.typ == telemetry) ≡ false
    → Retained item items items
others_stay item [] e = end
others_stay item (x ∷ items) e =
    stays x items items (λ outdated. absurd (ground (arith, outdated.0))) (others_stay item items e)

pub replace_telemetry-Replaced :
    (item : WorkItem) (s : Scheduler) → Replaced item s (replace_telemetry item s)
unfolding replace_telemetry
replace_telemetry-Replaced item s =
    if_cases (Replaced item s) (item.frame.typ == telemetry) _ _
      (λ e.
        let (retained, counted) = retain_others_lem item s.items (ground arith) in
        record {
          retained = retained;
          shorter = omega (arith, counted);
          accounted = omega (arith, counted);
          limit = refl;
          high_water = refl;
          queue_drops = refl;
          stale = refl;
        })
      (λ e. record {
        retained = others_stay item s.items e;
        shorter = omega arith;
        accounted = refl;
        limit = refl;
        high_water = refl;
        queue_drops = refl;
        stale = refl;
      })

pub replace_telemetry-known :
    (item : WorkItem) (s : Scheduler)
    → all_have_priority s.items ≡ true
    → all_have_priority (replace_telemetry item s).items ≡ true
unfolding replace_telemetry
replace_telemetry-known item s h =
    if_elim (λ (r : Scheduler). all_have_priority r.items ≡ true) (item.frame.typ == telemetry) _ _
      (retain_others-known item s.items h) h
