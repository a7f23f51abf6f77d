-- ===== src/Bench/Scheduler/Bounds.antt =====
-- Runs of the bench's queue: its bounds, and what became of the items that were offered.
use mowgli_lora_link.Prelude.{
  ℕ, ◌+◌, ◌≡◌, ◌≤◌, ◌<◌, refl, arith, List, [], ◌∷◌, length, All, Bool, true, length-append, Option,
  none, some, Result, ok, ◌>>=◌, inl, inr,
}
use mowgli_lora_link.Bench.Scheduler.Eviction.{
  push-Succeeds, Pushed, Counted, entered, evicted, refused,
}
use mowgli_lora_link.Bench.Scheduler.Order.{pop-Chosen, Chosen, fresh_items, length-fresh_items-le}
use mowgli_lora_link.Bench.Scheduler.{
  WorkItem, Scheduler, has_priority, all_have_priority, push, pop,
}

pub data Operation : Type 0 where
  offer : WorkItem → Operation
  serve : ℕ → Operation

-- The queue, how many items were offered to it, and how many it gave.
pub record Tally : Type 0 where
  pub scheduler : Scheduler
  pub offered : ℕ
  pub served : ℕ

served_of : Option WorkItem → ℕ
served_of none = 0
served_of (some item) = 1

step : Operation → Tally → Result Tally
unfolding served_of
step (offer item) t = do
  r ← push item t.scheduler
  ok (record t { scheduler = r.0; offered = t.offered + 1 })
step (serve now) t = do
  r ← pop now t.scheduler
  ok (record t { scheduler = r.0; served = t.served + served_of r.1 })

unfoldable pub run : List Operation → Tally → Result Tally
unfolding step
run [] t = ok t
run (e ∷ events) t = do next ← step e t; run events next

abbrev pub Known : Operation → Type 0
Known (offer item) = has_priority item ≡ true
Known (serve now) = Unit

pub record IsAccounted (t : Tally) : Type 0 where
  pub known : all_have_priority t.scheduler.items ≡ true
  pub positive : 0 < t.scheduler.limit
  pub bounded : length t.scheduler.items ≤ t.scheduler.limit
  pub reached : length t.scheduler.items ≤ t.scheduler.high_water
  pub high_water : t.scheduler.high_water ≤ t.scheduler.limit
  pub accounted :
      t.offered
      ≡ t.served
        + length t.scheduler.items
        + t.scheduler.queue_drops
        + t.scheduler.telemetry_replaced
        + t.scheduler.stale_rtcm_drops

pushed_bounded :
    {item : WorkItem} {s s' : Scheduler} {accepted : Bool}
    → Pushed item s s' accepted
    → length s.items ≤ s.limit
    → length s'.items ≤ s.limit
pushed_bounded {item} {s} (entered room e) h =
    rw (e, length-append s.items (item ∷ [])) (omega arith)
pushed_bounded {item} (evicted out others size perm lower worst e) h =
    rw (e, length-append others (item ∷ [])) (omega arith)
pushed_bounded (refused full none_lower e) h = rw e h

served_one :
    (fresh : List WorkItem) (s' : Scheduler) (r : Option WorkItem)
    → Chosen fresh s' r
    → length s'.items + served_of r ≡ length fresh
unfolding served_of
served_one fresh s' none h = rw (h.0, h.1) refl
served_one fresh s' (some item) h = h.1

marks_hold :
    {item : WorkItem} {s s' : Scheduler}
    → Counted item s s'
    → length s'.items ≤ s.limit
    → length s.items ≤ s.high_water
    → s.high_water ≤ s.limit
    → (length s'.items ≤ s'.high_water) × (s'.high_water ≤ s.limit)
marks_hold c h reached high = elim c.high_water [
  | inl same ↦ (omega (arith, same.0, same.1), omega (arith, same.0))
  | inr e ↦ (omega (arith, e), omega (arith, e))
]

offer-IsAccounted :
    (item : WorkItem) (t : Tally)
    → has_priority item ≡ true
    → IsAccounted t
    → (t' : Tally) × (step (offer item) t ≡ ok t') × IsAccounted t'
unfolding step
offer-IsAccounted item t known h =
    let (replaced, succeeded) = push-Succeeds item t.scheduler known h.known h.positive in
    let (s', accepted, pushed, outcome, counted, still_known) = succeeded in
    let fits =
      pushed_bounded outcome (omega (arith, replaced.shorter, replaced.limit, h.bounded)) in
    let marks =
      marks_hold counted fits (omega (arith, replaced.shorter, replaced.high_water, h.reached))
        (omega (arith, replaced.high_water, replaced.limit, h.high_water)) in
    (
      record t { scheduler = s'; offered = t.offered + 1 },
      rw pushed,
      record {
        known = still_known;
        positive = omega (arith, counted.limit, replaced.limit, h.positive);
        bounded = omega (arith, fits, counted.limit);
        reached = marks.0;
        high_water = omega (arith, marks.1, counted.limit);
        accounted = omega (
          arith, h.accounted, counted.accounted, counted.replaced, counted.stale,
          replaced.accounted, replaced.queue_drops, replaced.stale,
        );
      },
    )

serve-IsAccounted :
    (now : ℕ) (t : Tally)
    → IsAccounted t
    → (t' : Tally) × (step (serve now) t ≡ ok t') × IsAccounted t'
unfolding step
serve-IsAccounted now t h =
    let (s', r, popped, chosen, same, stale, still_known) = pop-Chosen now t.scheduler h.known in
    let served = served_one (fresh_items now t.scheduler.items) s' r chosen in
    (
      record t { scheduler = s'; served = t.served + served_of r },
      rw popped,
      record {
        known = still_known;
        positive = omega (arith, same.limit, h.positive);
        bounded =
            omega
              (arith, served, length-fresh_items-le now t.scheduler.items, same.limit, h.bounded);
        reached = omega (
          arith,
          served,
          length-fresh_items-le now t.scheduler.items,
          same.high_water,
          h.reached,
        );
        high_water = omega (arith, same.limit, same.high_water, h.high_water);
        accounted =
            omega (arith, h.accounted, served, stale, same.queue_drops, same.telemetry_replaced);
      },
    )

step-IsAccounted :
    (e : Operation) (t : Tally)
    → Known e
    → IsAccounted t
    → (t' : Tally) × (step e t ≡ ok t') × IsAccounted t'
step-IsAccounted (offer item) t known h = offer-IsAccounted item t known h
step-IsAccounted (serve now) t known h = serve-IsAccounted now t h

-- If every offered type has a priority, no run of offers and servings fails. The queue is never longer
-- than its limit, nor is the high water mark, which is never below the length; and each offered item
-- was served, is queued, or is counted as dropped, as replaced telemetry or as stale.
pub run-IsAccounted :
    (events : List Operation) (t : Tally)
    → All Known events
    → IsAccounted t
    → (t' : Tally) × (run events t ≡ ok t') × IsAccounted t'
unfolding run
run-IsAccounted [] t known h = (t, refl, h)
run-IsAccounted (e ∷ events) t known h =
    let (next, stepped, still) = step-IsAccounted e t known.0 h in
    let (t', ran, accounted) = run-IsAccounted events next known.1 still in
    (t', rw stepped ran, accounted)
