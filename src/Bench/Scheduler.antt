-- ===== src/Bench/Scheduler.antt =====
-- `WorkItem` and `Scheduler` of tools/lora_usb/mixed_bench.py: a bounded queue of frames that leave by
-- priority. Times are microseconds. An exception ends the run, so no state comes with it.
pub mod Choice
pub mod Bounds
pub mod Priorities
pub mod Order
pub mod Replacement
pub mod Eviction
mod Tests
use mowgli_lora_link.Prelude.{
  ℕ, zero, suc, ◌+◌, max, List, [], ◌∷◌, ◌++◌, length, Bool, true, false, not, ◌&&◌, ◌||◌, ◌==◌,
  ltb, leb, if◌then◌else◌, Option, none, some, Result, ok, err, key_error, value_error, raise_if,
  ◌>>=◌, ◌>>◌,
}
use mowgli_lora_link.Dict.{num_key, pair_key, PairKey, Dict, lookup, contains}
use mowgli_lora_link.Application.Codec.{Frame}
use mowgli_lora_link.Application.StopCache.{stop_request}
use mowgli_lora_link.Application.Rtcm.{rtcm_fragment}

abbrev pub hello : ℕ
hello = 0x01

abbrev pub command_ack : ℕ
command_ack = 0x11

abbrev pub telemetry : ℕ
telemetry = 0x20

-- `PRIORITY`
abbrev pub priorities : Dict ℕ ℕ
priorities =
    (command_ack, 0) ∷ (stop_request, 1) ∷ (hello, 1) ∷ (telemetry, 2) ∷ (rtcm_fragment, 3) ∷ []

-- BASE_TO_ROBOT and ROBOT_TO_BASE
pub data Direction : Type 0 where
  base_to_robot : Direction
  robot_to_base : Direction

abbrev pub same_direction : Direction → Direction → Bool
same_direction base_to_robot base_to_robot = true
same_direction robot_to_base robot_to_base = true
same_direction _ _ = false

pub record WorkItem : Type 0 where
  pub frame : Frame
  pub direction : Direction
  pub created_at : ℕ
  pub order : ℕ
  pub rtcm_key : Option PairKey

-- `PRIORITY[item.frame.typ]` raises KeyError exactly if this is false.
pub has_priority : WorkItem → Bool
unfolding contains
has_priority item = contains item.frame.typ priorities

-- `PRIORITY[item.frame.typ]`, where it does not raise.
pub priority : WorkItem → ℕ
unfolding lookup
priority item = elim (lookup item.frame.typ priorities) [ none ↦ 0 | some n ↦ n ]

pub all_have_priority : List WorkItem → Bool
unfolding has_priority
all_have_priority [] = true
all_have_priority (item ∷ items) = has_priority item && all_have_priority items

pub record Scheduler : Type 0 where
  pub limit : ℕ
  pub items : List WorkItem
  pub high_water : ℕ
  pub queue_drops : ℕ
  pub telemetry_replaced : ℕ
  pub stale_rtcm_drops : ℕ
  pub stale_rtcm_keys : List PairKey

abbrev pub init : ℕ → Scheduler
init limit = record {
  limit = limit;
  items = [];
  high_water = 0;
  queue_drops = 0;
  telemetry_replaced = 0;
  stale_rtcm_drops = 0;
  stale_rtcm_keys = [];
}

-- The key of `max` in `push`, compared: `a` is worse than `b`.
pub worse : WorkItem → WorkItem → Bool
worse a b = ltb (priority b) (priority a) || (priority a == priority b && ltb b.order a.order)

-- The key of `min` in `pop`, compared: `a` goes before `b`.
pub goes_before : WorkItem → WorkItem → Bool
goes_before a b =
    ltb (priority a) (priority b)
    || (priority a == priority b
        && (ltb a.created_at b.created_at || (a.created_at == b.created_at && ltb a.order b.order)))

-- `min` and `max` go through the items with the best one so far, which an equal one does not replace.
pub best_of {ℓ} : {A : Type ℓ} → (A → A → Bool) → ℕ × A → ℕ → List A → ℕ × A
best_of wins best i [] = best
best_of wins best i (x ∷ xs) = best_of wins (if wins x best.1 then (i, x) else best) (suc i) xs

-- `items.pop(index)`
pub remove_at {ℓ} : {A : Type ℓ} → ℕ → List A → List A
remove_at i [] = []
remove_at zero (x ∷ xs) = xs
remove_at (suc i) (x ∷ xs) = x ∷ remove_at i xs

-- `queued.frame.typ == TELEMETRY and queued.direction == item.direction`
pub is_replaced_by : WorkItem → WorkItem → Bool
is_replaced_by item queued =
    queued.frame.typ == telemetry && same_direction queued.direction item.direction

-- The loop over the queue of `push`: what is retained, and how many are replaced.
pub retain_others : WorkItem → List WorkItem → List WorkItem × ℕ
retain_others item [] = ([], 0)
retain_others item (queued ∷ items) =
    let rest = retain_others item items in
    if is_replaced_by item queued then (rest.0, rest.1 + 1) else (queued ∷ rest.0, rest.1)

pub replace_telemetry : WorkItem → Scheduler → Scheduler
replace_telemetry item s =
    if item.frame.typ == telemetry
    then record s {
      items = (retain_others item s.items).0;
      telemetry_replaced = s.telemetry_replaced + (retain_others item s.items).1;
    }
    else s

-- `self.items.append(item)` and the high water mark.
pub append_item : WorkItem → Scheduler → Scheduler
append_item item s = record s {
  items = s.items ++ (item ∷ []);
  high_water = max s.high_water (length s.items + 1);
}

-- The queue is full: the worst item, if it is there, makes room or stays.
pub push_full : WorkItem → List WorkItem → Scheduler → Result (Scheduler × Bool)
push_full item [] s = err (value_error "max() arg is an empty sequence")
push_full item (first ∷ items) s = do
  raise_if (not (all_have_priority (item ∷ first ∷ items))) key_error
  let worst = best_of worse (0, first) 1 items
  ok (
      if ltb (priority item) (priority worst.1)
      then (
        append_item item (record s {
          items = remove_at worst.0 (first ∷ items);
          queue_drops = s.queue_drops + 1;
        }),
        true,
      )
      else (record s { queue_drops = s.queue_drops + 1 }, false))

pub push_retained : WorkItem → Scheduler → Result (Scheduler × Bool)
push_retained item s =
    if leb s.limit (length s.items) then push_full item s.items s else ok (append_item item s, true)

pub push : WorkItem → Scheduler → Result (Scheduler × Bool)
push item s = push_retained item (replace_telemetry item s)

-- `item.frame.typ == RTCM_FRAGMENT and now - item.created_at > 0.900`
pub is_stale : ℕ → WorkItem → Bool
is_stale now item = item.frame.typ == rtcm_fragment && ltb (item.created_at + 900000) now

-- `set.add`
pub add_key : Option PairKey → List PairKey → List PairKey
add_key none keys = keys
add_key (some key) keys = if has_key keys key then keys else keys ++ (key ∷ [])
  where
    has_key : List PairKey → PairKey → Bool
    has_key [] key = false
    has_key (k ∷ keys) key = (k.0 == key.0 && k.1 == key.1) || has_key keys key

-- The loop of `pop` over the queue; the retained items are those of the result.
pub drop_stale : ℕ → List WorkItem → Scheduler → Scheduler
drop_stale now [] s = s
drop_stale now (item ∷ items) s = drop_stale now items (
    if is_stale now item
    then record s {
      stale_rtcm_drops = s.stale_rtcm_drops + 1;
      stale_rtcm_keys = add_key item.rtcm_key s.stale_rtcm_keys;
    }
    else record s { items = s.items ++ (item ∷ []) })

pub pop_first : List WorkItem → Scheduler → Result (Scheduler × Option WorkItem)
pop_first [] s = ok (s, none)
pop_first (first ∷ items) s = do
  raise_if (not (all_have_priority (first ∷ items))) key_error
  let best = best_of goes_before (0, first) 1 items
  ok (record s { items = remove_at best.0 (first ∷ items) }, some best.1)

pub pop : ℕ → Scheduler → Result (Scheduler × Option WorkItem)
pop now s =
    let fresh = drop_stale now s.items (record s { items = [] }) in pop_first fresh.items fresh
