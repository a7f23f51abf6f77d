-- ===== src/Bench/Scheduler/Tests.antt =====
-- Concrete runs of the bench's queue.
use mowgli_lora_link.Prelude.{
  ℕ, List, [], ◌∷◌, ◌≡◌, refl, true, Option, none, ok, ◌+◌, err, value_error, arith, length,
}
use mowgli_lora_link.Application.StopCache.{stop_request}
use mowgli_lora_link.Application.Rtcm.{rtcm_fragment}
use mowgli_lora_link.Bench.Scheduler.Bounds.{
  Operation, offer, serve, Tally, run, IsAccounted, run-IsAccounted,
}
use mowgli_lora_link.Bench.Scheduler.Order.{pop-Chosen, Chosen, fresh_items, SameCounts}
use mowgli_lora_link.Bench.Scheduler.{
  WorkItem, Scheduler, Direction, base_to_robot, robot_to_base, init, push, pop, priority,
  has_priority, all_have_priority, worse, goes_before, best_of, remove_at, is_replaced_by,
  retain_others, replace_telemetry, append_item, push_full, push_retained, is_stale, add_key,
  drop_stale, pop_first, telemetry,
}

abbrev item : ℕ → Direction → ℕ → ℕ → WorkItem
item typ direction created_at order = record {
  frame = record {
    typ = typ;
    sender_session = 1;
    message_id = order;
    source_age_ms = 0;
    body = [];
  };
  direction = direction;
  created_at = created_at;
  order = order;
  rtcm_key = none;
}

-- Two RTCM fragments, then STOP, in a queue of two.
abbrev fragments_and_stop : List Operation
fragments_and_stop =
    offer (item rtcm_fragment base_to_robot 0 1)
    ∷ offer (item rtcm_fragment base_to_robot 10 2)
    ∷ offer (item stop_request base_to_robot 20 3)
    ∷ offer (item telemetry robot_to_base 30 4)
    ∷ serve 40
    ∷ serve 1000000
    ∷ []

abbrev small : Tally
small = record { scheduler = init 2; offered = 0; served = 0 }

-- STOP takes the place of the second fragment and telemetry that of the first.
stop_makes_room :
    run fragments_and_stop small
    ≡ ok (record {
      scheduler = record (init 2) { high_water = 2; queue_drops = 2 };
      offered = 4;
      served = 2;
    })
unfolding run push push_retained push_full replace_telemetry retain_others is_replaced_by
    append_item all_have_priority has_priority priority worse goes_before best_of remove_at pop
    pop_first drop_stale is_stale add_key
stop_makes_room = refl

small-IsAccounted : IsAccounted small
unfolding all_have_priority
small-IsAccounted = record {
  known = refl;
  positive = omega arith;
  bounded = omega arith;
  reached = omega arith;
  high_water = omega arith;
  accounted = refl;
}

run-IsAccounted_example : (t' : Tally) × (run fragments_and_stop small ≡ ok t') × IsAccounted t'
unfolding has_priority
run-IsAccounted_example =
    run-IsAccounted fragments_and_stop small (refl, (refl, (refl, (refl, (tt, (tt, tt))))))
      small-IsAccounted

abbrev two : Scheduler
two = record (init 2) {
  items = item rtcm_fragment base_to_robot 0 1 ∷ item telemetry robot_to_base 10 2 ∷ [];
  high_water = 2;
}

two_known : all_have_priority two.items ≡ true
unfolding all_have_priority
two_known = refl

pop-Chosen_example :
    (s' : Scheduler) × (r : Option WorkItem) × (pop 50 two ≡ ok (s', r))
    × Chosen (fresh_items 50 two.items) s' r
    × SameCounts two s'
    × (s'.stale_rtcm_drops + length (fresh_items 50 two.items)
        ≡ two.stale_rtcm_drops + length two.items)
    × (all_have_priority s'.items ≡ true)
pop-Chosen_example = pop-Chosen 50 two two_known

-- `max` has nothing to choose from in a queue without room for any item.
no_room :
    push (item stop_request base_to_robot 20 3) (init 0)
    ≡ err (value_error "max() arg is an empty sequence")
unfolding push push_retained push_full replace_telemetry
no_room = refl
