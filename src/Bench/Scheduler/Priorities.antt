-- ===== src/Bench/Scheduler/Priorities.antt =====
-- Queues of the bench in which every type has a priority.
use mowgli_lora_link.Prelude.{ℕ, ◌≡◌, refl, arith, List, [], ◌∷◌, ◌++◌, All, true}
use mowgli_lora_link.Bench.Scheduler.Choice.{All-remove_at}
use mowgli_lora_link.Bench.Scheduler.{WorkItem, has_priority, all_have_priority, remove_at}

all_have_priority-All :
    (items : List WorkItem)
    → all_have_priority items ≡ true
    → All (λ x. has_priority x ≡ true) items
unfolding all_have_priority
all_have_priority-All [] h = tt
all_have_priority-All (x ∷ items) h = (ground arith, all_have_priority-All items (ground arith))

All-all_have_priority :
    (items : List WorkItem)
    → All (λ x. has_priority x ≡ true) items
    → all_have_priority items ≡ true
unfolding all_have_priority
All-all_have_priority [] h = refl
All-all_have_priority (x ∷ items) h = rw (h.0, All-all_have_priority items h.1)

pub append_known :
    (item : WorkItem) (items : List WorkItem)
    → has_priority item ≡ true
    → all_have_priority items ≡ true
    → all_have_priority (items ++ (item ∷ [])) ≡ true
unfolding all_have_priority
append_known item [] h k = rw h
append_known item (x ∷ items) h k = ground (arith, append_known item items h)

pub cons_known :
    (item : WorkItem) (items : List WorkItem)
    → has_priority item ≡ true
    → all_have_priority items ≡ true
    → all_have_priority (item ∷ items) ≡ true
unfolding all_have_priority
cons_known item items h k = rw (h, k)

pub remove_known :
    (i : ℕ) (items : List WorkItem)
    → all_have_priority items ≡ true
    → all_have_priority (remove_at i items) ≡ true
remove_known i items h =
    All-all_have_priority (remove_at i items)
      (All-remove_at (λ x. has_priority x ≡ true) items i (all_have_priority-All items h))
