-- ===== src/Host/Recording/Replays.antt =====
-- What `main_replay` writes, and how long it sleeps.
use mowgli_lora_link.Prelude.{
  ℕ, ◌-◌, none, suc, ◌+◌, ◌%◌, ◌≤◌, ◌≡◌, refl, ◌∙◌, ap, arith, List, [], ◌∷◌, ◌++◌, some, ◌==◌,
  if◌then◌else◌, Bool-cases, inl, inr,
}
use mowgli_lora_link.Host.Recording.{
  Record, Action, pause, emit, emission, replay_loop, replay, records,
}

-- What is written, and how many nanoseconds are slept at speed 1.
pub written : List Action → List (List ℕ)
written [] = []
written (pause gap ∷ actions) = written actions
written (emit raw ∷ actions) = raw ∷ written actions

pub slept : List Action → ℕ
slept [] = 0
slept (pause gap ∷ actions) = gap + slept actions
slept (emit raw ∷ actions) = slept actions

-- The times of the first and of the last record, and by how much times go back between them.
pub first_time : List Record → ℕ
first_time [] = 0
first_time (r ∷ rs) = r.timestamp_ns

pub last_time : ℕ → List Record → ℕ
last_time previous [] = previous
last_time previous (r ∷ rs) = last_time r.timestamp_ns rs

pub set_back : ℕ → List Record → ℕ
set_back previous [] = 0
set_back previous (r ∷ rs) = (previous - r.timestamp_ns) + set_back r.timestamp_ns rs

-- The record of one place.
pub survivor : ℕ → ℕ → Record → List (List ℕ) → List (List ℕ)
survivor drop_every index r rest =
    if drop_every == 0
    then r.raw ∷ rest
    else (if index % drop_every == 0 then rest else r.raw ∷ rest)

-- The records whose place, counted from `index`, is no multiple of `drop_every`; all if that is 0.
pub surviving : ℕ → ℕ → List Record → List (List ℕ)
unfolding survivor
surviving drop_every index [] = []
surviving drop_every index (r ∷ rs) =
    survivor drop_every index r (surviving drop_every (suc index) rs)

emission_lem :
    (drop_every index : ℕ) (r : Record) (actions : List Action)
    → (written (emission drop_every index r ++ actions)
        ≡ survivor drop_every index r (written actions))
      × (slept (emission drop_every index r ++ actions) ≡ slept actions)
unfolding emission survivor
emission_lem drop_every index r actions = elim (Bool-cases (drop_every == 0)) [
  | inl e ↦ unfold written slept in rw e (refl, refl)
  | inr e ↦ elim (Bool-cases (index % drop_every == 0)) [
    | inl e' ↦ unfold written slept in rw (e, e') (refl, refl)
    | inr e' ↦ unfold written slept in rw (e, e') (refl, refl)
  ]
]

replay_loop_lem :
    (drop_every index previous : ℕ) (rs : List Record)
    → let actions = replay_loop drop_every index (some previous) rs in
      (written actions ≡ surviving drop_every index rs)
      × (previous + slept actions ≡ last_time previous rs + set_back previous rs)
unfolding replay_loop surviving last_time set_back written slept
replay_loop_lem drop_every index previous [] = (refl, omega arith)
replay_loop_lem drop_every index previous (r ∷ rs) =
    let actions = replay_loop drop_every (suc index) (some r.timestamp_ns) rs in
    let (same, none_slept) = emission_lem drop_every index r actions in
    let (rest, time) = replay_loop_lem drop_every (suc index) r.timestamp_ns rs in
    (same ∙ ap (survivor drop_every index r) rest, omega (arith, none_slept, time))

replay_list :
    (drop_every : ℕ) (rs : List Record)
    → let actions = replay_loop drop_every 1 none rs in
      (written actions ≡ surviving drop_every 1 rs)
      × (first_time rs + slept actions ≡ last_time (first_time rs) rs + set_back (first_time rs) rs)
unfolding replay_loop surviving first_time last_time set_back written slept
replay_list drop_every [] = (refl, refl)
replay_list drop_every (first ∷ rs) =
    let actions = replay_loop drop_every 2 (some first.timestamp_ns) rs in
    let (same, none_slept) = emission_lem drop_every 1 first actions in
    let (rest, time) = replay_loop_lem drop_every 2 first.timestamp_ns rs in
    (same ∙ ap (survivor drop_every 1 first) rest, omega (arith, none_slept, time))

-- Whatever the file holds, a replay writes those of its records whose place is no multiple of
-- `drop_every`, counted from 1, or all of them if that is 0, in order and byte for byte, and passes the
-- exception of the file on. The sleeps add up to the last time less the first, and what the times go
-- back between them, which is 0 in a file whose times do not.
pub replay_lem :
    (drop_every : ℕ) (bytes : List ℕ)
    → let (actions, ended) = replay drop_every bytes in
      let given = (records bytes).given in
      (written actions ≡ surviving drop_every 1 given)
      × (first_time given + slept actions
          ≡ last_time (first_time given) given + set_back (first_time given) given)
      × (ended ≡ (records bytes).ended)
unfolding replay
replay_lem drop_every bytes =
    let (same, time) = replay_list drop_every (records bytes).given in (same, time, refl)

-- No time is earlier than the one before.
pub Ascending : ℕ → List Record → Type 0
Ascending previous [] = Unit
Ascending previous (r ∷ rs) = (previous ≤ r.timestamp_ns) × Ascending r.timestamp_ns rs

-- Times that do not go back are set back by 0.
pub set_back-Ascending :
    (previous : ℕ) (rs : List Record) → Ascending previous rs → set_back previous rs ≡ 0
unfolding set_back Ascending
set_back-Ascending previous [] h = refl
set_back-Ascending previous (r ∷ rs) h =
    omega (arith, h.0, set_back-Ascending r.timestamp_ns rs h.1)
