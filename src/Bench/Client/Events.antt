-- ===== src/Bench/Client/Events.antt =====
-- Which frames of the inbox an operation of the bench's client takes.
use mowgli_lora_link.Prelude.{
  ◌≡◌, refl, List, [], ◌∷◌, ◌++◌, All, Bool, true, false, not, ◌&&◌, Bool-cases, inl, inr, Option,
  none, some, ap, ◌+◌, ℕ, if_cases,
}
use mowgli_lora_link.Protocol.Frame.{Frame}
use mowgli_lora_link.Bench.Client.{
  ModemClient, Port, poll, pop_match, select, is_radio, take_popped, take_radio_event, events,
}

-- The first frame of the list that passes the test is taken out; none is if no frame passes it.
pub data Taken (test : Frame → Bool) (frames : List Frame)
    : List Frame → Option Frame → Type 0 where
  nothing : All (λ f. test f ≡ false) frames → Taken test frames frames none
  one :
      (before : List Frame) (frame : Frame) (rest : List Frame)
      → frames ≡ before ++ (frame ∷ rest)
      → All (λ f. test f ≡ false) before
      → test frame ≡ true
      → Taken test frames (before ++ rest) (some frame)

-- What `pop_match` says of the list.
abbrev pub Popped : (Frame → Bool) → List Frame → Option (Frame × List Frame) → Type 0
Popped test frames none = Taken test frames frames none
Popped test frames (some (frame, left)) = Taken test frames left (some frame)

pop_behind :
    (test : Frame → Bool) (x : Frame) (frames left : List Frame) (taken : Option Frame)
    → test x ≡ false
    → Taken test frames left taken
    → Taken test (x ∷ frames) (x ∷ left) taken
pop_behind test x frames left none e (nothing h) = nothing (e, h)
pop_behind test x frames left (some f) e (one before g rest split h k) =
    one (x ∷ before) g rest (ap (λ l. x ∷ l) split) (e, h) k

pub pop_match-Popped :
    (test : Frame → Bool) (frames : List Frame) → Popped test frames (pop_match test frames)
unfolding pop_match
pop_match-Popped test [] = nothing tt
pop_match-Popped test (x ∷ frames) =
    if_cases (Popped test (x ∷ frames)) (test x) _ _ (λ e. one [] x frames refl tt e)
      (λ e. behind_popped (pop_match test frames) e (pop_match-Popped test frames))
  where
    behind_popped :
        (r : Option (Frame × List Frame))
        → test x ≡ false
        → Popped test frames r
        → Popped test (x ∷ frames) (elim r [ none ↦ none | some p ↦ some (p.0, x ∷ p.1) ])
    behind_popped none e h = pop_behind test x frames frames none e h
    behind_popped (some (f, left)) e h = pop_behind test x frames left (some f) e h

-- The order of both lists is that of the whole one, whose frames go to the first list if they pass
-- the test and to the second one if not.
pub data Divided (test : Frame → Bool) : List Frame → List Frame → List Frame → Type 0 where
  end : Divided test [] [] []
  passes :
      (f : Frame) (fs yes others : List Frame)
      → test f ≡ true
      → Divided test fs yes others
      → Divided test (f ∷ fs) (f ∷ yes) others
  fails :
      (f : Frame) (fs yes others : List Frame)
      → test f ≡ false
      → Divided test fs yes others
      → Divided test (f ∷ fs) yes (f ∷ others)

pub select-Divided :
    (test : Frame → Bool) (frames : List Frame)
    → Divided test frames (select test frames) (select (λ f. not (test f)) frames)
unfolding select
select-Divided test [] = end
select-Divided test (x ∷ frames) = elim (Bool-cases (test x)) [
  | inl e ↦ rw e (passes x frames _ _ e (select-Divided test frames))
  | inr e ↦ rw e (fails x frames _ _ e (select-Divided test frames))
]

-- The frame that is taken is counted.
abbrev pub matched : ℕ → Option Frame → ℕ
matched n none = n
matched n (some frame) = n + 1

take_popped-Taken :
    (test : Frame → Bool) (c : ModemClient) (r : Option (Frame × List Frame))
    → Popped test c.inbox r
    → let (c', taken) = take_popped c r in
      Taken test c.inbox c'.inbox taken
      × (c'.counters.radio_rx_events_matched ≡ matched c.counters.radio_rx_events_matched taken)
unfolding take_popped
take_popped-Taken test c none h = (h, refl)
take_popped-Taken test c (some (frame, left)) h = (h, refl)

module _ {W : Type 0} (port : Port W) where
  -- `take_radio_event` takes the first RADIO_RX frame of the polled inbox that the predicate accepts,
  -- if there is one, and keeps all other frames in their order. It counts the frame.
  pub take_radio_event-Taken :
      (predicate : Frame → Bool) (c : ModemClient) (w : W)
      → let polled = (poll port c w).0 in
        let (c', w', taken) = take_radio_event port predicate c w in
        Taken (λ f. is_radio f && predicate f) polled.inbox c'.inbox taken
        × (c'.counters.radio_rx_events_matched
            ≡ matched polled.counters.radio_rx_events_matched taken)
  unfolding take_radio_event
  take_radio_event-Taken predicate c w =
      let test : Frame → Bool = λ f. is_radio f && predicate f in
      let polled = (poll port c w).0 in
      take_popped-Taken test polled (pop_match test polled.inbox)
        (pop_match-Popped test polled.inbox)

  -- `events` gives the RADIO_RX frames of the polled inbox in their order, and keeps the others in
  -- theirs.
  pub events-Divided :
      (c : ModemClient) (w : W)
      → let (c', w', given) = events port c w in
        Divided is_radio (poll port c w).0.inbox given c'.inbox
  unfolding events
  events-Divided c w = select-Divided is_radio (poll port c w).0.inbox
