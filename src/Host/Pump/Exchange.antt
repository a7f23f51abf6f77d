-- ===== src/Host/Pump/Exchange.antt =====
-- The reader of the RTCM source and the loop of the base service, one step after the other, with a
-- record of what the source has sent.
pub mod Reader
pub mod Stretches
use mowgli_lora_link.Prelude.{ℕ, List, [], ◌∷◌, ◌++◌, length, Bool, ltb, if◌then◌else◌}
use mowgli_lora_link.Host.Pump.{
  Pump, Item, start_input_session, receive, Action, reset_source, ingest, Consumer, adopt, consume,
  max_queue,
}

-- The reader starts a session or receives a chunk; the loop takes the first item, or handles the one
-- that it has taken, or finds that there was none in time.
pub data Event : Type 0 where
  session : Event
  received : List ℕ → ℕ → Event
  taken : Event
  finished_round : Event

-- The pump, the loop, and the item that the loop has taken and not yet handled. A stretch is what the
-- source has sent since a session began, or since a chunk found the queue full: the bytes that may be
-- parsed as one stream. This is the source's view, and says nothing of generations.
pub record System : Type 0 where
  pub pump : Pump
  pub consumer : Consumer
  pub held : List Item
  pub stretch : List (List ℕ)
  pub past : List (List (List ℕ))

take_next : Pump → List Item → Pump × List Item
take_next p [] = (p, [])
take_next p (item ∷ items) = (record p { queue = items }, item ∷ [])

-- The loop takes an item when it has handled the one before.
pub take_first : Pump → List Item → Pump × List Item
unfolding take_next
take_first p [] = take_next p p.queue
take_first p (item ∷ held) = (p, item ∷ held)

pub handle : Pump → List Item → Consumer → Consumer
handle p [] c = adopt p.generation c
handle p (item ∷ held) c = consume p.generation item c

pub begin_stretch : List (List ℕ) → System → System
begin_stretch chunks s = record s { stretch = chunks; past = s.stretch ∷ s.past }

pub sent : List ℕ → System → System
unfolding begin_stretch
sent raw s =
    if ltb (length s.pump.queue) max_queue
    then record s { stretch = s.stretch ++ (raw ∷ []) }
    else begin_stretch (raw ∷ []) s

pub step : Event → System → System
unfolding take_first handle begin_stretch sent
step session s = begin_stretch [] (record s { pump = start_input_session s.pump })
step (received raw at) s = record (sent raw s) { pump = receive raw at s.pump }
step taken s = let t = take_first s.pump s.held in record s { pump = t.0; held = t.1 }
step finished_round s = record s { consumer = handle s.pump s.held s.consumer; held = [] }

unfoldable pub run : List Event → System → System
unfolding step
run [] s = s
run (e ∷ events) s = run events (step e s)
