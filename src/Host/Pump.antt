-- ===== src/Host/Pump.antt =====
-- The hand-off between the reader of the RTCM source and the loop of the base service in
-- host/mowgli_lora/service.py: `_InputPump` and the routing in `_run_base`. The reader's methods run
-- one after the other; the loop takes items between them. Times are milliseconds.
pub mod Exchange
pub mod Splicing
mod Tests
use mowgli_lora_link.Prelude.{
  ℕ, zero, suc, ◌+◌, ◌-◌, List, [], ◌∷◌, ◌++◌, length, Bool, true, false, not, ◌==◌, ltb,
  if◌then◌else◌, Option, none, some, String,
}
use mowgli_lora_link.Prelude.Int.{ℤ, pos, negsuc}
use mowgli_lora_link.Host.Modem.{Update, add, put}

-- `Queue(maxsize=64)`
abbrev pub max_queue : ℕ
max_queue = 64

-- `_InputChunk`
pub record InputChunk : Type 0 where
  pub raw : List ℕ
  pub received_at : ℕ
  pub generation : ℕ

-- The items of the queue: `_InputChunk`, `_InputSessionStarted`, an exception, and None.
pub data Item : Type 0 where
  chunk : InputChunk → Item
  session_started : ℕ → Item
  failure : String → Item
  finished : Item

pub record Pump : Type 0 where
  pub queue : List Item
  pub connected : Bool
  pub last_data_at : Option ℕ
  pub generation : ℕ
  pub metrics : List Update

abbrev pub note : Update → Pump → Pump
note update p = record p { metrics = p.metrics ++ (update ∷ []) }

pub init : Pump
init = record {
  queue = [];
  connected = false;
  last_data_at = none;
  generation = 0;
  metrics = put "rtcm_source_connected" 0 ∷ [];
}

-- `_set_connected`
pub set_connected : Bool → Pump → Pump
set_connected connected p =
    note (put "rtcm_source_connected" (if connected then 1 else 0))
      (record p { connected = connected })

-- The value that `tick_metrics` sets: -1 before the first byte, and never negative after it.
pub data_age : Pump → ℕ → ℤ
data_age p now = elim p.last_data_at [ none ↦ negsuc 0 | some at ↦ pos (now - at) ]

-- `_next_generation`
pub next_generation : Pump → Pump
next_generation p = record p { generation = p.generation + 1 }

-- The chunks and the bytes that the loop of `_discard_queued_input` counts.
pub dropped_chunks : List Item → ℕ
dropped_chunks [] = 0
dropped_chunks (chunk c ∷ items) = suc (dropped_chunks items)
dropped_chunks (session_started g ∷ items) = dropped_chunks items
dropped_chunks (failure text ∷ items) = dropped_chunks items
dropped_chunks (finished ∷ items) = dropped_chunks items

pub dropped_bytes : List Item → ℕ
dropped_bytes [] = 0
dropped_bytes (chunk c ∷ items) = length c.raw + dropped_bytes items
dropped_bytes (session_started g ∷ items) = dropped_bytes items
dropped_bytes (failure text ∷ items) = dropped_bytes items
dropped_bytes (finished ∷ items) = dropped_bytes items

-- `_discard_queued_input`
pub discard_queued_input : Pump → Pump
unfolding dropped_chunks dropped_bytes
discard_queued_input p =
    let emptied : Pump = record p { queue = [] } in
    if dropped_chunks p.queue == 0
    then emptied
    else note (add "rtcm_source_handoff_bytes_dropped" (dropped_bytes p.queue))
        (note (add "rtcm_source_handoff_chunks_dropped" (dropped_chunks p.queue)) emptied)

-- `queue.put`
abbrev pub enqueue : Item → Pump → Pump
enqueue item p = record p { queue = p.queue ++ (item ∷ []) }

-- `_start_input_session` while the service runs: the queue is empty when the marker is put.
pub start_input_session : Pump → Pump
unfolding next_generation discard_queued_input
start_input_session p =
    let dropped = dropped_chunks p.queue in
    let discarded = discard_queued_input (next_generation p) in
    let counted =
      if dropped == 0 then discarded else note (add "rtcm_source_handoff_resets" 1) discarded in
    enqueue (session_started counted.generation) counted

-- `_put_fresh`
pub put_fresh : List ℕ → ℕ → Pump → Pump
unfolding next_generation discard_queued_input
put_fresh raw received_at p =
    if ltb (length p.queue) max_queue
    then enqueue
        (chunk (record { raw = raw; received_at = received_at; generation = p.generation })) p
    else (let discarded = discard_queued_input (next_generation p) in
        let counted = note (add "rtcm_source_handoff_resets" 1) discarded in
        let marked = enqueue (session_started counted.generation) counted in
        enqueue
          (chunk (record { raw = raw; received_at = received_at; generation = marked.generation }))
          marked)

-- A chunk that `_read` receives.
pub receive : List ℕ → ℕ → Pump → Pump
unfolding put_fresh
receive raw received_at p = put_fresh raw received_at (record p { last_data_at = some received_at })

-- What the loop of `_run_base` does to the service: `reset_source` and `ingest`, the latter with the
-- generation that the bytes belong to.
pub data Action : Type 0 where
  reset_source : Action
  ingest : ℕ → List ℕ → ℕ → Action

-- The loop's `active_generation`, and what it has done to the service, latest first.
pub record Consumer : Type 0 where
  pub active_generation : ℕ
  pub log : List Action
  pub metrics : List Update

-- `if current_generation != active_generation`
pub adopt : ℕ → Consumer → Consumer
adopt current c = if current == c.active_generation then c else record c {
  active_generation = current;
  log = reset_source ∷ c.log;
  metrics = c.metrics ++ (add "rtcm_source_parser_resets" 1 ∷ []);
}

-- The branches on the type of the item.
pub route : ℕ → Item → Consumer → Consumer
route current (chunk item) c =
    if item.generation == current
    then record c { log = ingest item.generation item.raw item.received_at ∷ c.log }
    else record c {
      metrics =
          c.metrics
          ++ (add "rtcm_source_handoff_chunks_superseded" 1
              ∷ add "rtcm_source_handoff_bytes_superseded" (length item.raw)
              ∷ []);
    }
route current (session_started generation) c =
    if generation == current
    then c
    else record c { metrics = c.metrics ++ (add "rtcm_source_handoff_markers_superseded" 1 ∷ []) }
route current (failure text) c = c
route current finished c = c

-- The loop takes an item, and later holds the lock of the pump for the rest of its round: the
-- generation that it reads may be newer than the item.
pub consume : ℕ → Item → Consumer → Consumer
unfolding adopt route
consume current item c = route current item (adopt current c)
