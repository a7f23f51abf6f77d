-- ===== src/Host/Output.antt =====
-- `TcpRtcmOutput` and `_QueuedRtcmOutput` of host/mowgli_lora/service.py. A client is a number. What
-- the sockets do is passed in: the clients that `accept` returns until it would block, and the result
-- of each `send`. Times are milliseconds.
pub mod Invariant
pub mod Bounds
pub mod Delivery
mod Tests
use mowgli_lora_link.Prelude.{
  ℕ, zero, suc, ◌+◌, ◌-◌, ◌*◌, List, [], ◌∷◌, ◌++◌, length, drop, Bool, true, false, not, ◌&&◌,
  ◌||◌, ◌==◌, ltb, leb, if◌then◌else◌, Option, none, some, String,
}
use mowgli_lora_link.Dict.{num_key, Dict, lookup, insert, remove}
use mowgli_lora_link.Application.Rtcm.{max_rtcm_frame_size}
use mowgli_lora_link.Application.Reassembler.{transport_ttl}
use mowgli_lora_link.Host.Modem.{Update, add, put}

abbrev pub max_clients : ℕ
max_clients = 16

abbrev pub max_queue_bytes : ℕ
max_queue_bytes = 64 * max_rtcm_frame_size

abbrev pub max_queue_frames : ℕ
max_queue_frames = 64

-- `_QueuedRtcmOutput`
pub record Queued : Type 0 where
  pub raw : List ℕ
  pub enqueued_at : ℕ
  pub offset : ℕ

abbrev pub remaining : Queued → ℕ
remaining q = length q.raw - q.offset

-- The socket takes a number of bytes, would block, or raises another OSError.
pub data SendResult : Type 0 where
  took : ℕ → SendResult
  would_block : SendResult
  socket_error : SendResult

pub record Output : Type 0 where
  pub clients : Dict ℕ (List Queued)
  pub metrics : List Update

abbrev pub init : Output
init = record { clients = []; metrics = [] }

abbrev pub note : Update → Output → Output
note update o = record o { metrics = o.metrics ++ (update ∷ []) }

-- `_accept`, with the clients that wait.
pub accept : List ℕ → Output → Output
accept [] o = o
accept (client ∷ waiting) o =
    let next =
      if leb max_clients (length o.clients)
      then note (add "rtcm_tcp_clients_rejected_limit" 1) o
      else note (add "rtcm_tcp_clients_connected" 1)
          (record o { clients = insert client [] o.clients }) in
    accept waiting next

-- `_queued_bytes`
pub queued_bytes : List Queued → ℕ
queued_bytes [] = 0
queued_bytes (q ∷ frames) = remaining q + queued_bytes frames

-- `self.clients.pop(client, ())`
pub frames_of : ℕ → Output → List Queued
frames_of client o = elim (lookup client o.clients) [ none ↦ [] | some frames ↦ frames ]

-- `_drop`; the name of the counter ends in the reason.
pub drop_client : ℕ → String → Output → Output
unfolding frames_of queued_bytes
drop_client client dropped o =
    note (add "rtcm_tcp_client_bytes_abandoned" (queued_bytes (frames_of client o)))
      (note (add dropped 1) (record o { clients = remove client o.clients }))

-- `now - frames[0].enqueued_at >= self.CLIENT_QUEUE_TTL_S`
abbrev pub is_stale : ℕ → Queued → Bool
is_stale now q = leb (q.enqueued_at + transport_ttl) now

-- `pending.offset += sent`, and the frame leaves the queue when it is sent to its end.
pub advance : ℕ → Queued → List Queued → List Queued
advance sent pending frames =
    let pending' : Queued = record pending { offset = pending.offset + sent } in
    if pending'.offset == length pending.raw then frames else pending' ∷ frames

-- The branches on the result of `send`.
pub after_send : ℕ → Queued → List Queued → SendResult → Output → Output
unfolding drop_client advance
after_send client pending frames would_block o = o
after_send client pending frames socket_error o =
    drop_client client "rtcm_tcp_client_dropped_socket_error" o
after_send client pending frames (took zero) o =
    drop_client client "rtcm_tcp_client_dropped_closed" o
after_send client pending frames (took (suc n)) o =
    note (add "rtcm_tcp_bytes_sent" (suc n))
      (record o { clients = insert client (advance (suc n) pending frames) o.clients })

-- The loop of `flush` over the copy of the clients.
pub flush_each : (ℕ → List ℕ → SendResult) → ℕ → Dict ℕ (List Queued) → Output → Output
unfolding drop_client after_send
flush_each send now [] o = o
flush_each send now ((client, []) ∷ rest) o = flush_each send now rest o
flush_each send now ((client, pending ∷ frames) ∷ rest) o =
    let next =
      if is_stale now pending
      then drop_client client "rtcm_tcp_client_dropped_stale" o
      else after_send client pending frames (send client (drop pending.offset pending.raw)) o in
    flush_each send now rest next

pub all_bytes : Dict ℕ (List Queued) → ℕ
unfolding queued_bytes
all_bytes [] = 0
all_bytes ((client, frames) ∷ rest) = queued_bytes frames + all_bytes rest

pub flush : List ℕ → (ℕ → List ℕ → SendResult) → ℕ → Output → Output
unfolding accept flush_each all_bytes
flush waiting send now o =
    let accepted = accept waiting o in
    let flushed = flush_each send now accepted.clients accepted in
    note (put "rtcm_tcp_client_queue_bytes" (all_bytes flushed.clients)) flushed

-- The first frame of the queue, if there is one, is stale.
pub head_is_stale : ℕ → List Queued → Bool
head_is_stale now [] = false
head_is_stale now (q ∷ frames) = is_stale now q

-- The loop of `publish` over the copy of the clients: the output, and how many queues took the frame.
pub publish_each : List ℕ → ℕ → Dict ℕ (List Queued) → Output → Output × ℕ
unfolding head_is_stale drop_client queued_bytes
publish_each raw now [] o = (o, 0)
publish_each raw now ((client, frames) ∷ rest) o =
    let stale = publish_each raw now rest (drop_client client "rtcm_tcp_client_dropped_stale" o) in
    let slow = publish_each raw now rest (drop_client client "rtcm_tcp_client_dropped_slow" o) in
    let fresh : Queued = record { raw = raw; enqueued_at = now; offset = 0 } in
    let took = publish_each raw now rest (
      note (add "rtcm_tcp_bytes_queued" (length raw))
        (record o { clients = insert client (frames ++ (fresh ∷ [])) o.clients })) in
    if head_is_stale now frames
    then stale
    else if leb max_queue_frames (length frames)
        || ltb max_queue_bytes (queued_bytes frames + length raw)
    then slow
    else (took.0, took.1 + 1)

-- `publish`; `later` are the clients that the `_accept` of its `flush` finds.
pub publish : List ℕ → List ℕ → (ℕ → List ℕ → SendResult) → List ℕ → ℕ → Output → Output × ℕ
unfolding accept publish_each flush
publish waiting later send raw now o =
    let accepted = accept waiting o in
    let published = publish_each raw now accepted.clients accepted in
    (flush later send now published.0, published.1)
