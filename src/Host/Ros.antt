-- ===== src/Host/Ros.antt =====
-- `RtcmTcpReader`, `populate_rtcm_message` and the timer callback of host/mowgli_lora/mowgli_ros.py.
-- The calls of the reading thread and of the timer run one after the other; the socket's bytes and the
-- clocks are passed in. Times are milliseconds.
pub mod Freshness
pub mod Window
pub mod Sessions
mod Tests
use mowgli_lora_link.Prelude.{
  ℕ, zero, suc, ◌+◌, List, [], ◌∷◌, ◌++◌, length, Bool, true, false, ◌&&◌, ltb, leb, if◌then◌else◌,
  Result, ok, ◌>>=◌,
}
use mowgli_lora_link.Application.Reassembler.{transport_ttl}
use mowgli_lora_link.Host.Parser.{Parser, RtcmFrame, feed}
use mowgli_lora_link.Host.Parser

-- `universal_gnss_ros2/RtcmFrame`
pub record Message {ℓ} (Stamp : Type ℓ) : Type ℓ where
  pub stamp : Stamp
  pub message_type : ℕ
  pub data_bytes : List ℕ

pub populate_rtcm_message {ℓ} : {Stamp : Type ℓ} → RtcmFrame → Stamp → Message Stamp
populate_rtcm_message frame stamp = record {
  stamp = stamp;
  message_type = frame.message_type;
  data_bytes = frame.raw;
}

-- The reader, with the parser of the connection that its thread reads.
pub record Reader : Type 0 where
  pub queue_size : ℕ
  pub frames : List RtcmFrame
  pub parser : Parser
  pub frames_received : ℕ
  pub frames_dropped : ℕ
  pub connect_failures : ℕ

pub init : ℕ → Reader
unfolding Parser.init
init queue_size = record {
  queue_size = queue_size;
  frames = [];
  parser = Parser.init;
  frames_received = 0;
  frames_dropped = 0;
  connect_failures = 0;
}

-- `now - frame.received_at >= RTCM_TRANSPORT_TTL_MS / 1000`
pub is_stale : ℕ → RtcmFrame → Bool
is_stale now frame = leb (frame.received_at + transport_ttl) now

-- What the loop of `take` leaves in the queue, drops and gives.
pub record Taken : Type 0 where
  pub left : List RtcmFrame
  pub dropped : ℕ
  pub output : List RtcmFrame

pub take_loop : ℕ → ℕ → List RtcmFrame → Taken
take_loop zero now frames = record { left = frames; dropped = 0; output = [] }
take_loop (suc limit) now [] = record { left = []; dropped = 0; output = [] }
take_loop (suc limit) now (frame ∷ frames) =
    let rest = take_loop limit now frames in
    if is_stale now frame
    then record rest { dropped = rest.dropped + 1 }
    else record rest { output = frame ∷ rest.output }

-- `take`
pub take_fresh : ℕ → ℕ → Reader → Reader × List RtcmFrame
take_fresh limit now r =
    let taken = take_loop limit now r.frames in
    (
      record r { frames = taken.left; frames_dropped = r.frames_dropped + taken.dropped },
      taken.output,
    )

-- `_drop_queued_frames`
pub drop_queued_frames : Reader → Reader
drop_queued_frames r = record r { frames = []; frames_dropped = r.frames_dropped + length r.frames }

-- `Queue.full`: a queue of size 0 is never full.
abbrev pub is_full : ℕ → List RtcmFrame → Bool
is_full size frames = ltb 0 size && leb size (length frames)

-- `get_nowait`, with nothing to get from an empty queue.
pub without_oldest : List RtcmFrame → List RtcmFrame
without_oldest [] = []
without_oldest (frame ∷ frames) = frames

-- `_put_fresh`
pub put_fresh : RtcmFrame → Reader → Reader
put_fresh frame r =
    if is_full r.queue_size r.frames
    then record r {
      frames = without_oldest r.frames ++ (frame ∷ []);
      frames_dropped = r.frames_dropped + 1;
    }
    else record r { frames = r.frames ++ (frame ∷ []) }

-- The loop over the frames that the parser gives.
pub put_all : List RtcmFrame → Reader → Reader
put_all [] r = r
put_all (frame ∷ frames) r =
    let put = put_fresh frame r in
    put_all frames (record put { frames_received = put.frames_received + 1 })

-- What the thread meets in `_run`: the start of a round; a chunk that is not empty, or an empty one or
-- a stop; an `OSError`, before or after the first byte.
pub data Event : Type 0 where
  connecting : Event
  received : List ℕ → ℕ → Event
  ended : Event
  failed : Event

pub step : Event → Reader → Result Reader
step connecting r = ok (drop_queued_frames (record r { parser = Parser.init }))
step (received chunk at) r = do
  fed ← feed r.parser chunk at
  ok (put_all fed.1 (record r { parser = fed.0 }))
step ended r = ok (drop_queued_frames r)
step failed r = ok (drop_queued_frames (record r { connect_failures = r.connect_failures + 1 }))

-- `publish_pending`: the messages, and the count `published`. `now` is the clock of the reader and
-- `stamps` the clock of the node at each message.
pub publish_each {ℓ} :
    {Stamp : Type ℓ} → (ℕ → Stamp) → List RtcmFrame → ℕ → List (Message Stamp) × ℕ
publish_each stamps [] published = ([], published)
publish_each stamps (frame ∷ frames) published =
    let rest = publish_each stamps frames (published + 1) in
    (populate_rtcm_message frame (stamps published) ∷ rest.0, rest.1)

pub publish_pending {ℓ} :
    {Stamp : Type ℓ} → (ℕ → Stamp) → ℕ → Reader → ℕ → Reader × List (Message Stamp) × ℕ
publish_pending stamps now r published =
    let taken = take_fresh 64 now r in
    let sent = publish_each stamps taken.1 published in (taken.0, sent.0, sent.1)
