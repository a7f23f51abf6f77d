-- ===== src/Host/Base.antt =====
-- `BaseService` of host/mowgli_lora/service.py, over the parser, the fragmentation and the transport.
-- The metrics are the updates that the service itself makes. Times are milliseconds; no frame is
-- stamped later than the `now` of a call.
pub mod Steps
pub mod Queue
use mowgli_lora_link.Prelude.{
  ℕ, zero, suc, ◌+◌, ◌-◌, min, List, [], ◌∷◌, ◌++◌, length, drop, Bool, true, false, not, ◌&&◌,
  ◌==◌, ltb, leb, if◌then◌else◌, Option, none, some, Result, ok, err, ◌>>=◌,
}
use mowgli_lora_link.Application.Codec.{Frame, encode}
use mowgli_lora_link.Application.Rtcm.{fragment}
use mowgli_lora_link.Application.Reassembler.{transport_ttl}
use mowgli_lora_link.Host.Parser.{Parser, RtcmFrame, feed}
use mowgli_lora_link.Host.Parser
use mowgli_lora_link.Host.Modem.{
  Port, Transport, Update, add, add_numbered, put, Tx, sent, not_sent, uncertain, Outcome, returned,
  raised, application_failure,
}
use mowgli_lora_link.Host.Modem.Session.{ready_for_send, send_air, take_tx_outcomes}
use mowgli_lora_link.Host.Modem.Tick.{copies, tick}

abbrev pub max_queued_rtcm_frames : ℕ
max_queued_rtcm_frames = 128

-- A fragment, and the time that its frame was received at.
abbrev pub Waiting : Type 0
Waiting = Frame × ℕ

pub record BaseService (W : Type 0) : Type 0 where
  pub transport : Transport W
  pub parser : Parser
  pub queue : List RtcmFrame
  pub fragments : List Waiting
  pub input_rate : List (ℕ × ℕ × ℕ)
  pub lora_rate : List (ℕ × ℕ)
  pub in_flight : Option ℕ
  pub session : ℕ
  pub message_id : ℕ
  pub metrics : List Update

-- The loops of `_update_rates`: the entries that are a second old leave at the front.
pub recent_input : ℕ → List (ℕ × ℕ × ℕ) → List (ℕ × ℕ × ℕ)
recent_input now [] = []
recent_input now (item ∷ items) =
    let rest = recent_input now items in if leb (item.0 + 1000) now then rest else item ∷ items

pub recent_lora : ℕ → List (ℕ × ℕ) → List (ℕ × ℕ)
recent_lora now [] = []
recent_lora now (item ∷ items) =
    let rest = recent_lora now items in if leb (item.0 + 1000) now then rest else item ∷ items

pub input_bytes : List (ℕ × ℕ × ℕ) → ℕ
input_bytes [] = 0
input_bytes (item ∷ items) = item.1 + input_bytes items

pub input_frames : List (ℕ × ℕ × ℕ) → ℕ
input_frames [] = 0
input_frames (item ∷ items) = item.2 + input_frames items

pub lora_bytes : List (ℕ × ℕ) → ℕ
lora_bytes [] = 0
lora_bytes (item ∷ items) = item.1 + lora_bytes items

-- `int(self.in_flight is not None)`
pub flying : Option ℕ → ℕ
flying none = 0
flying (some sequence) = 1

-- The age of the older one of the first frame and the first fragment, or 0.
pub oldest_age : ℕ → List RtcmFrame → List Waiting → ℕ
oldest_age now [] [] = 0
oldest_age now [] (w ∷ fragments) = now - w.1
oldest_age now (frame ∷ queue) [] = now - frame.received_at
oldest_age now (frame ∷ queue) (w ∷ fragments) = now - min frame.received_at w.1

module _ {W : Type 0} where
  abbrev pub note : Update → BaseService W → BaseService W
  note update s = record s { metrics = s.metrics ++ (update ∷ []) }

  -- `_update_rates`
  pub update_rates : ℕ → BaseService W → BaseService W
  update_rates now s =
      let input = recent_input now s.input_rate in
      let lora = recent_lora now s.lora_rate in
      note (put "lora_application_bytes_per_second" (lora_bytes lora)) (
        note (put "rtcm_input_frames_per_second" (input_frames input)) (
          note (put "rtcm_input_bytes_per_second" (input_bytes input))
            (record s { input_rate = input; lora_rate = lora })))

  -- `_update_queue_metrics`
  pub update_queue_metrics : ℕ → BaseService W → BaseService W
  update_queue_metrics now s =
      note (put "rtcm_oldest_queued_age_ms" (oldest_age now s.queue s.fragments)) (
        note (put "rtcm_fragment_in_flight" (flying s.in_flight)) (
          note (put "rtcm_fragment_queue_depth" (length s.fragments))
            (note (put "rtcm_queue_depth" (length s.queue)) s)))

  -- `self.queue.popleft()` where the queue has grown beyond its bound.
  pub bound_queue : BaseService W → BaseService W
  bound_queue s =
      if ltb max_queued_rtcm_frames (length s.queue)
      then note (add "rtcm_frames_dropped_queue_full" 1) (record s { queue = drop 1 s.queue })
      else s

  -- The loop of `ingest`.
  pub enqueue_all : List RtcmFrame → BaseService W → BaseService W
  enqueue_all [] s = s
  enqueue_all (frame ∷ frames) s = enqueue_all frames (
      note (add_numbered "rtcm_type_" frame.message_type 1) (
        note (add "rtcm_frames_ingested" 1)
          (bound_queue (record s { queue = s.queue ++ (frame ∷ []) }))))

  -- The metrics at the end of `ingest`.
  pub measure : ℕ → BaseService W → BaseService W
  measure now s =
      update_rates now
        (note (put "rtcm_crc_failures" s.parser.stats.crc_failures) (update_queue_metrics now s))

  -- `ingest`: the service, and the number of frames.
  pub ingest : List ℕ → ℕ → BaseService W → Result (BaseService W × ℕ)
  ingest chunk now s = do
    fed ← feed s.parser chunk now
    let frames = fed.1
    let started : BaseService W = record s {
      parser = fed.0;
      input_rate = s.input_rate ++ ((now, length chunk, length frames) ∷ []);
    }
    let queued = enqueue_all frames (note (add "rtcm_input_bytes" (length chunk)) started)
    ok (measure now queued, length frames)

  -- `if self.queue` and `if self.fragments` of `reset_source`
  pub clear_queue : BaseService W → BaseService W
  clear_queue s =
      if length s.queue == 0
      then s
      else record (note (add "rtcm_frames_dropped_source_reset" (length s.queue)) s) { queue = [] }

  pub clear_fragments : BaseService W → BaseService W
  clear_fragments s =
      if length s.fragments == 0
      then s
      else record (note (add "rtcm_fragments_dropped_source_reset" (length s.fragments)) s) {
        fragments = [];
      }

  -- `reset_source`
  pub reset_source : BaseService W → BaseService W
  reset_source s = clear_fragments (clear_queue (record s { parser = Parser.reset s.parser }))

  -- `idle`
  pub is_idle : BaseService W → Bool
  is_idle s = length s.queue == 0 && (length s.fragments == 0 && flying s.in_flight == 0)
