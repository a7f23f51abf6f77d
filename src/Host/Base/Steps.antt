-- ===== src/Host/Base/Steps.antt =====
-- `step` of `BaseService`.
pub mod Flight
pub mod Sending
mod Tests
use mowgli_lora_link.Prelude.{
  ℕ, ◌+◌, ◌-◌, List, [], ◌∷◌, ◌++◌, length, Bool, false, not, ◌&&◌, ◌==◌, ltb, leb, if◌then◌else◌,
  Option, none, some, Result, ok, err,
}
use mowgli_lora_link.Application.Codec.{Frame, encode}
use mowgli_lora_link.Application.Rtcm.{fragment}
use mowgli_lora_link.Application.Reassembler.{transport_ttl}
use mowgli_lora_link.Host.Parser.{RtcmFrame}
use mowgli_lora_link.Host.Modem.{
  Port, Transport, add, Tx, sent, not_sent, uncertain, Outcome, returned, raised,
  application_failure,
}
use mowgli_lora_link.Host.Modem.Session.{ready_for_send, send_air, take_tx_outcomes}
use mowgli_lora_link.Host.Modem.Tick.{copies, tick}
use mowgli_lora_link.Host.Base.{
  BaseService, Waiting, note, flying, is_idle, update_rates, update_queue_metrics,
}

-- `sequence != self.in_flight` is false.
pub is_flying : ℕ → Option ℕ → Bool
is_flying sequence none = false
is_flying sequence (some n) = sequence == n

-- `now - self.queue[0].received_at > 0.8`: the loop takes the frames off the front.
pub fresh_queue : ℕ → List RtcmFrame → List RtcmFrame × ℕ
fresh_queue now [] = ([], 0)
fresh_queue now (frame ∷ queue) =
    let rest = fresh_queue now queue in
    if ltb (frame.received_at + 800) now then (rest.0, rest.1 + 1) else (frame ∷ queue, 0)

pub stamp_all : ℕ → List Frame → List Waiting
stamp_all received_at [] = []
stamp_all received_at (f ∷ frames) = (f, received_at) ∷ stamp_all received_at frames

pub next_message_id : ℕ → ℕ
next_message_id id = if id == 0xFFFFFFFF then 1 else id + 1

module _ {W : Type 0} where
  -- The branches on the outcome of the send that is in flight.
  pub settle : Tx → BaseService W → BaseService W
  settle sent s = note (add "rtcm_fragments_tx_completed" 1) s
  settle not_sent s = note (add "rtcm_fragments_tx_failed" 1) (record s { fragments = [] })
  settle uncertain s = note (add "rtcm_fragments_tx_uncertain" 1) (record s { fragments = [] })

  -- The loop over the outcomes.
  pub settle_all : List (ℕ × Tx) → BaseService W → BaseService W
  settle_all [] s = s
  settle_all ((sequence, verdict) ∷ outcomes) s = settle_all outcomes (
      if is_flying sequence s.in_flight
      then settle verdict (record s { in_flight = none })
      else note (add "radio_tx_unexpected_outcomes" 1) s)

  -- `if self.transport.session != self.session`
  pub adopt_session : BaseService W → BaseService W
  adopt_session s =
      if s.transport.session == s.session
      then s
      else note (add "app_sender_session_resets" 1) (record s {
        session = s.transport.session;
        message_id = 0;
        fragments = [];
        in_flight = none;
      })

  pub drop_stale : ℕ → BaseService W → BaseService W
  drop_stale now s =
      let fresh = fresh_queue now s.queue in
      record s {
        queue = fresh.0;
        metrics = s.metrics ++ copies fresh.1 (add "rtcm_frames_dropped_stale" 1);
      }

  -- `try: application.fragment(…)`, which raises an ApplicationError or nothing.
  pub enter_fragments : ℕ → Result (List Frame) → BaseService W → BaseService W
  enter_fragments received_at (err e) s = note (add "rtcm_fragment_failures" 1) s
  enter_fragments received_at (ok frames) s = record s {
    fragments = s.fragments ++ stamp_all received_at frames;
  }

  -- `if not self.fragments and self.queue`
  pub refill : List RtcmFrame → BaseService W → BaseService W
  refill [] s = s
  refill (frame ∷ queue) s =
      let id = next_message_id s.message_id in
      if length s.fragments == 0
      then enter_fragments frame.received_at (fragment frame.raw s.session id 0)
          (record s { queue = queue; message_id = id })
      else s

module _ {W : Type 0} (port : Port W) where
  -- The branches on the number that `send_air` returns.
  pub after_send :
      ℕ
      → ℕ
      → Waiting
      → Transport W × Outcome (Option ℕ)
      → BaseService W
      → BaseService W × Outcome (Unit {0})
  after_send now size waiting (t, raised e) s = (record s { transport = t }, raised e)
  after_send now size waiting (t, returned none) s = (
    note (add "rtcm_fragments_dropped_disconnected" 1)
        (record s { transport = t; fragments = waiting ∷ s.fragments }),
    returned tt,
  )
  after_send now size waiting (t, returned (some sequence)) s = (
    record (note (add "lora_bytes_sent" size) (note (add "rtcm_fragments_usb_accepted" 1) s)) {
      transport = t;
      in_flight = some sequence;
      lora_rate = s.lora_rate ++ ((now, size) ∷ []);
    },
    returned tt,
  )

  -- The call of `encode`, whose ApplicationError is passed on, and what follows it.
  pub after_encode :
      ℕ → Waiting → Result (List ℕ) → BaseService W → BaseService W × Outcome (Unit {0})
  after_encode now waiting (err e) s = (s, raised application_failure)
  after_encode now waiting (ok encoded) s =
      after_send now (length encoded) waiting (send_air port encoded s.transport) s

  -- The first fragment is stale, or is sent with its age.
  pub send_first : ℕ → List Waiting → BaseService W → BaseService W × Outcome (Unit {0})
  send_first now [] s = (s, returned tt)
  send_first now ((f, received_at) ∷ fragments) s =
      let age = now - received_at in
      if leb transport_ttl age
      then (note (add "rtcm_fragments_dropped_stale" 1) (record s { fragments = [] }), returned tt)
      else after_encode now (f, received_at) (encode (record f { source_age_ms = age }))
          (record s { fragments = fragments })

  pub send_next : ℕ → BaseService W → BaseService W × Outcome (Unit {0})
  send_next now s =
      if flying s.in_flight == 0 && ready_for_send s.transport
      then send_first now s.fragments s
      else (s, returned tt)

  -- The metrics at the end of `step`, unless it has raised.
  pub finish : ℕ → BaseService W × Outcome (Unit {0}) → BaseService W × Outcome (Unit {0})
  finish now (s, raised e) = (s, raised e)
  finish now (s, returned u) = (update_queue_metrics now (update_rates now s), returned tt)

  -- `step` behind the loop over the outcomes.
  pub proceed : ℕ → BaseService W → BaseService W × Outcome (Unit {0})
  proceed now s =
      let fresh = drop_stale now (adopt_session s) in
      if not fresh.transport.connected
      then (update_queue_metrics now fresh, returned tt)
      else finish now (send_next now (refill fresh.queue fresh))

  -- `step` behind `tick`, and behind `take_tx_outcomes`.
  pub after_outcomes :
      ℕ → Transport W × Outcome (List (ℕ × Tx)) → BaseService W → BaseService W × Outcome (Unit {0})
  after_outcomes now (t, raised e) s = (record s { transport = t }, raised e)
  after_outcomes now (t, returned outcomes) s =
      proceed now (settle_all outcomes (record s { transport = t }))

  pub after_tick :
      ℕ → Transport W × Outcome (List (List ℕ)) → BaseService W → BaseService W × Outcome (Unit {0})
  after_tick now (t, raised e) s = (record s { transport = t }, raised e)
  after_tick now (t, returned payloads) s =
      after_outcomes now (take_tx_outcomes port t) (record s { transport = t })

  -- `step`
  pub step : ℕ → BaseService W → BaseService W × Outcome (Unit {0})
  step now s = after_tick now (tick port (is_idle s) s.transport) s
