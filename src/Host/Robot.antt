-- ===== src/Host/Robot.antt =====
-- `RobotService` of host/mowgli_lora/service.py, over the transport, the reassembly and the TCP output.
-- The metrics are the updates that the service itself makes. What the sockets do in the n-th call of
-- the output is passed in. Times are milliseconds.
pub mod Forwarding
mod Tests
use mowgli_lora_link.Prelude.{
  ℕ, suc, ◌+◌, List, [], ◌∷◌, ◌++◌, length, Bool, true, false, not, ◌==◌, if◌then◌else◌, Option,
  none, some, Result, ok, err, Error, application_error, protocol_error, struct_error, key_error,
  value_error, out_of_fuel, String,
}
use mowgli_lora_link.Application.Codec.{Frame, decode}
use mowgli_lora_link.Application.Rtcm.{rtcm_fragment}
use mowgli_lora_link.Application.Reassembler
use mowgli_lora_link.Application.Reassembler.{Reassembler, expire}
use mowgli_lora_link.Host.Output.{Output, SendResult, publish, flush}
use mowgli_lora_link.Host.Modem.{
  Port, Transport, Update, add, put, Outcome, returned, raised, key_failure,
}
use mowgli_lora_link.Host.Modem.Tick.{tick}

-- What a call of the output meets: the clients that wait at first and at its `flush`, what each `send`
-- does, and the clock.
pub record Sockets : Type 0 where
  pub waiting : List ℕ
  pub later : List ℕ
  pub send : ℕ → List ℕ → SendResult
  pub clock : ℕ

-- `calls` counts the calls of the output.
pub record RobotService (W : Type 0) : Type 0 where
  pub transport : Transport W
  pub reassembler : Reassembler
  pub output : Output
  pub calls : ℕ
  pub metrics : List Update

-- `except application.ApplicationError`
pub is_application_error : Error → Bool
is_application_error (application_error text) = true
is_application_error (protocol_error text) = false
is_application_error struct_error = false
is_application_error key_error = false
is_application_error (value_error text) = false
is_application_error out_of_fuel = false

module _ {W : Type 0} where
  abbrev pub note : Update → RobotService W → RobotService W
  note update s = record s { metrics = s.metrics ++ (update ∷ []) }

  abbrev pub count : String → RobotService W → RobotService W
  count name s = note (add name 1) s

-- The statements that follow run only if the first one has not raised.
abbrev pub continue :
    {W : Type 0}
    → (RobotService W → RobotService W × Outcome (Unit {0}))
    → RobotService W × Outcome (Unit {0})
    → RobotService W × Outcome (Unit {0})
continue rest (s, raised e) = (s, raised e)
continue rest (s, returned u) = rest s

module _ {W : Type 0} (port : Port W) (net : ℕ → Sockets) where
  -- `self.output.publish(raw)` and the metrics around it.
  pub deliver : List ℕ → RobotService W → RobotService W
  deliver raw s =
      let sockets = net s.calls in
      let published =
        publish sockets.waiting sockets.later sockets.send raw sockets.clock s.output in
      note (add "rtcm_tcp_clients_delivered" published.1) (
        note (add "rtcm_output_bytes" (length raw)) (
          count "rtcm_frames_delivered" (
            count "rtcm_frames_completed"
              (record s { output = published.0; calls = s.calls + 1 }))))

  -- The branches on what `Reassembler.add` returns or raises.
  pub on_added :
      Reassembler × Result (Option (List ℕ)) → RobotService W → RobotService W × Outcome (Unit {0})
  on_added (r, err e) s =
      if is_application_error e
      then (count "rtcm_fragments_rejected" (record s { reassembler = r }), returned tt)
      else (record s { reassembler = r }, raised key_failure)
  on_added (r, ok none) s =
      (count "rtcm_fragments_accepted" (record s { reassembler = r }), returned tt)
  on_added (r, ok (some raw)) s =
      (deliver raw (count "rtcm_fragments_accepted" (record s { reassembler = r })), returned tt)

  -- The branches on what `decode` returns or raises, which is an ApplicationError.
  pub on_decoded : ℕ → Result Frame → RobotService W → RobotService W × Outcome (Unit {0})
  on_decoded now (err e) s = (count "application_decode_failures" s, returned tt)
  on_decoded now (ok f) s =
      if not (f.typ == rtcm_fragment)
      then (count "application_non_rtcm_frames" s, returned tt)
      else on_added (Reassembler.add s.reassembler f now) s

  -- The end of `step`.
  pub finish : ℕ → RobotService W → RobotService W
  finish now s =
      let expired = (expire s.reassembler now).0 in
      let sockets = net s.calls in
      note (put "rtcm_reassembly_conflicts" expired.conflict_count) (
        note (put "rtcm_reassembly_timeouts" expired.timeout_count) (record s {
          reassembler = expired;
          output = flush sockets.waiting sockets.send sockets.clock s.output;
          calls = s.calls + 1;
        }))

  -- The loop over the payloads, and what follows it.
  pub forward : ℕ → List (List ℕ) → RobotService W → RobotService W × Outcome (Unit {0})
  forward now [] s = (finish now s, returned tt)
  forward now (payload ∷ payloads) s =
      continue (forward now payloads) (on_decoded now (decode payload) s)

  pub after_tick :
      ℕ
      → Transport W × Outcome (List (List ℕ))
      → RobotService W
      → RobotService W × Outcome (Unit {0})
  after_tick now (t, raised e) s = (record s { transport = t }, raised e)
  after_tick now (t, returned payloads) s = forward now payloads (record s { transport = t })

  -- `step`; `tick` is called with its default, True.
  pub step : ℕ → RobotService W → RobotService W × Outcome (Unit {0})
  step now s = after_tick now (tick port true s.transport) s
