-- ===== src/Host/Modem/Tick.antt =====
-- `tick` of host/mowgli_lora/modem.py, with the timeouts and the tombstones of late results.
use mowgli_lora_link.Prelude.{
  ℕ, zero, suc, ◌+◌, List, [], ◌∷◌, ◌++◌, length, Bool, not, ◌&&◌, ◌==◌, ltb, leb, if◌then◌else◌,
  Option, none, some,
}
use mowgli_lora_link.Dict.{num_key, Dict, insert}
use mowgli_lora_link.Protocol.Frame.{Frame}
use mowgli_lora_link.Protocol.Stream.{feed}
use mowgli_lora_link.Host.Modem.{
  Port, Request, Update, add, put, uncertain, returned, M, ◌>>=◌, ◌>>◌, pure, get, modify, attempt,
  is_os_error, metric, count, hello, radio_send, get_diagnostics, max_late_radio_results,
  late_radio_result_ttl,
}
use mowgli_lora_link.Host.Modem.Session.{
  ready_for_send, monotonic, disconnect, request, restart_host_session, rotate_before_sequence_wrap,
  open_modem,
}
use mowgli_lora_link.Host.Modem.Handlers.{as_int, pop_pending, report, on_frame}

-- The loop of `_remember_timed_out_radio`: what is left, and how many were evicted.
unfoldable pub evict_oldest : Dict ℕ ℕ → Dict ℕ ℕ × ℕ
evict_oldest [] = ([], 0)
evict_oldest (oldest ∷ rest) =
    let evicted = evict_oldest rest in
    if ltb max_late_radio_results (length (oldest ∷ rest))
    then (evicted.0, suc evicted.1)
    else (oldest ∷ rest, 0)

-- The loop of `_expire_timed_out_radio`.
pub expire_oldest : ℕ → Dict ℕ ℕ → Dict ℕ ℕ × ℕ
expire_oldest now [] = ([], 0)
expire_oldest now ((sequence, started) ∷ rest) =
    let expired = expire_oldest now rest in
    if leb now (started + late_radio_result_ttl)
    then ((sequence, started) ∷ rest, 0)
    else (expired.0, suc expired.1)

pub copies : ℕ → Update → List Update
copies zero update = []
copies (suc n) update = update ∷ copies n update

module _ {W : Type 0} (port : Port W) where
  -- `_remember_timed_out_radio`
  unfoldable pub remember_timed_out : ℕ → ℕ → M W (Unit {0})
  unfolding evict_oldest copies
  remember_timed_out sequence now = modify (λ t.
      let kept = evict_oldest (insert sequence now t.timed_out_radio) in
      record t {
        timed_out_radio = kept.0;
        metrics = t.metrics ++ copies kept.1 (add "radio_tx_timeout_tombstones_evicted" 1);
      })

  -- `_expire_timed_out_radio`
  unfoldable pub expire_timed_out : ℕ → M W (Unit {0})
  unfolding expire_oldest copies
  expire_timed_out now = modify (λ t.
      let kept = expire_oldest now t.timed_out_radio in
      record t {
        timed_out_radio = kept.0;
        metrics = t.metrics ++ copies kept.1 (add "radio_tx_timeout_tombstones_expired" 1);
      })

  -- The loop over the frames that the decoder returns.
  unfoldable pub on_frames : List Frame → M W (Unit {0})
  on_frames [] = pure tt
  on_frames (f ∷ frames) = do on_frame port f; on_frames frames

  -- A RADIO_SEND request has no answer after three seconds.
  unfoldable pub time_out_send : ℕ → ℕ → M W (Unit {0})
  unfolding remember_timed_out
  time_out_send sequence now = do
    pop_pending port sequence
    remember_timed_out sequence now
    report port sequence uncertain
    count "radio_send_timeouts"
    count "usb_response_timeouts"

  -- The loop over the copy of `pending`; the restart after a HELLO ends it.
  unfoldable pub time_out : ℕ → Dict ℕ Request → M W (Unit {0})
  unfolding time_out_send
  time_out now [] = pure tt
  time_out now ((sequence, request) ∷ pending) =
      if not (ltb (request.started + 3000) now)
      then time_out now pending
      else if request.typ == radio_send
      then (do time_out_send sequence now; time_out now pending)
      else if request.typ == hello
      then (do pop_pending port sequence; count "hello_timeouts"; restart_host_session port)
      else (do pop_pending port sequence; count "usb_response_timeouts"; time_out now pending)

  -- The request for diagnostics; `_rotate_before_sequence_wrap` is called last in the condition.
  unfoldable pub ask_diagnostics : Bool → ℕ → M W (Unit {0})
  ask_diagnostics idle now = do
    t ← get
    if t.handshake_complete
          && (length t.pending == 0
              && (idle
                  && (leb (t.last_radio_rx + 1000) now && leb (t.last_diagnostics + 1000) now)))
        then (do
          rotated ← rotate_before_sequence_wrap port
          if rotated then pure tt else (do
            modify (λ t. record t { last_diagnostics = now })
            attempt (do _ ← request port get_diagnostics []; pure tt) is_os_error (pure tt)))
        else pure tt

  -- `tick` behind the read.
  unfoldable pub process : Bool → List ℕ → M W (List (List ℕ))
  unfolding on_frames expire_timed_out time_out ask_diagnostics
  process idle raw = do
    if length raw == 0 then pure tt else metric (add "host_usb_bytes_received" (length raw))
    t ← get
    modify (λ t. record t { decoder = (feed t.decoder raw).0 })
    on_frames (feed t.decoder raw).1
    now ← monotonic port
    expire_timed_out now
    t ← get
    time_out now t.pending
    ask_diagnostics idle now
    t ← get
    metric (put "modem_connected" (as_int t.connected))
    metric (put "modem_handshake_complete" (as_int t.handshake_complete))
    metric (put "modem_ready_for_send" (as_int (ready_for_send t)))
    modify (λ t. record t { received = [] })
    pure t.received

  -- `serial.read(4096)`
  unfoldable pub read_port : M W (Option (List ℕ))
  read_port t = (record t { world = (port.read t.world).0 }, returned (port.read t.world).1)

  unfoldable pub tick : Bool → M W (List (List ℕ))
  unfolding process read_port
  tick idle = do
    open_modem port
    t ← get
    if not t.connected then (do metric (put "modem_ready_for_send" 0); pure []) else (do
      bytes ← read_port
      elim bytes [
        | none ↦ (do count "usb_read_failures"; disconnect port; pure [])
        | some raw ↦ process idle raw
      ])
