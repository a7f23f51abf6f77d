-- ===== src/Host/Modem/Session.antt =====
-- Opening, closing and writing to the port, requests and host sessions.
use mowgli_lora_link.Prelude.{
  ℕ, zero, suc, ◌+◌, List, [], ◌∷◌, ◌++◌, length, drop, map, Bool, true, false, not, ◌&&◌, ◌==◌,
  ltb, if◌then◌else◌, Option, none, some, ok, err,
}
use mowgli_lora_link.Dict.{num_key, Dict, insert}
use mowgli_lora_link.Protocol.Frame.{Frame, encode_frame}
use mowgli_lora_link.Protocol.Stream.{fresh, default_max}
use mowgli_lora_link.Host.Modem.{
  Port, Transport, Request, add, put, Tx, not_sent, uncertain, os_error, runtime_error,
  protocol_failure, stuck, returned, raised, M, ◌>>=◌, ◌>>◌, pure, raise, get, modify, attempt,
  is_os_error, is_os_or_runtime_error, metric, count, hello, radio_send,
}

-- The loops over `pending` that give each RADIO_SEND request its outcome.
unfoldable pub settled : Tx → Dict ℕ Request → List (ℕ × Tx)
settled verdict [] = []
settled verdict ((sequence, request) ∷ pending) =
    if request.typ == radio_send
    then (sequence, verdict) ∷ settled verdict pending
    else settled verdict pending

abbrev pub ready_for_send : {W : Type 0} → Transport W → Bool
ready_for_send t = t.connected && (t.handshake_complete && (t.radio_ready && length t.pending == 0))

module _ {W : Type 0} (port : Port W) where
  -- `time.monotonic()` and `random.randrange(1, 2**32)`
  unfoldable pub monotonic : M W ℕ
  monotonic t = (record t { world = (port.clock t.world).0 }, returned (port.clock t.world).1)

  unfoldable pub randrange : M W ℕ
  randrange t = (record t { world = (port.random t.world).0 }, returned (port.random t.world).1)

  -- `serial.close()`; an OSError is only logged.
  unfoldable pub close_port : M W (Unit {0})
  close_port =
      modify (λ t. record t { world = if t.connected then port.close_serial t.world else t.world })

  -- `_disconnect`
  unfoldable pub disconnect : M W (Unit {0})
  unfolding settled close_port
  disconnect = do
    modify (λ t.
        let lost = settled uncertain t.pending in
        record t {
          tx_outcomes = t.tx_outcomes ++ lost;
          metrics = t.metrics ++ map (λ _. add "radio_send_disconnect_uncertain" 1) lost;
        })
    close_port
    modify (λ t. record t {
      connected = false;
      pending = [];
      received = [];
      timed_out_radio = [];
      handshake_complete = false;
      radio_ready = false;
    })
    metric (put "modem_connected" 0)
    metric (put "modem_handshake_complete" 0)
    metric (put "modem_ready_for_send" 0)
    metric (put "modem_radio_ready" 0)
    now ← monotonic
    modify (λ t. record t { next_attempt = now + t.reconnect_ms })

  -- One call of `serial.write`.
  unfoldable pub write_some : List ℕ → M W (Option ℕ)
  write_some raw t =
      (record t { world = (port.write t.world raw).0 }, returned (port.write t.world raw).1)

  -- The branches on its result: how many bytes were taken beyond the first.
  unfoldable pub taken : Option ℕ → M W ℕ
  taken none = raise os_error
  taken (some zero) = raise os_error
  taken (some (suc n)) = do metric (add "usb_bytes_written" (suc n)); pure n

  -- The loop of `_write` on `raw[offset:]`. Each round takes a byte at least.
  unfoldable pub write_loop : ℕ → List ℕ → M W (Unit {0})
  unfolding write_some taken
  write_loop fuel [] = pure tt
  write_loop zero (byte ∷ raw) = raise stuck
  write_loop (suc fuel) (byte ∷ raw) = do
    written ← write_some (byte ∷ raw)
    n ← taken written
    write_loop fuel (drop n raw)

  -- `_write`
  unfoldable pub write : List ℕ → M W (Unit {0})
  unfolding write_loop disconnect
  write raw = do
    t ← get
    if not t.connected
        then raise os_error
        else attempt (write_loop (length raw) raw) is_os_error
            (do count "usb_write_failures"; disconnect; raise os_error)

  -- `_begin_fresh_session`
  unfoldable pub begin_fresh_session : M W (Unit {0})
  begin_fresh_session = do
    t ← get
    drawn ← randrange
    let session =
        if drawn == t.session then (if t.session == 0xFFFFFFFF then 1 else t.session + 1) else drawn
    modify (λ t. record t {
      session = session;
      sequence = 0;
      timed_out_radio = [];
      handshake_complete = false;
      radio_ready = false;
      last_radio_rx = 0;
    })
    metric (put "modem_handshake_complete" 0)
    metric (put "modem_ready_for_send" 0)
    metric (put "modem_radio_ready" 0)

  -- `_next`; `_request` calls it only below 0xFFFFFFFF.
  unfoldable pub next : M W ℕ
  next t =
      let sequence = if t.sequence == 0xFFFFFFFF then 1 else t.sequence + 1 in
      (record t { sequence = sequence }, returned sequence)

  -- The call of `encode_frame`, whose ProtocolError is passed on.
  unfoldable pub frame_bytes : ℕ → ℕ → List ℕ → M W (List ℕ)
  frame_bytes typ sequence payload t =
      let frame : Frame = record {
        msg_type = typ;
        session = t.session;
        sequence = sequence;
        payload = payload;
      } in
      elim (encode_frame frame) [
        | ok raw ↦ (t, returned raw)
        | err e ↦ (t, raised protocol_failure)
      ]

  -- `_request`
  unfoldable pub request : ℕ → List ℕ → M W ℕ
  unfolding next frame_bytes write
  request typ payload = do
    t ← get
    if t.sequence == 0xFFFFFFFF then raise runtime_error else (do
      sequence ← next
      count "usb_send_requests"
      raw ← frame_bytes typ sequence payload
      write raw
      now ← monotonic
      modify (λ t. record t {
        pending = insert sequence (record { typ = typ; started = now }) t.pending;
      })
      count "usb_send_accepted"
      pure sequence)

  -- `_send_hello`
  unfoldable pub send_hello : M W (Unit {0})
  unfolding request
  send_hello = do _ ← request hello []; pure tt

  -- `_restart_host_session`
  unfoldable pub restart_host_session : M W (Unit {0})
  unfolding settled begin_fresh_session send_hello
  restart_host_session = do
    modify (λ t. record t { tx_outcomes = t.tx_outcomes ++ settled not_sent t.pending })
    modify (λ t. record t { pending = []; received = [] })
    begin_fresh_session
    metric (put "modem_handshake_complete" 0)
    metric (put "modem_ready_for_send" 0)
    attempt send_hello is_os_error (count "usb_session_reset_write_failures")

  -- `_rotate_before_sequence_wrap`
  unfoldable pub rotate_before_sequence_wrap : M W Bool
  unfolding restart_host_session
  rotate_before_sequence_wrap = do
    t ← get
    if not (t.sequence == 0xFFFFFFFF)
        then pure false
        else (do count "usb_session_rotations_sequence_wrap"; restart_host_session; pure true)

  -- The body of the `try` of `_open`.
  unfoldable pub open_port : M W (Unit {0})
  unfolding begin_fresh_session write send_hello
  open_port = do
    t ← get
    if not (port.open_serial t.world).1
        then (do modify (λ t. record t { world = (port.open_serial t.world).0 }); raise os_error)
        else (do
          modify (λ t. record t {
            world = (port.open_serial t.world).0;
            connected = true;
            decoder = fresh default_max;
            pending = [];
          })
          begin_fresh_session
          count "usb_reconnects"
          metric (put "modem_connected" 1)
          metric (put "modem_handshake_complete" 0)
          write (0 ∷ [])
          send_hello)

  -- `_open`
  unfoldable pub open_modem : M W (Unit {0})
  unfolding open_port disconnect
  open_modem = do
    t ← get
    if t.connected then pure tt else (do
      now ← monotonic
      if ltb now t.next_attempt
          then pure tt
          else attempt open_port is_os_or_runtime_error
              (do count "usb_connect_failures"; disconnect))

  -- `send_air`
  unfoldable pub send_air : List ℕ → M W (Option ℕ)
  unfolding rotate_before_sequence_wrap request
  send_air payload = do
    t ← get
    if not (ready_for_send t) then (do count "radio_send_disconnected"; pure none) else (do
      rotated ← rotate_before_sequence_wrap
      if rotated then (do count "radio_send_session_rotated"; pure none) else (do
        count "application_frames_generated"
        metric (add "lora_bytes_queued" (length payload))
        attempt (do sequence ← request radio_send payload; pure (some sequence)) is_os_error
            (do count "radio_send_usb_write_failures"; pure none)))

  -- `take_tx_outcomes`
  unfoldable pub take_tx_outcomes : M W (List (ℕ × Tx))
  take_tx_outcomes t = (record t { tx_outcomes = [] }, returned t.tx_outcomes)

  -- `close`
  pub close : M W (Unit {0})
  unfolding disconnect
  close = do disconnect; metric (put "modem_connected" 0)
