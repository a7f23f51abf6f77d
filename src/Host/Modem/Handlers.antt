-- ===== src/Host/Modem/Handlers.antt =====
-- The frames that the modem sends: `_handle_info`, `_handle_diagnostics`, `_handle_error`, and the
-- branches of the loop of `tick`.
use mowgli_lora_link.Prelude.{
  ℕ, List, [], ◌∷◌, ◌++◌, Bool, true, false, not, ◌&&◌, ◌||◌, ◌==◌, if◌then◌else◌, Option, none,
  some, ok, err, String,
}
use mowgli_lora_link.Dict.{num_key, lookup, contains, remove}
use mowgli_lora_link.Protocol.Frame.{Frame}
use mowgli_lora_link.Protocol.Payloads.{
  Info, parse_info, parse_tx_result, parse_radio_rx, parse_diagnostics, ErrorReport, parse_error,
}
use mowgli_lora_link.Host.Modem.{
  Port, Transport, Update, put, Tx, sent, not_sent, M, ◌>>=◌, ◌>>◌, pure, get, modify, metric,
  count, hello, radio_send, get_diagnostics, info, radio_tx_result, diagnostics, radio_rx, error,
  wrong_session_code,
}
use mowgli_lora_link.Host.Modem.Session.{monotonic, restart_host_session}

-- `int(flag)`
abbrev pub as_int : Bool → ℕ
as_int true = 1
as_int false = 0

abbrev pub changes : Option ℕ → ℕ → Bool
changes none boot_id = false
changes (some known) boot_id = not (boot_id == known)

-- The names in `_handle_diagnostics`, in the order of the values.
abbrev pub counter_names : List String
counter_names =
    "modem_usb_frames" ∷ "modem_usb_accepted" ∷ "modem_send_accepted" ∷ "modem_tx_started"
    ∷ "modem_tx_completed" ∷ "modem_radio_rx_received" ∷ "modem_rx_event_queued"
    ∷ "modem_rx_event_written_usb" ∷ "modem_event_drops" ∷ "modem_event_queue_depth" ∷ []

pub puts : List String → List ℕ → List Update
puts (name ∷ names) (value ∷ values) = put name value ∷ puts names values
puts _ _ = []

module _ {W : Type 0} (port : Port W) where
  -- `self.pending.pop(sequence)` and `self._tx_outcomes.append((sequence, verdict))`
  unfoldable pub pop_pending : ℕ → M W (Unit {0})
  pop_pending sequence = modify (λ t. record t { pending = remove sequence t.pending })

  unfoldable pub report : ℕ → Tx → M W (Unit {0})
  report sequence verdict =
      modify (λ t. record t { tx_outcomes = t.tx_outcomes ++ ((sequence, verdict) ∷ []) })

  unfoldable pub forget_timed_out : ℕ → M W (Unit {0})
  forget_timed_out sequence =
      modify (λ t. record t { timed_out_radio = remove sequence t.timed_out_radio })

  -- `_handle_info` on a payload that is parsed.
  unfoldable pub accept_info : Info → M W (Unit {0})
  accept_info i = do
    t ← get
    if changes t.boot_id i.boot_id then count "modem_boot_id_changes" else pure tt
    modify (λ t. record t {
      boot_id = some i.boot_id;
      handshake_complete = true;
      radio_ready = not (i.radio_ready == 0);
    })
    metric (put "modem_boot_id" i.boot_id)
    metric (put "modem_radio_ready" (as_int (not (i.radio_ready == 0))))
    metric (put "modem_connected" 1)
    metric (put "modem_handshake_complete" 1)

  -- `_handle_info`
  unfoldable pub handle_info : List ℕ → M W Bool
  unfolding accept_info
  handle_info payload = elim (parse_info payload) [
    | err e ↦ (do count "info_decode_failures"; pure false)
    | ok i ↦ (do accept_info i; pure true)
  ]

  -- The type of the request that a frame answers.
  unfoldable pub request_type : ℕ → Transport W → Option ℕ
  request_type sequence t = elim (lookup sequence t.pending) [
    | none ↦ none
    | some request ↦ some request.typ
  ]

  -- `request is None or request[0] != typ`
  abbrev pub not_asked : Option ℕ → ℕ → Bool
  not_asked none typ = true
  not_asked (some asked) typ = not (asked == typ)

  unfoldable pub on_info : Frame → M W (Unit {0})
  unfolding request_type handle_info pop_pending
  on_info f = do
    t ← get
    if not_asked (request_type f.sequence t) hello then count "usb_unexpected_info" else (do
      handled ← handle_info f.payload
      if handled
          then pop_pending f.sequence
          else (do count "hello_invalid_info"; restart_host_session port))

  -- A result that comes after its request has timed out.
  unfoldable pub on_late_result : Frame → M W (Unit {0})
  unfolding forget_timed_out
  on_late_result f = do
    forget_timed_out f.sequence
    elim (parse_tx_result f.payload) [
      | err e ↦ count "radio_tx_late_result_decode_failures"
      | ok r ↦ count "radio_tx_late_completed"
    ]

  unfoldable pub on_result : Frame → M W (Unit {0})
  unfolding pop_pending report
  on_result f = elim (parse_tx_result f.payload) [
    | err e ↦ (do
      pop_pending f.sequence
      report f.sequence not_sent
      count "radio_tx_result_decode_failures")
    | ok r ↦ (do pop_pending f.sequence; report f.sequence sent; count "radio_tx_completed")
  ]

  abbrev pub is_none : Option ℕ → Bool
  is_none none = true
  is_none (some x) = false

  unfoldable pub on_tx_result : Frame → M W (Unit {0})
  unfolding request_type on_late_result on_result
  on_tx_result f = do
    t ← get
    if is_none (request_type f.sequence t) && contains f.sequence t.timed_out_radio
        then on_late_result f
        else if not_asked (request_type f.sequence t) radio_send
        then count "usb_unexpected_radio_tx_result"
        else on_result f

  unfoldable pub on_radio_rx : Frame → M W (Unit {0})
  on_radio_rx f = do
    count "radio_rx_received"
    now ← monotonic port
    modify (λ t. record t { last_radio_rx = now })
    elim (parse_radio_rx f.payload) [
      | err e ↦ count "radio_rx_decode_failures"
      | ok r ↦ (do
        modify (λ t. record t { received = t.received ++ (r.payload ∷ []) })
        count "rx_event_queued"
        count "application_frames_decoded")
    ]

  -- `_handle_diagnostics`
  unfoldable pub handle_diagnostics : List ℕ → M W (Unit {0})
  unfolding puts
  handle_diagnostics payload = elim (parse_diagnostics payload) [
    | err e ↦ count "diagnostics_decode_failures"
    | ok values ↦ modify (λ t. record t { metrics = t.metrics ++ puts counter_names values })
  ]

  unfoldable pub on_diagnostics : Frame → M W (Unit {0})
  unfolding request_type pop_pending handle_diagnostics
  on_diagnostics f = do
    t ← get
    if not_asked (request_type f.sequence t) get_diagnostics
        then count "usb_unexpected_diagnostics"
        else (do pop_pending f.sequence; handle_diagnostics f.payload)

  -- `_handle_error` where no request is pending.
  unfoldable pub on_late_error : ℕ → List ℕ → M W (Unit {0})
  unfolding forget_timed_out
  on_late_error sequence payload = elim (parse_error payload) [
    | err e ↦ count "radio_tx_late_error_decode_failures"
    | ok report ↦ (do
      forget_timed_out sequence
      if report.rejected_type == radio_send
          then count "radio_tx_late_errors"
          else count "radio_tx_late_error_type_mismatch")
  ]

  -- The last lines of `_handle_error`: the error answers the request of type `asked`.
  unfoldable pub on_rejection : ℕ → ℕ → ErrorReport → M W (Unit {0})
  unfolding pop_pending report
  on_rejection sequence asked r = do
    pop_pending sequence
    count "modem_errors"
    if asked == radio_send then report sequence not_sent else pure tt
    if asked == hello
        then (do count "hello_errors"; restart_host_session port)
        else if r.code == wrong_session_code && (asked == get_diagnostics || asked == radio_send)
        then (do count "modem_wrong_session_recoveries"; restart_host_session port)
        else pure tt

  unfoldable pub on_request_error : ℕ → ℕ → List ℕ → M W (Unit {0})
  unfolding on_rejection
  on_request_error sequence asked payload = elim (parse_error payload) [
    | err e ↦ count "modem_error_decode_failures"
    | ok report ↦
        if not (report.rejected_type == asked)
        then count "modem_error_type_mismatch"
        else on_rejection sequence asked report
  ]

  -- `_handle_error`
  unfoldable pub handle_error : ℕ → List ℕ → M W (Unit {0})
  unfolding request_type on_late_error on_request_error
  handle_error sequence payload = do
    t ← get
    elim (request_type sequence t) [
      | some asked ↦ on_request_error sequence asked payload
      | none ↦
          if contains sequence t.timed_out_radio
          then on_late_error sequence payload
          else count "usb_unexpected_error"
    ]

  -- A round of the loop over the frames.
  unfoldable pub on_frame : Frame → M W (Unit {0})
  unfolding on_info on_tx_result on_radio_rx on_diagnostics handle_error
  on_frame f = do
    count "host_usb_frames_received"
    t ← get
    if not (f.session == t.session)
        then count "usb_wrong_session"
        else if f.msg_type == info
        then on_info f
        else if f.msg_type == radio_tx_result
        then on_tx_result f
        else if f.msg_type == radio_rx
        then on_radio_rx f
        else if f.msg_type == diagnostics
        then on_diagnostics f
        else if f.msg_type == error
        then handle_error f.sequence f.payload
        else pure tt
