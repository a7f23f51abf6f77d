-- ===== src/Host/Modem/Errors.antt =====
-- The ledger over the diagnostics, the errors and the received packets, and over every frame.
use mowgli_lora_link.Prelude.{
  ℕ, ◌≡◌, refl, ◌∙◌, arith, List, [], ◌∷◌, append-nil, Bool, true, false, ◌==◌, ◌&&◌, ◌||◌,
  if◌then◌else◌, Option-cases, Result-cases, inl, inr,
}
use mowgli_lora_link.Dict.{num_key, lookup}
use mowgli_lora_link.Protocol.Frame.{Frame}
use mowgli_lora_link.Protocol.Payloads.{parse_radio_rx, parse_diagnostics, ErrorReport, parse_error}
use mowgli_lora_link.Host.Modem.{
  Port, Transport, Request, Update, add, put, Tx, sent, uncertain, not_sent, Raised, Outcome,
  returned, raised, M, continue, ◌>>=◌, ◌>>◌, pure, raise, get, modify, recover, attempt, metric,
  count, radio_send, hello, wrong_session_code, get_diagnostics, is_os_error,
}
use mowgli_lora_link.Host.Modem.Session.{restart_host_session}
use mowgli_lora_link.Host.Modem.Handlers.{
  pop_pending, report, accept_info, handle_info, request_type, not_asked, on_info, on_result,
}
use mowgli_lora_link.Host.Modem.Ledger.{
  Reports-same, sends, Kept, Kept-trans, Keeps, count-Keeps, then-Keeps, if-Keeps, get-Keeps,
}
use mowgli_lora_link.Host.Modem.Window.{numbers-append}
use mowgli_lora_link.Host.Modem.Calm.{Calm, count-Calm, Calm-Keeps, if-Calm, then-Calm, modify-Calm}
use mowgli_lora_link.Host.Modem.Handlers.{
  forget_timed_out, is_none, on_late_result, on_tx_result, on_radio_rx, handle_diagnostics, puts,
  counter_names, on_diagnostics, on_late_error, on_rejection, on_request_error, handle_error,
  on_frame, changes,
}
use mowgli_lora_link.Host.Modem.Calm.{monotonic-Calm, bind-Calm}
use mowgli_lora_link.Host.Modem.Ledger.{continue-Kept, pure-Keeps}
use mowgli_lora_link.Host.Modem.Answers.{only_request, remove_only, popped_sends}
use mowgli_lora_link.Host.Modem.Frames.{
  From, Keeps-From, if-From, restart-Keeps, asked-Keeps, on_info-Keeps, on_tx_result-Keeps,
  request_type-none, request_type-some,
}

module _ {W : Type 0} (port : Port W) where
  on_radio_rx-Calm : (f : Frame) (t : Transport W) → Calm (on_radio_rx port f) t
  unfolding on_radio_rx
  on_radio_rx-Calm f t = then-Calm (count-Calm _) (λ t1.
      bind-Calm (monotonic-Calm port t1) (λ now t2.
        then-Calm (modify-Calm _ refl refl refl refl) (λ t3.
          elim (Result-cases (parse_radio_rx f.payload)) [
            | inl (r, e) ↦ rw e (
                then-Calm (modify-Calm _ refl refl refl refl)
                  (λ t4. then-Calm (count-Calm _) (λ t5. count-Calm _)))
            | inr (x, e) ↦ rw e (count-Calm _)
          ])))

  handle_diagnostics-Keeps :
      (payload : List ℕ) (t : Transport W) → Keeps (handle_diagnostics port payload) t
  unfolding handle_diagnostics
  handle_diagnostics-Keeps payload t = elim (Result-cases (parse_diagnostics payload)) [
    | inl (values, e) ↦ rw (e, handle_diagnostics) (Calm-Keeps (modify-Calm _ refl refl refl refl))
    | inr (x, e) ↦ rw (e, handle_diagnostics) (count-Keeps _)
  ]

  diagnostics-From :
      (f : Frame) (r : Request) (t : Transport W)
      → (r.typ == get_diagnostics) ≡ true
      → From
          ((f.sequence, r) ∷ [])
          (pop_pending port f.sequence >> handle_diagnostics port f.payload)
          t
  unfolding ◌>>◌ pop_pending modify
  diagnostics-From f r t same = record {
    holds = λ e w.
        let h = popped_sends port f.sequence r t e (ground arith) in
        Kept-trans h
          ((handle_diagnostics-Keeps f.payload (pop_pending port f.sequence t).0).holds h.window);
  }

  on_diagnostics-Keeps : (f : Frame) (t : Transport W) → Keeps (on_diagnostics port f) t
  unfolding on_diagnostics
  on_diagnostics-Keeps f t = get-Keeps _ (
      asked-Keeps port f get_diagnostics _ _ t (count-Keeps _)
        (λ r same. diagnostics-From f r t same))

  on_late_error-Calm :
      (sequence : ℕ) (payload : List ℕ) (t : Transport W)
      → Calm (on_late_error port sequence payload) t
  unfolding on_late_error forget_timed_out
  on_late_error-Calm sequence payload t = elim (Result-cases (parse_error payload)) [
    | inl (r, e) ↦
        rw (e, on_late_error)
          (then-Calm (modify-Calm _ refl refl refl refl)
            (λ t1. if-Calm _ _ _ (count-Calm _) (count-Calm _)))
    | inr (x, e) ↦ rw (e, on_late_error) (count-Calm _)
  ]

  -- `on_rejection` up to the outcome.
  give_verdict : ℕ → ℕ → M W (Unit {0})
  give_verdict sequence asked = do
    pop_pending port sequence
    count "modem_errors"
    if asked == radio_send then report port sequence not_sent else pure tt

  rejected_by :
      (b : Bool) (sequence : ℕ) (r : Request) (t : Transport W)
      → t.pending ≡ (sequence, r) ∷ []
      → (r.typ == radio_send) ≡ b
      → Kept t
          ((pop_pending port sequence
              >> (count "modem_errors" >> (if b then report port sequence not_sent else pure tt)))
            t).0
  unfolding pop_pending report modify sends count metric pure ◌>>◌
  rejected_by true sequence r t e send = record {
    window = rw (e, remove_only sequence r) (omega arith);
    same_ledger =
        rw (e, remove_only sequence r, send)
          (append-nil _ ∙ numbers-append t.tx_outcomes ((sequence, not_sent) ∷ []));
    continues = inr (rw (e, remove_only sequence r) refl);
    opens = inl (rw (e, remove_only sequence r) refl);
    extends = ((sequence, not_sent) ∷ [], refl);
  }
  rejected_by false sequence r t e other = record {
    window = rw (e, remove_only sequence r) (omega arith);
    same_ledger = rw (e, remove_only sequence r, other) refl;
    continues = inr (rw (e, remove_only sequence r) refl);
    opens = inl (rw (e, remove_only sequence r) refl);
    extends = Reports-same refl;
  }

  -- The last test of `on_rejection`.
  recover_session : ℕ → ErrorReport → M W (Unit {0})
  recover_session asked r =
      if asked == hello
      then (do count "hello_errors"; restart_host_session port)
      else if r.code == wrong_session_code && (asked == get_diagnostics || asked == radio_send)
      then (do count "modem_wrong_session_recoveries"; restart_host_session port)
      else pure tt

  recover_session-Keeps :
      (asked : ℕ) (r : ErrorReport) (t : Transport W) → Keeps (recover_session asked r) t
  unfolding recover_session
  recover_session-Keeps asked r t =
      if-Keeps (asked == hello) _ _ (then-Keeps (count-Keeps "hello_errors") (restart-Keeps port)) (
        if-Keeps (r.code == wrong_session_code && (asked == get_diagnostics || asked == radio_send))
          _ _ (then-Keeps (count-Keeps "modem_wrong_session_recoveries") (restart-Keeps port))
          (pure-Keeps tt))

  on_rejection-From :
      (sequence : ℕ) (report : ErrorReport) (r : Request) (t : Transport W)
      → From ((sequence, r) ∷ []) (on_rejection port sequence r.typ report) t
  unfolding on_rejection recover_session pop_pending count metric modify ◌>>◌
  on_rejection-From sequence report r t = record {
    holds = λ e w.
        continue-Kept (λ u. recover_session r.typ report) t
          ((pop_pending port sequence
              >> (count "modem_errors"
                  >> (if r.typ == radio_send
                      then mowgli_lora_link.Host.Modem.Handlers.report port sequence not_sent
                      else pure tt)))
            t)
          (rejected_by (r.typ == radio_send) sequence r t e refl)
          (λ u t'. recover_session-Keeps r.typ report t');
  }

  on_request_error-From :
      (sequence : ℕ) (payload : List ℕ) (r : Request) (t : Transport W)
      → From ((sequence, r) ∷ []) (on_request_error port sequence r.typ payload) t
  unfolding on_request_error
  on_request_error-From sequence payload r t = elim (Result-cases (parse_error payload)) [
    | inl (report, e) ↦
        rw (e, on_request_error)
          (if-From _ _ _ (Keeps-From (count-Keeps _)) (on_rejection-From sequence report r t))
    | inr (x, e) ↦ rw (e, on_request_error) (Keeps-From (count-Keeps _))
  ]

  error-Keeps :
      (sequence : ℕ) (payload : List ℕ) (t : Transport W)
      → Keeps (handle_error port sequence payload) t
  unfolding handle_error
  error-Keeps sequence payload t = get-Keeps _ (elim (Option-cases (lookup sequence t.pending)) [
    | inl nothing ↦ rw (request_type-none port sequence t nothing) (
        if-Keeps _ (on_late_error port sequence payload) _
          (Calm-Keeps (on_late_error-Calm sequence payload t)) (count-Keeps _))
    | inr (r, found) ↦ rw (request_type-some port sequence t found) (record {
      holds = λ w.
          (on_request_error-From sequence payload r t).holds
            (only_request sequence t.pending r w found) (omega arith);
    })
  ])

  -- Whatever frame the modem sends, at most one request is in the window afterwards, and the ledger
  -- is as it was.
  pub on_frame-Keeps : (f : Frame) (t : Transport W) → Keeps (on_frame port f) t
  unfolding on_frame
  on_frame-Keeps f t = then-Keeps (count-Keeps _) (λ t'. get-Keeps _ (
      if-Keeps _ _ _ (count-Keeps _) (
        if-Keeps _ (on_info port f) _ (on_info-Keeps port f t') (
          if-Keeps _ (on_tx_result port f) _ (on_tx_result-Keeps port f t') (
            if-Keeps _ (on_radio_rx port f) _ (Calm-Keeps (on_radio_rx-Calm f t')) (
              if-Keeps _ (on_diagnostics port f) _ (on_diagnostics-Keeps f t') (
                if-Keeps _ (handle_error port f.sequence f.payload) _
                  (error-Keeps f.sequence f.payload t') (pure-Keeps tt))))))))
