-- ===== src/Host/Modem/Ticks.antt =====
-- The ledger over the timeouts and the request for diagnostics, and over `tick` behind the read.
use mowgli_lora_link.Prelude.{
  inl, inr, ℕ, ◌+◌, ◌≤◌, leb, ◌≡◌, refl, ◌∙◌, arith, List, [], ◌∷◌, ◌++◌, length, append-nil, Bool,
  true, false, not, ◌==◌, ◌&&◌, if◌then◌else◌, if_cases,
}
use mowgli_lora_link.Dict.{num_key, Dict}
use mowgli_lora_link.Protocol.Frame.{Frame}
use mowgli_lora_link.Host.Modem.{
  Port, Transport, Request, add, uncertain, Outcome, returned, raised, M, continue, ◌>>=◌, ◌>>◌,
  pure, get, modify, attempt, metric, count, radio_send, get_diagnostics, is_os_error,
}
use mowgli_lora_link.Host.Modem.Session.{restart_host_session}
use mowgli_lora_link.Host.Modem.Handlers.{pop_pending, report}
use mowgli_lora_link.Host.Modem.Ledger.{
  Reports-same, sends, ledger, Kept, Kept-trans, Keeps, count-Keeps, then-Keeps, if-Keeps,
  get-Keeps,
}
use mowgli_lora_link.Host.Modem.Window.{numbers-append}
use mowgli_lora_link.Host.Modem.Calm.{Same-Kept, Calm-Keeps}
use mowgli_lora_link.Host.Modem.Calm.{monotonic-Calm}
use mowgli_lora_link.Host.Modem.Ledger.{continue-Kept, pure-Keeps}
use mowgli_lora_link.Host.Modem.Restarts.{restart_host_session-Kept}
use mowgli_lora_link.Host.Modem.Answers.{remove_only, popped_sends}
use mowgli_lora_link.Host.Modem.Frames.{From, Keeps-From, if-From, restart-Keeps}
use mowgli_lora_link.Protocol.Stream.{feed}
use mowgli_lora_link.Host.Modem.Errors.{on_frame-Keeps}
use mowgli_lora_link.Host.Modem.Session.{request, rotate_before_sequence_wrap}
use mowgli_lora_link.Host.Modem.Requests.{Requested, request-Requested}
use mowgli_lora_link.Host.Modem.Ledger.{recover-Kept, bind-Keeps, metric-Keeps, modify-Keeps}
use mowgli_lora_link.Host.Modem.Tick.{
  remember_timed_out, expire_timed_out, on_frames, time_out_send, time_out, ask_diagnostics,
  process,
}

module _ {W : Type 0} (port : Port W) where
  on_frames-Keeps : (frames : List Frame) (t : Transport W) → Keeps (on_frames port frames) t
  unfolding on_frames
  on_frames-Keeps [] t = pure-Keeps tt
  on_frames-Keeps (f ∷ frames) t = then-Keeps (on_frame-Keeps port f t) (on_frames-Keeps frames)

  popped-Keeps :
      (sequence : ℕ) (r : Request) (rest : M W (Unit {0})) (t : Transport W)
      → (r.typ == radio_send) ≡ false
      → ((t' : Transport W) → Keeps rest t')
      → From ((sequence, r) ∷ []) (pop_pending port sequence >> rest) t
  unfolding pop_pending modify ◌>>◌
  popped-Keeps sequence r rest t other k = record {
    holds = λ e w.
        let h = popped_sends port sequence r t e other in
        Kept-trans h ((k (pop_pending port sequence t).0).holds h.window);
  }

  timed_out_send :
      (sequence now : ℕ) (r : Request) (t : Transport W)
      → t.pending ≡ (sequence, r) ∷ []
      → (r.typ == radio_send) ≡ true
      → Kept t (time_out_send port sequence now t).0
  unfolding time_out_send pop_pending report remember_timed_out count metric modify sends ◌>>◌
  timed_out_send sequence now r t e send = record {
    window = rw (e, remove_only sequence r) (omega arith);
    same_ledger =
        rw (e, remove_only sequence r, send)
          (append-nil _ ∙ numbers-append t.tx_outcomes ((sequence, uncertain) ∷ []));
    continues = inr (rw (e, remove_only sequence r) refl);
    opens = inl (rw (e, remove_only sequence r) refl);
    extends = ((sequence, uncertain) ∷ [], refl);
  }

  timed_out_send-From :
      (sequence now : ℕ) (r : Request) (t : Transport W)
      → (r.typ == radio_send) ≡ true
      → From ((sequence, r) ∷ []) (time_out_send port sequence now >> pure tt) t
  unfolding ◌>>◌
  timed_out_send-From sequence now r t send = record {
    holds = λ e w.
        continue-Kept (λ u. pure tt) t (time_out_send port sequence now t)
          (timed_out_send sequence now r t e send) (λ u t'. pure-Keeps tt);
  }

  time_out-From : (now : ℕ) (d : Dict ℕ Request) (t : Transport W) → From d (time_out port now d) t
  unfolding time_out
  time_out-From now [] t = Keeps-From (pure-Keeps tt)
  time_out-From now (x ∷ y ∷ d) t = record { holds = λ e w. absurd (omega arith) }
  time_out-From now ((sequence, r) ∷ []) t = if-From _ _ _ (Keeps-From (pure-Keeps tt)) (
      if_cases (λ (x : M W (Unit {0})). From ((sequence, r) ∷ []) x t) (r.typ == radio_send) _ _
        (λ send. timed_out_send-From sequence now r t send)
        (λ other.
          if-From _ _ _
            (popped-Keeps sequence r _ t other
              (λ t'. then-Keeps (count-Keeps _) (restart-Keeps port)))
            (popped-Keeps sequence r _ t other
              (λ t'. then-Keeps (count-Keeps _) (λ t''. pure-Keeps tt)))))

  -- A request for diagnostics does not enter the ledger.
  diagnostics-Kept :
      (t : Transport W) (r : Transport W × Outcome ℕ)
      → Requested get_diagnostics t r
      → Kept t (continue (λ s. pure tt) r).0
  unfolding Requested pure
  diagnostics-Kept t (t', returned s) h = record {
    window = h.window;
    same_ledger = h.entered ∙ append-nil (ledger t);
    continues = inr h.sends_one;
    opens = inr (inl h.connected);
    extends = Reports-same h.outcomes;
  }
  diagnostics-Kept t (t', raised e) h = h

  send_request : M W (Unit {0})
  send_request = attempt (do _ ← request port get_diagnostics []; pure tt) is_os_error (pure tt)

  request-From : (t : Transport W) → From [] send_request t
  unfolding send_request attempt ◌>>=◌
  request-From t = record {
    holds = λ e w.
        recover-Kept is_os_error (pure tt) t _
          (diagnostics-Kept t (request port get_diagnostics [] t)
            (request-Requested port get_diagnostics [] t e))
          (λ t'. pure-Keeps tt);
  }

  -- `ask_diagnostics` behind the call of `_rotate_before_sequence_wrap`.
  ask : ℕ → Bool → M W (Unit {0})
  ask now rotated =
      if rotated
      then pure tt
      else (do modify (λ t. record t { last_diagnostics = now }); send_request)

  asked : (now : ℕ) (t : Transport W) → t.pending ≡ [] → Kept t (ask now false t).0
  unfolding ask modify ◌>>◌
  asked now t e =
      Kept-trans
        (Same-Kept (rw e (omega arith))
          (record { pending = refl; outcomes = refl; session = refl; connected = refl }))
        ((request-From (record t { last_diagnostics = now })).holds e (omega arith))

  rotated-Kept :
      (now : ℕ) (t : Transport W) (r : Transport W × Outcome (Unit {0}))
      → Kept t r.0
      → Kept t (continue (ask now) (continue (λ u. pure true) r)).0
  unfolding ask pure
  rotated-Kept now t (t', returned tt) h = h
  rotated-Kept now t (t', raised e) h = h

  rotate-Kept :
      (now : ℕ) (t : Transport W)
      → t.pending ≡ []
      → Kept t ((rotate_before_sequence_wrap port >>= ask now) t).0
  unfolding rotate_before_sequence_wrap get count metric modify pure ◌>>=◌ ◌>>◌
  rotate-Kept now t e =
      if_cases (λ (x : M W Bool). Kept t (continue (ask now) (x t)).0)
        (not (t.sequence == 0xFFFFFFFF)) _ _ (λ far. asked now t e)
        (λ near.
          let counted : Transport W = record t {
            metrics = t.metrics ++ (add "usb_session_rotations_sequence_wrap" 1 ∷ []);
          } in
          rotated-Kept now t (restart_host_session port counted) (
            Kept-trans
              (Same-Kept (rw e (omega arith))
                (record { pending = refl; outcomes = refl; session = refl; connected = refl }))
              (restart_host_session-Kept port counted)))

  ask_diagnostics-Keeps :
      (idle : Bool) (now : ℕ) (t : Transport W) → Keeps (ask_diagnostics port idle now) t
  unfolding ask_diagnostics ask send_request
  ask_diagnostics-Keeps idle now t = get-Keeps _ (
      if_cases (λ (x : M W (Unit {0})). Keeps x t)
        (t.handshake_complete
          && (length t.pending == 0
              && (idle
                  && (leb (t.last_radio_rx + 1000) now && leb (t.last_diagnostics + 1000) now))))
        _ _
        (λ quiet. record { holds = λ w. rotate-Kept now t (no_request t.pending (ground arith)) })
        (λ e. pure-Keeps tt))
    where
      no_request : (d : Dict ℕ Request) → length d ≡ 0 → d ≡ []
      no_request [] e = refl
      no_request (x ∷ d) e = absurd (omega arith)

  expire_timed_out-Keeps : (now : ℕ) (t : Transport W) → Keeps (expire_timed_out port now) t
  unfolding expire_timed_out
  expire_timed_out-Keeps now t = modify-Keeps _ refl refl refl refl

  time_out-Keeps : (now : ℕ) (t : Transport W) → Keeps (time_out port now t.pending) t
  time_out-Keeps now t = record { holds = λ w. (time_out-From now t.pending t).holds refl w }

  process-Keeps : (idle : Bool) (raw : List ℕ) (t : Transport W) → Keeps (process port idle raw) t
  unfolding process
  process-Keeps idle raw t = then-Keeps (if-Keeps _ _ _ (pure-Keeps tt) (metric-Keeps _)) (λ t1.
      get-Keeps _ (
        then-Keeps (modify-Keeps _ refl refl refl refl) (λ t2.
          then-Keeps (on_frames-Keeps (feed t1.decoder raw).1 t2) (λ t3.
            bind-Keeps (Calm-Keeps (monotonic-Calm port t3)) (λ now t4.
              then-Keeps (expire_timed_out-Keeps now t4) (λ t5. get-Keeps _ (
                then-Keeps (time_out-Keeps now t5) (λ t6.
                  then-Keeps (ask_diagnostics-Keeps idle now t6) (λ t7. get-Keeps _ (
                    then-Keeps (metric-Keeps _) (λ t8. then-Keeps (metric-Keeps _) (λ t9.
                      then-Keeps (metric-Keeps _) (λ u.
                        then-Keeps (modify-Keeps _ refl refl refl refl)
                          (λ v. pure-Keeps _))))))))))))))

  -- If at most one request is in the window, it is so after `tick` has handled what it read, whatever
  -- the modem sent and whatever the port does, and the ledger is as it was: a send that was in the
  -- window is there still or has got exactly one outcome, and no other outcome is reported.
  pub process-Kept :
      (idle : Bool) (raw : List ℕ) (t : Transport W)
      → length t.pending ≤ 1
      → Kept t (process port idle raw t).0
  process-Kept idle raw t w = (process-Keeps idle raw t).holds w
