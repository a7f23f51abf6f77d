-- ===== src/Host/Modem/Restarts.antt =====
-- The ledger over a new host session.
use mowgli_lora_link.Prelude.{
  inl, inr, ℕ, suc, sym, map, ◌∷◌, ◌==◌, Bool-cases, length-append, ◌≤◌, ◌≡◌, refl, ◌∙◌, ap, arith,
  List, [], ◌++◌, length, append-nil, Bool, if_elim,
}
use mowgli_lora_link.Dict.{num_key, Dict}
use mowgli_lora_link.Host.Modem.{
  Port, Transport, Request, Tx, radio_send, put, not_sent, Raised, Outcome, returned, raised, M,
  continue, ◌>>=◌, ◌>>◌, pure, get, modify, recover, attempt, metric, count, hello, is_os_error,
}
use mowgli_lora_link.Host.Modem.Session.{
  settled, randrange, begin_fresh_session, write, request, send_hello, restart_host_session,
}
use mowgli_lora_link.Host.Modem.Ledger.{
  Reports-same, sends, numbers, ledger, Kept, Kept-trans, Keeps, count-Keeps,
}
use mowgli_lora_link.Host.Modem.Window.{numbers-settled, numbers-append}
use mowgli_lora_link.Host.Modem.Calm.{Calm, CalmAt, Same-Kept, write-Calm, metric-Calm, Calm-Keeps}
use mowgli_lora_link.Host.Modem.Requests.{Requested, request-Requested}

settled-sends :
    (verdict : Tx) (pending : Dict ℕ Request)
    → settled verdict pending ≡ map (λ s. (s, verdict)) (sends pending)
unfolding settled sends
settled-sends verdict [] = refl
settled-sends verdict ((sequence, r) ∷ pending) = elim (Bool-cases (r.typ == radio_send)) [
  | inl e ↦ rw (e, settled-sends verdict pending) refl
  | inr e ↦ rw (e, settled-sends verdict pending) refl
]

length-numbers : (xs : List (ℕ × Tx)) → length (numbers xs) ≡ length xs
length-numbers [] = refl
length-numbers ((s, verdict) ∷ xs) = ap suc (length-numbers xs)

no_more : (xs : List (ℕ × Tx)) → length xs ≡ 0 → xs ≡ []
no_more [] h = refl
no_more (x ∷ xs) h = absurd (omega (arith, h))

module _ {W : Type 0} where
  no_send_left : (t t' : Transport W) → t.pending ≡ [] → Kept t t' → sends t'.pending ≡ []
  unfolding sends
  no_send_left t t' e h = elim h.continues [ inl same ↦ same.1 ∙ rw e refl | inr empty ↦ empty ]

  -- No send is in the window any more, and exactly the sends that were in it are reported, as not sent.
  pub record Restarted (t t' : Transport W) : Type 0 where
    pub window : length t'.pending ≤ 1
    pub no_send : sends t'.pending ≡ []
    pub outcomes : t'.tx_outcomes ≡ t.tx_outcomes ++ map (λ s. (s, not_sent)) (sends t.pending)

  ledger_reported :
      (t t' : Transport W)
      → t.pending ≡ []
      → sends t'.pending ≡ []
      → ledger t' ≡ ledger t
      → numbers t'.tx_outcomes ≡ numbers t.tx_outcomes
  unfolding sends
  ledger_reported t t' e empty h =
      sym (append-nil (numbers t'.tx_outcomes))
      ∙ ap (λ xs. numbers t'.tx_outcomes ++ xs) (sym empty)
      ∙ h
      ∙ rw e (append-nil (numbers t.tx_outcomes))

  -- A method that starts with no request in the window keeps the ledger.
  pub record Emptied {A : Type 0} (m : M W A) (t : Transport W) : Type 0 where
    pub holds : t.pending ≡ [] → Kept t (m t).0

  continue-Emptied :
      {A B : Type 0} (rest : A → M W B) (t : Transport W) (r : Transport W × Outcome A)
      → t.pending ≡ []
      → CalmAt t r
      → ((a : A) (t' : Transport W) → Emptied (rest a) t')
      → Kept t (continue rest r).0
  unfolding CalmAt
  continue-Emptied rest t (t', returned a) e h k =
      Kept-trans (Same-Kept (rw e (omega arith)) h) ((k a t').holds (h.pending ∙ e))
  continue-Emptied rest t (t', raised x) e h k = h

  pub then-Emptied :
      {B : Type 0} {m : M W (Unit {0})} {rest : M W B} {t : Transport W}
      → Calm m t
      → ((t' : Transport W) → Emptied rest t')
      → Emptied (m >> rest) t
  unfolding ◌>>◌
  then-Emptied {m} {rest} {t} h k = record {
    holds = λ e. continue-Emptied (λ u. rest) t (m t) e (h.holds (rw e (omega arith))) (λ u. k);
  }

  -- A method that starts with no request in the window keeps the ledger and leaves it so.
  pub record Clears {A : Type 0} (m : M W A) (t : Transport W) : Type 0 where
    pub holds : t.pending ≡ [] → Kept t (m t).0 × ((m t).0.pending ≡ [])

  continue-Clears :
      {B : Type 0} (rest : M W B) (t : Transport W) (r : Transport W × Outcome (Unit {0}))
      → Kept t r.0
      → r.0.pending ≡ []
      → ((t' : Transport W) → Emptied rest t')
      → Kept t (continue (λ u. rest) r).0
  continue-Clears rest t (t', returned u) h e k = Kept-trans h ((k t').holds e)
  continue-Clears rest t (t', raised x) h e k = h

  pub Clears-Emptied :
      {B : Type 0} {m : M W (Unit {0})} {rest : M W B} {t : Transport W}
      → Clears m t
      → ((t' : Transport W) → Emptied rest t')
      → Emptied (m >> rest) t
  unfolding ◌>>◌
  Clears-Emptied {m} {rest} {t} h k = record {
    holds = λ e. let (kept, empty) = h.holds e in continue-Clears rest t (m t) kept empty k;
  }

  recover-Emptied :
      {A : Type 0} (caught : Raised → Bool) (handler : M W A) (t : Transport W)
      (r : Transport W × Outcome A)
      → Kept t r.0
      → ((t' : Transport W) → Keeps handler t')
      → Kept t (recover caught handler r).0
  recover-Emptied caught handler t (t', returned a) h k = h
  recover-Emptied {A} caught handler t (t', raised e) h k =
      if_elim (λ (x : Transport W × Outcome A). Kept t x.0) (caught e) _ _
        (Kept-trans h ((k t').holds h.window)) h

  pub attempt-Emptied :
      {A : Type 0} (body handler : M W A) (caught : Raised → Bool) {t : Transport W}
      → Emptied body t
      → ((t' : Transport W) → Keeps handler t')
      → Emptied (attempt body caught handler) t
  unfolding attempt
  attempt-Emptied body handler caught {t} h k = record {
    holds = λ e. recover-Emptied caught handler t (body t) (h.holds e) k;
  }

  -- A HELLO that is asked for does not enter the ledger.
  hello-Kept :
      (t : Transport W) (r : Transport W × Outcome ℕ)
      → Requested hello t r
      → Kept t (continue (λ s. pure tt) r).0
  unfolding Requested pure
  hello-Kept t (t', returned s) h = record {
    window = h.window;
    same_ledger = h.entered ∙ append-nil (ledger t);
    continues = inr h.sends_one;
    opens = inr (inl h.connected);
    extends = Reports-same h.outcomes;
  }
  hello-Kept t (t', raised e) h = h

module _ {W : Type 0} (port : Port W) where
  pub send_hello-Emptied : (t : Transport W) → Emptied (send_hello port) t
  unfolding send_hello ◌>>=◌
  send_hello-Emptied t = record {
    holds = λ e. hello-Kept t (request port hello [] t) (request-Requested port hello [] t e);
  }

  -- A session that begins with an empty window leaves it empty.
  pub begin_fresh_session-Clears : (t : Transport W) → Clears (begin_fresh_session port) t
  unfolding begin_fresh_session randrange get modify metric sends ◌>>=◌ ◌>>◌
  begin_fresh_session-Clears t = record {
    holds = λ e. (
      record {
        window = rw e (omega arith);
        same_ledger = refl;
        continues = inr (rw e refl);
        opens = inr (inr (refl, refl));
        extends = Reports-same refl;
      },
      e,
    );
  }

  -- `_restart_host_session` behind the lines that clear the window.
  greet : M W (Unit {0})
  greet = do
    begin_fresh_session port
    metric (put "modem_handshake_complete" 0)
    metric (put "modem_ready_for_send" 0)
    attempt (send_hello port) is_os_error (count "usb_session_reset_write_failures")

  greet-Emptied : (t : Transport W) → Emptied greet t
  unfolding greet
  greet-Emptied t = Clears-Emptied (begin_fresh_session-Clears t) (λ t1.
      then-Emptied (metric-Calm _) (λ t2. then-Emptied (metric-Calm _) (λ t3.
        attempt-Emptied (send_hello port) _ is_os_error (send_hello-Emptied t3)
          (λ t4. count-Keeps _))))

  cleared : Transport W → Transport W
  cleared t = record t {
    tx_outcomes = t.tx_outcomes ++ settled not_sent t.pending;
    pending = [];
    received = [];
  }

  cleared-Kept : (t : Transport W) → Kept t (cleared t)
  unfolding cleared sends
  cleared-Kept t = record {
    window = omega arith;
    same_ledger =
        append-nil _
        ∙ numbers-append t.tx_outcomes (settled not_sent t.pending)
        ∙ ap (λ x. numbers t.tx_outcomes ++ x) (numbers-settled not_sent t.pending);
    continues = inr refl;
    opens = inl refl;
    extends = (settled not_sent t.pending, refl);
  }

  pub restart_host_session-Kept : (t : Transport W) → Kept t (restart_host_session port t).0
  unfolding restart_host_session greet cleared modify ◌>>◌
  restart_host_session-Kept t = Kept-trans (cleared-Kept t) ((greet-Emptied (cleared t)).holds refl)

  -- A method that starts with an empty window and keeps the ledger reports nothing.
  silent : (t t' : Transport W) → t.pending ≡ [] → Kept t t' → t'.tx_outcomes ≡ t.tx_outcomes
  silent t t' e h =
      let (more, grown) = h.extends in
      let none_entered = no_send_left t t' e h in
      let same : length (numbers t'.tx_outcomes) ≡ length (numbers t.tx_outcomes) =
        ap length (ledger_reported t t' e none_entered h.same_ledger) in
      let size = ap length grown in
      grown
      ∙ rw
          (no_more more (
            omega (
              arith,
              same,
              size,
              length-numbers t.tx_outcomes,
              length-numbers t'.tx_outcomes,
              length-append t.tx_outcomes more,
            )))
          (append-nil t.tx_outcomes)

  -- Whatever is in the window and whatever the port does, after `_restart_host_session` at most one
  -- request is in the window and it is no RADIO_SEND, and what has been reported meanwhile are exactly
  -- the sends that waited, in their order, each as not sent.
  pub restart_host_session-Restarted :
      (t : Transport W) → Restarted t (restart_host_session port t).0
  unfolding restart_host_session greet cleared modify ◌>>◌
  restart_host_session-Restarted t =
      let t' = (greet (cleared t)).0 in
      let h = (greet-Emptied (cleared t)).holds refl in
      record {
        window = h.window;
        no_send = no_send_left (cleared t) t' refl h;
        outcomes =
            silent (cleared t) t' refl h
            ∙ ap (λ xs. t.tx_outcomes ++ xs) (settled-sends not_sent t.pending);
      }

  -- If at most one request is in the window, it is so after `_write`, whatever the port does, and the
  -- ledger is as it was: if the port fails, a send that waited has got its outcome.
  pub write-Kept :
      (raw : List ℕ) (t : Transport W) → length t.pending ≤ 1 → Kept t (write port raw t).0
  write-Kept raw t w = (Calm-Keeps (write-Calm port raw t)).holds w
