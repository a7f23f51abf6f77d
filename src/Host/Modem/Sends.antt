-- ===== src/Host/Modem/Sends.antt =====
-- The ledger over `send_air`.
use mowgli_lora_link.Prelude.{
  ℕ, ◌≤◌, ◌≡◌, refl, ◌∙◌, arith, List, [], ◌∷◌, ◌++◌, length, Bool, true, false, not, ◌==◌,
  if◌then◌else◌, if_cases, if_elim, Option, none, some,
}
use mowgli_lora_link.Dict.{Dict}
use mowgli_lora_link.Host.Modem.{
  Port, Transport, Request, add, Outcome, returned, raised, M, continue, ◌>>=◌, ◌>>◌, pure, get,
  modify, recover, attempt, metric, count, is_os_error, radio_send,
}
use mowgli_lora_link.Host.Modem.Session.{
  ready_for_send, request, restart_host_session, rotate_before_sequence_wrap, send_air,
}
use mowgli_lora_link.Host.Modem.Ledger.{Kept, Kept-trans}
use mowgli_lora_link.Host.Modem.Calm.{Same, Same-Kept}
use mowgli_lora_link.Host.Modem.Requests.{Entered, Requested, request-Requested}
use mowgli_lora_link.Host.Modem.Restarts.{restart_host_session-Kept}

module _ {W : Type 0} where
  -- A send enters the ledger under the number returned; otherwise the ledger is as it was.
  unfoldable pub Sent : Transport W → Transport W × Outcome (Option ℕ) → Type 0
  Sent t (t', returned none) = Kept t t'
  Sent t (t', returned (some s)) = Entered radio_send t t' s
  Sent t (t', raised e) = Kept t t'

  Sent-behind :
      {t t' : Transport W} (r : Transport W × Outcome (Option ℕ))
      → t.pending ≡ []
      → Same t t'
      → Sent t' r
      → Sent t r
  unfolding Sent
  Sent-behind (u, returned none) e h k = Kept-trans (Same-Kept (rw e (omega arith)) h) k
  Sent-behind (u, returned (some s)) e h k = record {
    window = k.window;
    entered = k.entered ∙ rw (h.pending, h.outcomes) refl;
    sends_one = k.sends_one;
    connected = k.connected;
    session = k.session ∙ h.session;
    outcomes = k.outcomes ∙ h.outcomes;
  }
  Sent-behind (u, raised x) e h k = Kept-trans (Same-Kept (rw e (omega arith)) h) k

  -- A handler that returns none.
  count_none : M W (Option ℕ)
  count_none = do count "radio_send_usb_write_failures"; pure none

  handled-Sent :
      (t : Transport W) (r : Transport W × Outcome ℕ)
      → Requested radio_send t r
      → Sent t (recover is_os_error count_none (continue (λ s. pure (some s)) r))
  unfolding Requested Sent count_none pure count metric modify ◌>>◌
  handled-Sent t (t', returned s) h = h
  handled-Sent t (t', raised e) h =
      if_elim (λ (x : Transport W × Outcome (Option ℕ)). Sent t x) (is_os_error e) _ _
        (Kept-trans h (
          Same-Kept h.window
            (record { pending = refl; outcomes = refl; session = refl; connected = refl })))
        h

module _ {W : Type 0} (port : Port W) where
  -- `send_air` behind the call of `_rotate_before_sequence_wrap`.
  send_rotated : List ℕ → Bool → M W (Option ℕ)
  send_rotated payload rotated =
      if rotated then (do count "radio_send_session_rotated"; pure none) else (do
        count "application_frames_generated"
        metric (add "lora_bytes_queued" (length payload))
        attempt (do sequence ← request port radio_send payload; pure (some sequence)) is_os_error
            count_none)

  send_now-Sent :
      (payload : List ℕ) (t : Transport W) → t.pending ≡ [] → Sent t (send_rotated payload false t)
  unfolding send_rotated count metric modify attempt ◌>>=◌ ◌>>◌
  send_now-Sent payload t e =
      let counted : Transport W = record t {
        metrics =
            (t.metrics ++ (add "application_frames_generated" 1 ∷ []))
            ++ (add "lora_bytes_queued" (length payload) ∷ []);
      } in
      Sent-behind _ e (record { pending = refl; outcomes = refl; session = refl; connected = refl })
        (handled-Sent counted (request port radio_send payload counted)
          (request-Requested port radio_send payload counted e))

  rotated-Sent :
      (payload : List ℕ) (t : Transport W) (r : Transport W × Outcome (Unit {0}))
      → Kept t r.0
      → Sent t (continue (send_rotated payload) (continue (λ u. pure true) r))
  unfolding send_rotated pure Sent count metric modify ◌>>◌
  rotated-Sent payload t (t', returned u) h = Kept-trans h (
      Same-Kept h.window
        (record { pending = refl; outcomes = refl; session = refl; connected = refl }))
  rotated-Sent payload t (t', raised e) h = h

  rotate-Sent :
      (payload : List ℕ) (t : Transport W)
      → t.pending ≡ []
      → Sent t ((rotate_before_sequence_wrap port >>= send_rotated payload) t)
  unfolding rotate_before_sequence_wrap get count metric modify pure ◌>>=◌ ◌>>◌
  rotate-Sent payload t e =
      if_cases (λ (x : M W Bool). Sent t (continue (send_rotated payload) (x t)))
        (not (t.sequence == 0xFFFFFFFF)) _ _ (λ far. send_now-Sent payload t e)
        (λ near.
          let counted : Transport W = record t {
            metrics = t.metrics ++ (add "usb_session_rotations_sequence_wrap" 1 ∷ []);
          } in
          rotated-Sent payload t (restart_host_session port counted) (
            Kept-trans
              (Same-Kept (rw e (omega arith))
                (record { pending = refl; outcomes = refl; session = refl; connected = refl }))
              (restart_host_session-Kept port counted)))

  -- If at most one request is in the window, it is so after `send_air`. The call returns a number only
  -- if the port is open: then the send is in the window, alone and in the same host session, and enters
  -- the ledger under that number behind all that came before. Otherwise the ledger is as it was, also
  -- when the call raises.
  pub send_air-Sent :
      (payload : List ℕ) (t : Transport W) → length t.pending ≤ 1 → Sent t (send_air port payload t)
  unfolding send_air send_rotated count_none get count metric modify pure Sent ◌>>=◌ ◌>>◌
  send_air-Sent payload t w =
      if_cases (λ (x : M W (Option ℕ)). Sent t (x t)) (not (ready_for_send t)) _ _
        (λ busy.
          Same-Kept w
            (record { pending = refl; outcomes = refl; session = refl; connected = refl }))
        (λ ready. rotate-Sent payload t (no_request t.pending (ground arith)))
    where
      no_request : (d : Dict ℕ Request) → length d ≡ 0 → d ≡ []
      no_request [] e = refl
      no_request (x ∷ d) e = absurd (omega arith)
