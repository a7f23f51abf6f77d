-- ===== src/Host/Modem/Frames.antt =====
-- The ledger over the frames that the modem sends: INFO and RADIO_TX_RESULT.
use mowgli_lora_link.Prelude.{
  ℕ, ◌≤◌, ◌≡◌, refl, subst, ◌∙◌, arith, List, [], ◌∷◌, length, Bool, true, false, not, ◌==◌,
  if◌then◌else◌, if_cases, if_elim, none, some, Option-cases, Result-cases, inl, inr,
}
use mowgli_lora_link.Dict.{num_key, Dict, lookup}
use mowgli_lora_link.Protocol.Frame.{Frame}
use mowgli_lora_link.Protocol.Payloads.{Info, parse_info, parse_tx_result}
use mowgli_lora_link.Host.Modem.{
  Port, Transport, Request, Tx, sent, not_sent, Outcome, returned, raised, M, continue, ◌>>=◌, ◌>>◌,
  modify, count, radio_send, hello,
}
use mowgli_lora_link.Host.Modem.Session.{restart_host_session}
use mowgli_lora_link.Host.Modem.Handlers.{
  pop_pending, report, accept_info, handle_info, request_type, not_asked, on_info, on_result,
}
use mowgli_lora_link.Host.Modem.Ledger.{
  Kept, Kept-trans, Keeps, count-Keeps, then-Keeps, if-Keeps, get-Keeps,
}
use mowgli_lora_link.Host.Modem.Calm.{
  Calm, CalmAt, Same-Kept, count-Calm, metric-Calm, Calm-Keeps, if-Calm, pure-Calm, then-Calm,
  get-Calm, modify-Calm,
}
use mowgli_lora_link.Host.Modem.Handlers.{forget_timed_out, on_late_result, on_tx_result}
use mowgli_lora_link.Host.Modem.Restarts.{restart_host_session-Kept}
use mowgli_lora_link.Host.Modem.Answers.{only_request, popped_sends, settled-sends}

module _ {W : Type 0} where
  -- A method that starts with the window d keeps the ledger.
  pub record From {A : Type 0} (d : Dict ℕ Request) (m : M W A) (t : Transport W) : Type 0 where
    pub holds : t.pending ≡ d → length d ≤ 1 → Kept t (m t).0

  continue-From :
      {A B : Type 0} (d : Dict ℕ Request) (rest : A → M W B) (t : Transport W)
      (r : Transport W × Outcome A)
      → t.pending ≡ d
      → length d ≤ 1
      → CalmAt t r
      → ((a : A) (t' : Transport W) → From d (rest a) t')
      → Kept t (continue rest r).0
  unfolding CalmAt
  continue-From d rest t (t', returned a) e w h k =
      Kept-trans (Same-Kept (rw e w) h) ((k a t').holds (h.pending ∙ e) w)
  continue-From d rest t (t', raised x) e w h k = h

  pub bind-From :
      {A B : Type 0} {d : Dict ℕ Request} {m : M W A} {rest : A → M W B} {t : Transport W}
      → Calm m t
      → ((a : A) (t' : Transport W) → From d (rest a) t')
      → From d (m >>= rest) t
  unfolding ◌>>=◌
  bind-From {d} {m} {rest} {t} h k = record {
    holds = λ e w. continue-From d rest t (m t) e w (h.holds (rw e w)) k;
  }

  pub Keeps-From :
      {A : Type 0} {d : Dict ℕ Request} {m : M W A} {t : Transport W} → Keeps m t → From d m t
  Keeps-From h = record { holds = λ e w. h.holds (rw e w) }

  pub if-From :
      {A : Type 0} {d : Dict ℕ Request} (b : Bool) (m m' : M W A) {t : Transport W}
      → From d m t
      → From d m' t
      → From d (if b then m else m') t
  if-From {d} b m m' {t} h k = if_elim (λ (x : M W _). From d x t) b m m' h k

module _ {W : Type 0} (port : Port W) where
  pub restart-Keeps : (t : Transport W) → Keeps (restart_host_session port) t
  restart-Keeps t = record { holds = λ w. restart_host_session-Kept port t }

  pub request_type-none :
      (sequence : ℕ) (t : Transport W)
      → lookup sequence t.pending ≡ none
      → request_type port sequence t ≡ none
  unfolding request_type
  request_type-none sequence t h = rw (h, request_type)

  pub request_type-some :
      (sequence : ℕ) (t : Transport W) {r : Request}
      → lookup sequence t.pending ≡ some r
      → request_type port sequence t ≡ some r.typ
  unfolding request_type
  request_type-some sequence t h = rw (h, request_type)

  asked_request :
      (sequence typ : ℕ) (t : Transport W)
      → not_asked port (request_type port sequence t) typ ≡ false
      → (r : Request) × (lookup sequence t.pending ≡ some r) × ((r.typ == typ) ≡ true)
  asked_request sequence typ t h = elim (Option-cases (lookup sequence t.pending)) [
    | inl nothing ↦
        let absurdity : true ≡ false =
          subst (λ o. not_asked port o typ ≡ false) (request_type-none sequence t nothing) h in
        absurd (ground arith)
    | inr (r, found) ↦
        let same : not (r.typ == typ) ≡ false =
          subst (λ o. not_asked port o typ ≡ false) (request_type-some sequence t found) h in
        (r, found, ground arith)
  ]

  accept_info-Calm : (i : Info) (t : Transport W) → Calm (accept_info port i) t
  unfolding accept_info
  accept_info-Calm i t = get-Calm _ (
      then-Calm (if-Calm _ _ _ (count-Calm _) (pure-Calm _)) (λ t1.
        then-Calm (modify-Calm _ refl refl refl refl) (λ t2. then-Calm (metric-Calm _) (λ t3.
          then-Calm (metric-Calm _) (λ t4. then-Calm (metric-Calm _) (λ t5. metric-Calm _))))))

  handle_info-Calm : (payload : List ℕ) (t : Transport W) → Calm (handle_info port payload) t
  unfolding handle_info
  handle_info-Calm payload t = elim (Result-cases (parse_info payload)) [
    | inl (i, e) ↦ rw (e, handle_info) (then-Calm (accept_info-Calm i t) (λ t'. pure-Calm true))
    | inr (bad, e) ↦ rw (e, handle_info) (then-Calm (count-Calm _) (λ t'. pure-Calm false))
  ]

  -- The request of a type that does not enter the ledger is answered.
  pub pop-From :
      (sequence typ : ℕ) (r : Request) (t : Transport W)
      → (r.typ == typ) ≡ true
      → (typ == radio_send) ≡ false
      → From ((sequence, r) ∷ []) (pop_pending port sequence) t
  pop-From sequence typ r t same other = record {
    holds = λ e w. popped_sends port sequence r t e (ground arith);
  }

  -- A send is answered with a verdict.
  pub settle-From :
      (sequence : ℕ) (verdict : Tx) (r : Request) (rest : M W (Unit {0})) (t : Transport W)
      → (r.typ == radio_send) ≡ true
      → ((t' : Transport W) → Keeps rest t')
      → From
          ((sequence, r) ∷ [])
          (pop_pending port sequence >> (report port sequence verdict >> rest))
          t
  unfolding pop_pending report modify ◌>>◌
  settle-From sequence verdict r rest t send k = record {
    holds = λ e w.
        let h = settled-sends port sequence verdict r t e send in
        Kept-trans h
          ((k ((pop_pending port sequence >> report port sequence verdict) t).0).holds h.window);
  }

  -- A method behind the test that a request of the type is in the window.
  pub asked-Keeps :
      {A : Type 0} (f : Frame) (typ : ℕ) (m m' : M W A) (t : Transport W)
      → Keeps m t
      → ((r : Request) → (r.typ == typ) ≡ true → From ((f.sequence, r) ∷ []) m' t)
      → Keeps (if not_asked port (request_type port f.sequence t) typ then m else m') t
  asked-Keeps {A} f typ m m' t h k =
      if_cases (λ (x : M W A). Keeps x t) (not_asked port (request_type port f.sequence t) typ) m m'
        (λ e. h)
        (λ e.
          let (r, found, same) = asked_request f.sequence typ t e in
          record {
            holds =
                λ w. (k r same).holds (only_request f.sequence t.pending r w found) (omega arith);
          })

  pub on_info-Keeps : (f : Frame) (t : Transport W) → Keeps (on_info port f) t
  unfolding on_info
  on_info-Keeps f t = get-Keeps _ (
      asked-Keeps f hello _ _ t (count-Keeps _) (λ r same.
        bind-From (handle_info-Calm f.payload t) (λ handled t'.
          if-From handled _ _ (pop-From f.sequence hello r t' same refl)
            (Keeps-From (then-Keeps (count-Keeps _) restart-Keeps)))))

  on_late_result-Calm : (f : Frame) (t : Transport W) → Calm (on_late_result port f) t
  unfolding on_late_result forget_timed_out
  on_late_result-Calm f t = then-Calm (modify-Calm _ refl refl refl refl) (λ t'.
      elim (Result-cases (parse_tx_result f.payload)) [
        | inl (r, e) ↦ rw e (count-Calm _)
        | inr (x, e) ↦ rw e (count-Calm _)
      ])

  on_result-From :
      (f : Frame) (r : Request) (t : Transport W)
      → (r.typ == radio_send) ≡ true
      → From ((f.sequence, r) ∷ []) (on_result port f) t
  unfolding on_result
  on_result-From f r t send = elim (Result-cases (parse_tx_result f.payload)) [
    | inl (x, e) ↦
        rw (e, on_result)
          (settle-From f.sequence sent r (count "radio_tx_completed") t send (λ t'. count-Keeps _))
    | inr (x, e) ↦
        rw (e, on_result)
          (settle-From f.sequence not_sent r (count "radio_tx_result_decode_failures") t send
            (λ t'. count-Keeps _))
  ]

  pub on_tx_result-Keeps : (f : Frame) (t : Transport W) → Keeps (on_tx_result port f) t
  unfolding on_tx_result
  on_tx_result-Keeps f t = get-Keeps _ (
      if-Keeps _ (on_late_result port f) _ (Calm-Keeps (on_late_result-Calm f t))
        (asked-Keeps f radio_send _ _ t (count-Keeps _) (λ r send. on_result-From f r t send)))
