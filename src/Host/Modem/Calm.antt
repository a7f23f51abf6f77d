-- ===== src/Host/Modem/Calm.antt =====
-- The statements that leave the window and the outcomes as they are, unless they raise.
use mowgli_lora_link.Prelude.{
  String, ℕ, zero, suc, ◌≤◌, ◌≡◌, refl, ◌∙◌, ap, arith, List, [], ◌∷◌, ◌++◌, length, drop,
  append-nil, Bool, true, false, if◌then◌else◌, if_elim, Option, none, some, Result-cases, inl, inr,
}
use mowgli_lora_link.Dict.{num_key}
use mowgli_lora_link.Protocol.Frame.{Frame, encode_frame}
use mowgli_lora_link.Host.Modem.{
  Port, Transport, Update, uncertain, Raised, os_error, Outcome, returned, raised, M, continue,
  ◌>>=◌, ◌>>◌, pure, raise, get, modify, recover, attempt, metric, count,
}
use mowgli_lora_link.Host.Modem.Session.{
  settled, monotonic, randrange, close_port, disconnect, write_some, taken, write_loop, write, next,
  frame_bytes,
}
use mowgli_lora_link.Host.Modem.Ledger.{
  Reports-same, sends, numbers, Kept, Kept-refl, Kept-trans, Keeps,
}
use mowgli_lora_link.Host.Modem.Window.{numbers-settled, numbers-append}

module _ {W : Type 0} where
  -- The window and the outcomes of t' are those of t.
  pub record Same (t t' : Transport W) : Type 0 where
    pub pending : t'.pending ≡ t.pending
    pub outcomes : t'.tx_outcomes ≡ t.tx_outcomes
    pub session : t'.session ≡ t.session
    pub connected : t'.connected ≡ t.connected

  pub Same-trans : {t t' t'' : Transport W} → Same t t' → Same t' t'' → Same t t''
  Same-trans h k = record {
    pending = k.pending ∙ h.pending;
    outcomes = k.outcomes ∙ h.outcomes;
    session = k.session ∙ h.session;
    connected = k.connected ∙ h.connected;
  }

  pub Same-Kept : {t t' : Transport W} → length t.pending ≤ 1 → Same t t' → Kept t t'
  Same-Kept w h = record {
    window = rw h.pending w;
    same_ledger = rw (h.pending, h.outcomes) refl;
    continues = inl (h.session, ap sends h.pending);
    opens = inr (inr (h.connected, h.pending));
    extends = Reports-same h.outcomes;
  }

  unfoldable pub CalmAt : {A : Type 0} → Transport W → Transport W × Outcome A → Type 0
  CalmAt t (t', returned a) = Same t t'
  CalmAt t (t', raised e) = Kept t t'

  pub record Calm {A : Type 0} (m : M W A) (t : Transport W) : Type 0 where
    pub holds : length t.pending ≤ 1 → CalmAt t (m t)

  CalmAt-behind :
      {A : Type 0} {t t' : Transport W} (r : Transport W × Outcome A)
      → length t.pending ≤ 1
      → Same t t'
      → CalmAt t' r
      → CalmAt t r
  unfolding CalmAt
  CalmAt-behind (u, returned a) w h k = Same-trans h k
  CalmAt-behind (u, raised e) w h k = Kept-trans (Same-Kept w h) k

  continue-CalmAt :
      {A B : Type 0} (next : A → M W B) (t : Transport W) (r : Transport W × Outcome A)
      → length t.pending ≤ 1
      → CalmAt t r
      → ((a : A) (t' : Transport W) → Calm (next a) t')
      → CalmAt t (continue next r)
  unfolding CalmAt
  continue-CalmAt next t (t', returned a) w h k =
      CalmAt-behind (next a t') w h ((k a t').holds (rw h.pending w))
  continue-CalmAt next t (t', raised e) w h k = h

  pub bind-Calm :
      {A B : Type 0} {m : M W A} {next : A → M W B} {t : Transport W}
      → Calm m t
      → ((a : A) (t' : Transport W) → Calm (next a) t')
      → Calm (m >>= next) t
  unfolding ◌>>=◌
  bind-Calm {m} {next} {t} h k = record {
    holds = λ w. continue-CalmAt next t (m t) w (h.holds w) k;
  }

  pub then-Calm :
      {B : Type 0} {m : M W (Unit {0})} {next : M W B} {t : Transport W}
      → Calm m t
      → ((t' : Transport W) → Calm next t')
      → Calm (m >> next) t
  unfolding ◌>>◌
  then-Calm {m} {next} {t} h k = record {
    holds = λ w. continue-CalmAt (λ u. next) t (m t) w (h.holds w) (λ u. k);
  }

  pub get-Calm :
      {B : Type 0} (rest : Transport W → M W B) {t : Transport W}
      → Calm (rest t) t
      → Calm (get >>= rest) t
  unfolding ◌>>=◌ get
  get-Calm rest h = record { holds = h.holds }

  pub pure-Calm : {A : Type 0} (a : A) {t : Transport W} → Calm (pure a) t
  unfolding pure CalmAt
  pure-Calm a = record {
    holds = λ w. record { pending = refl; outcomes = refl; session = refl; connected = refl };
  }

  pub raise-Calm : {A : Type 0} (e : Raised) {t : Transport W} → Calm {A = A} (raise e) t
  unfolding raise CalmAt
  raise-Calm e = record { holds = Kept-refl }

  pub modify-Calm :
      (change : Transport W → Transport W) {t : Transport W}
      → (change t).pending ≡ t.pending
      → (change t).tx_outcomes ≡ t.tx_outcomes
      → (change t).session ≡ t.session
      → (change t).connected ≡ t.connected
      → Calm (modify change) t
  unfolding modify CalmAt
  modify-Calm change p o s c = record {
    holds = λ w. record { pending = p; outcomes = o; session = s; connected = c };
  }

  pub metric-Calm : (u : Update) {t : Transport W} → Calm (metric u) t
  unfolding metric
  metric-Calm u = modify-Calm _ refl refl refl refl

  pub count-Calm : (name : String) {t : Transport W} → Calm (count name) t
  unfolding count
  count-Calm name = metric-Calm _

  pub if-Calm :
      {A : Type 0} (b : Bool) (m m' : M W A) {t : Transport W}
      → Calm m t
      → Calm m' t
      → Calm (if b then m else m') t
  if-Calm b m m' {t} h k = if_elim (λ (x : M W _). Calm x t) b m m' h k

  pub CalmAt-Kept :
      {A : Type 0} {t : Transport W} (r : Transport W × Outcome A)
      → length t.pending ≤ 1
      → CalmAt t r
      → Kept t r.0
  unfolding CalmAt
  CalmAt-Kept (t', returned a) w h = Same-Kept w h
  CalmAt-Kept (t', raised e) w h = h

  pub Calm-Keeps : {A : Type 0} {m : M W A} {t : Transport W} → Calm m t → Keeps m t
  Calm-Keeps {m} {t} h = record { holds = λ w. CalmAt-Kept (m t) w (h.holds w) }

  -- A handler keeps the ledger and raises.
  FailsAt : {A : Type 0} → Transport W → Transport W × Outcome A → Type 0
  FailsAt t (t', returned a) = true ≡ false
  FailsAt t (t', raised e) = Kept t t'

  FailsAt-behind :
      {A : Type 0} {t t' : Transport W} (r : Transport W × Outcome A)
      → Kept t t'
      → FailsAt t' r
      → CalmAt t r
  unfolding FailsAt CalmAt
  FailsAt-behind (u, returned a) h k = ground arith
  FailsAt-behind (u, raised e) h k = Kept-trans h k

  recover-CalmAt :
      {A : Type 0} (caught : Raised → Bool) (handler : M W A) (t : Transport W)
      (r : Transport W × Outcome A)
      → CalmAt t r
      → ((t' : Transport W) → FailsAt t' (handler t'))
      → CalmAt t (recover caught handler r)
  unfolding CalmAt
  recover-CalmAt caught handler t (t', returned a) h k = h
  recover-CalmAt {A} caught handler t (t', raised e) h k =
      if_elim (λ (x : Transport W × Outcome A). CalmAt t x) (caught e) _ _
        (FailsAt-behind (handler t') h (k t')) h

  attempt-Calm :
      {A : Type 0} (body handler : M W A) (caught : Raised → Bool) {t : Transport W}
      → Calm body t
      → ((t' : Transport W) → FailsAt t' (handler t'))
      → Calm (attempt body caught handler) t
  unfolding attempt
  attempt-Calm body handler caught {t} h k = record {
    holds = λ w. recover-CalmAt caught handler t (body t) (h.holds w) k;
  }

module _ {W : Type 0} (port : Port W) where
  pub monotonic-Calm : (t : Transport W) → Calm (monotonic port) t
  unfolding monotonic CalmAt
  monotonic-Calm t = record {
    holds = λ w. record { pending = refl; outcomes = refl; session = refl; connected = refl };
  }

  randrange-Calm : (t : Transport W) → Calm (randrange port) t
  unfolding randrange CalmAt
  randrange-Calm t = record {
    holds = λ w. record { pending = refl; outcomes = refl; session = refl; connected = refl };
  }

  write_some-Calm : (raw : List ℕ) (t : Transport W) → Calm (write_some port raw) t
  unfolding write_some CalmAt
  write_some-Calm raw t = record {
    holds = λ w. record { pending = refl; outcomes = refl; session = refl; connected = refl };
  }

  taken-Calm : (written : Option ℕ) (t : Transport W) → Calm (taken port written) t
  unfolding taken
  taken-Calm none t = raise-Calm _
  taken-Calm (some zero) t = raise-Calm _
  taken-Calm (some (suc n)) t = then-Calm (metric-Calm _) (λ t'. pure-Calm _)

  write_loop-Calm : (fuel : ℕ) (raw : List ℕ) (t : Transport W) → Calm (write_loop port fuel raw) t
  unfolding write_loop
  write_loop-Calm fuel [] t = pure-Calm _
  write_loop-Calm zero (byte ∷ raw) t = raise-Calm _
  write_loop-Calm (suc fuel) (byte ∷ raw) t = bind-Calm (write_some-Calm _ t) (λ written t'.
      bind-Calm (taken-Calm written t') (λ n t''. write_loop-Calm fuel (drop n raw) t''))

  -- What `_write` does with an OSError.
  give_up : M W (Unit {0})
  give_up = do count "usb_write_failures"; disconnect port; raise os_error

  give_up-FailsAt : (t : Transport W) → FailsAt t (give_up t)
  unfolding give_up FailsAt disconnect sends close_port monotonic ◌>>=◌ ◌>>◌ modify metric count
      raise
  give_up-FailsAt t = record {
    window = omega arith;
    same_ledger =
        append-nil _
        ∙ numbers-append t.tx_outcomes (settled uncertain t.pending)
        ∙ ap (λ x. numbers t.tx_outcomes ++ x) (numbers-settled uncertain t.pending);
    continues = inr refl;
    opens = inl refl;
    extends = (settled uncertain t.pending, refl);
  }

  pub write-Calm : (raw : List ℕ) (t : Transport W) → Calm (write port raw) t
  unfolding write give_up
  write-Calm raw t = get-Calm _ (
      if-Calm _ _ _ (raise-Calm _)
        (attempt-Calm _ _ _ (write_loop-Calm (length raw) raw t) give_up-FailsAt))

  pub next-Calm : (t : Transport W) → Calm (next port) t
  unfolding next CalmAt
  next-Calm t = record {
    holds = λ w. record { pending = refl; outcomes = refl; session = refl; connected = refl };
  }

  pub frame_bytes-Calm :
      (typ sequence : ℕ) (payload : List ℕ) (t : Transport W)
      → Calm (frame_bytes port typ sequence payload) t
  unfolding frame_bytes CalmAt
  frame_bytes-Calm typ sequence payload t =
      let frame : Frame = record {
        msg_type = typ;
        session = t.session;
        sequence = sequence;
        payload = payload;
      } in
      elim (Result-cases (encode_frame frame)) [
        | inl (raw, e) ↦ record {
          holds = λ w.
              rw (e, frame_bytes)
                (record { pending = refl; outcomes = refl; session = refl; connected = refl });
        }
        | inr (bad, e) ↦ record { holds = λ w. rw (e, frame_bytes) (Kept-refl w) }
      ]
