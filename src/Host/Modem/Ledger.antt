-- ===== src/Host/Modem/Ledger.antt =====
-- The requests that the transport waits for, and the outcomes that it reports.
use mowgli_lora_link.Prelude.{
  String, ℕ, ap, true, ◌⊎◌, inl, inr, ◌≤◌, ◌≡◌, refl, sym, append-nil, append_assoc, ◌∙◌, List, [],
  ◌∷◌, ◌++◌, length, Bool, ◌==◌, if◌then◌else◌, if_elim,
}
use mowgli_lora_link.Dict.{num_key, Dict}
use mowgli_lora_link.Host.Modem.{
  Transport, Request, Update, Tx, Raised, Outcome, returned, raised, M, continue, ◌>>=◌, ◌>>◌, pure,
  raise, get, modify, recover, attempt, metric, count, radio_send,
}

-- The sequence numbers of the RADIO_SEND requests in the window.
unfoldable pub sends : Dict ℕ Request → List ℕ
sends [] = []
sends ((sequence, request) ∷ pending) =
    if request.typ == radio_send then sequence ∷ sends pending else sends pending

abbrev pub numbers : List (ℕ × Tx) → List ℕ
numbers [] = []
numbers ((sequence, verdict) ∷ outcomes) = sequence ∷ numbers outcomes

pub Reports-same : {xs ys : List (ℕ × Tx)} → ys ≡ xs → (more : List (ℕ × Tx)) × (ys ≡ xs ++ more)
Reports-same {xs} e = ([], e ∙ sym (append-nil xs))

module _ {W : Type 0} where
  -- The sends whose outcome is reported, and behind them those that wait for one.
  abbrev pub ledger : Transport W → List ℕ
  ledger t = numbers t.tx_outcomes ++ sends t.pending

  -- The session and the sends in the window are the same, or no send is in it.
  abbrev pub Continues : Transport W → Transport W → Type 0
  Continues t t' =
      ((t'.session ≡ t.session) × (sends t'.pending ≡ sends t.pending)) ⊎ (sends t'.pending ≡ [])

  -- The window is empty, or the port is open, or both are as they were.
  abbrev pub Opens : Transport W → Transport W → Type 0
  Opens t t' =
      (t'.pending ≡ [])
      ⊎ ((t'.connected ≡ true) ⊎ ((t'.connected ≡ t.connected) × (t'.pending ≡ t.pending)))

  -- The outcomes that were reported are still there, and what follows is new.
  abbrev pub Reports : Transport W → Transport W → Type 0
  Reports t t' = (more : List (ℕ × Tx)) × (t'.tx_outcomes ≡ t.tx_outcomes ++ more)

  Reports-trans : (t t' t'' : Transport W) → Reports t t' → Reports t' t'' → Reports t t''
  Reports-trans t t' t'' (more, e) (further, e') =
      (more ++ further, e' ∙ rw e (append_assoc t.tx_outcomes more further))

  -- At most one request is in the window.
  pub record Kept (t t' : Transport W) : Type 0 where
    pub window : length t'.pending ≤ 1
    pub same_ledger : ledger t' ≡ ledger t
    pub continues : Continues t t'
    pub opens : Opens t t'
    pub extends : Reports t t'

  -- A method that starts at t with one request at most in the window keeps the ledger.
  pub record Keeps {A : Type 0} (m : M W A) (t : Transport W) : Type 0 where
    pub holds : length t.pending ≤ 1 → Kept t (m t).0

  Continues-trans : (t t' t'' : Transport W) → Continues t t' → Continues t' t'' → Continues t t''
  Continues-trans t t' t'' (inl h) (inl k) = inl (k.0 ∙ h.0, k.1 ∙ h.1)
  Continues-trans t t' t'' (inr h) (inl k) = inr (k.1 ∙ h)
  Continues-trans t t' t'' h (inr k) = inr k

  Opens-trans : (t t' t'' : Transport W) → Opens t t' → Opens t' t'' → Opens t t''
  Opens-trans t t' t'' h (inl k) = inl k
  Opens-trans t t' t'' h (inr (inl k)) = inr (inl k)
  Opens-trans t t' t'' (inl h) (inr (inr k)) = inl (k.1 ∙ h)
  Opens-trans t t' t'' (inr (inl h)) (inr (inr k)) = inr (inl (k.0 ∙ h))
  Opens-trans t t' t'' (inr (inr h)) (inr (inr k)) = inr (inr (k.0 ∙ h.0, k.1 ∙ h.1))

  pub Kept-trans : {t t' t'' : Transport W} → Kept t t' → Kept t' t'' → Kept t t''
  Kept-trans {t} {t'} {t''} h k = record {
    window = k.window;
    same_ledger = k.same_ledger ∙ h.same_ledger;
    continues = Continues-trans t t' t'' h.continues k.continues;
    opens = Opens-trans t t' t'' h.opens k.opens;
    extends = Reports-trans t t' t'' h.extends k.extends;
  }

  pub Kept-refl : {t : Transport W} → length t.pending ≤ 1 → Kept t t
  Kept-refl w = record {
    window = w;
    same_ledger = refl;
    continues = inl (refl, refl);
    opens = inr (inr (refl, refl));
    extends = Reports-same refl;
  }

  pub continue-Kept :
      {A B : Type 0} (next : A → M W B) (t : Transport W) (r : Transport W × Outcome A)
      → Kept t r.0
      → ((a : A) (t' : Transport W) → Keeps (next a) t')
      → Kept t (continue next r).0
  continue-Kept next t (t', returned a) h k = Kept-trans h ((k a t').holds h.window)
  continue-Kept next t (t', raised e) h k = h

  pub bind-Keeps :
      {A B : Type 0} {m : M W A} {next : A → M W B} {t : Transport W}
      → Keeps m t
      → ((a : A) (t' : Transport W) → Keeps (next a) t')
      → Keeps (m >>= next) t
  unfolding ◌>>=◌
  bind-Keeps {m} {next} {t} h k = record { holds = λ w. continue-Kept next t (m t) (h.holds w) k }

  pub then-Keeps :
      {B : Type 0} {m : M W (Unit {0})} {next : M W B} {t : Transport W}
      → Keeps m t
      → ((t' : Transport W) → Keeps next t')
      → Keeps (m >> next) t
  unfolding ◌>>◌
  then-Keeps {m} {next} {t} h k = record {
    holds = λ w. continue-Kept (λ u. next) t (m t) (h.holds w) (λ u. k);
  }

  pub get-Keeps :
      {B : Type 0} (next : Transport W → M W B) {t : Transport W}
      → Keeps (next t) t
      → Keeps (get >>= next) t
  unfolding ◌>>=◌ get
  get-Keeps next h = record { holds = h.holds }

  pub pure-Keeps : {A : Type 0} (a : A) {t : Transport W} → Keeps (pure a) t
  unfolding pure
  pure-Keeps a = record { holds = Kept-refl }

  pub raise-Keeps : {A : Type 0} (e : Raised) {t : Transport W} → Keeps {A = A} (raise e) t
  unfolding raise
  raise-Keeps e = record { holds = Kept-refl }

  -- A change of neither the window nor the outcomes.
  pub modify-Keeps :
      (change : Transport W → Transport W) {t : Transport W}
      → (change t).pending ≡ t.pending
      → (change t).tx_outcomes ≡ t.tx_outcomes
      → (change t).session ≡ t.session
      → (change t).connected ≡ t.connected
      → Keeps (modify change) t
  unfolding modify
  modify-Keeps change p o s c = record {
    holds = λ w. record {
      window = rw p w;
      same_ledger = rw (p, o) refl;
      continues = inl (s, ap sends p);
      opens = inr (inr (c, p));
      extends = Reports-same o;
    };
  }

  pub metric-Keeps : (u : Update) {t : Transport W} → Keeps (metric u) t
  unfolding metric
  metric-Keeps u = modify-Keeps _ refl refl refl refl

  pub recover-Kept :
      {A : Type 0} (caught : Raised → Bool) (handler : M W A) (t : Transport W)
      (r : Transport W × Outcome A)
      → Kept t r.0
      → ((t' : Transport W) → Keeps handler t')
      → Kept t (recover caught handler r).0
  recover-Kept caught handler t (t', returned a) h k = h
  recover-Kept caught handler t (t', raised e) h k =
      if_elim (λ (x : Transport W × Outcome _). Kept t x.0) (caught e) _ _
        (Kept-trans h ((k t').holds h.window)) h

  pub attempt-Keeps :
      {A : Type 0} (body handler : M W A) (caught : Raised → Bool) {t : Transport W}
      → Keeps body t
      → ((t' : Transport W) → Keeps handler t')
      → Keeps (attempt body caught handler) t
  unfolding attempt
  attempt-Keeps body handler caught {t} h k = record {
    holds = λ w. recover-Kept caught handler t (body t) (h.holds w) k;
  }

  pub if-Keeps :
      {A : Type 0} (b : Bool) (m m' : M W A) {t : Transport W}
      → Keeps m t
      → Keeps m' t
      → Keeps (if b then m else m') t
  if-Keeps b m m' {t} h k = if_elim (λ (x : M W _). Keeps x t) b m m' h k

  pub count-Keeps : (name : String) {t : Transport W} → Keeps (count name) t
  unfolding count
  count-Keeps name = metric-Keeps _
