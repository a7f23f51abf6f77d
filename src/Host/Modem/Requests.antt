-- ===== src/Host/Modem/Requests.antt =====
-- The ledger over a request.
use mowgli_lora_link.Prelude.{
  ℕ, ◌≤◌, ◌≡◌, refl, ◌∙◌, arith, List, [], ◌∷◌, ◌++◌, length, append-nil, ◌==◌, if◌then◌else◌,
  if_elim, Bool, false, true, not,
}
use mowgli_lora_link.Dict.{num_key, insert}
use mowgli_lora_link.Host.Modem.{
  Port, Transport, runtime_error, os_error, Raised, Outcome, returned, raised, M, continue, ◌>>=◌,
  ◌>>◌, pure, raise, get, modify, metric, count, radio_send,
}
use mowgli_lora_link.Host.Modem.Session.{monotonic, next, frame_bytes, write, request}
use mowgli_lora_link.Host.Modem.Ledger.{sends, numbers, ledger, Kept, Kept-refl, Kept-trans}
use mowgli_lora_link.Host.Modem.Calm.{
  Same, Calm, CalmAt, Same-Kept, write-Calm, next-Calm, frame_bytes-Calm, count-Calm,
}

module _ {W : Type 0} where
  -- The port is open and the window holds a request of type typ under the number s.
  pub record Entered (typ : ℕ) (t t' : Transport W) (s : ℕ) : Type 0 where
    pub window : length t'.pending ≤ 1
    pub entered : ledger t' ≡ ledger t ++ (if typ == radio_send then s ∷ [] else [])
    pub sends_one : sends t'.pending ≡ (if typ == radio_send then s ∷ [] else [])
    pub connected : t'.connected ≡ true
    pub session : t'.session ≡ t.session
    pub outcomes : t'.tx_outcomes ≡ t.tx_outcomes

  -- A request of type typ is accepted under the number s, or raises.
  unfoldable pub Requested : ℕ → Transport W → Transport W × Outcome ℕ → Type 0
  Requested typ t (t', returned s) = Entered typ t t' s
  Requested typ t (t', raised e) = Kept t t'

  pub record Asks (typ : ℕ) (m : M W ℕ) (t : Transport W) : Type 0 where
    pub holds : t.pending ≡ [] → Requested typ t (m t)

  Requested-behind :
      (typ : ℕ) {t t' : Transport W} (r : Transport W × Outcome ℕ)
      → t.pending ≡ []
      → Same t t'
      → Requested typ t' r
      → Requested typ t r
  unfolding Requested
  Requested-behind typ (u, returned s) e h k = record {
    window = k.window;
    entered = k.entered ∙ rw (h.pending, h.outcomes) refl;
    sends_one = k.sends_one;
    connected = k.connected;
    session = k.session ∙ h.session;
    outcomes = k.outcomes ∙ h.outcomes;
  }
  Requested-behind typ (u, raised x) e h k = Kept-trans (Same-Kept (rw e (omega arith)) h) k

  continue-Requested :
      {A : Type 0} (typ : ℕ) (rest : A → M W ℕ) (t : Transport W) (r : Transport W × Outcome A)
      → t.pending ≡ []
      → CalmAt t r
      → ((a : A) (t' : Transport W) → Asks typ (rest a) t')
      → Requested typ t (continue rest r)
  unfolding CalmAt Requested
  continue-Requested typ rest t (t', returned a) e h k =
      Requested-behind typ (rest a t') e h ((k a t').holds (h.pending ∙ e))
  continue-Requested typ rest t (t', raised x) e h k = h

  bind-Asks :
      {A : Type 0} (typ : ℕ) {m : M W A} {rest : A → M W ℕ} {t : Transport W}
      → Calm m t
      → ((a : A) (t' : Transport W) → Asks typ (rest a) t')
      → Asks typ (m >>= rest) t
  unfolding ◌>>=◌
  bind-Asks typ {m} {rest} {t} h k = record {
    holds = λ e. continue-Requested typ rest t (m t) e (h.holds (rw e (omega arith))) k;
  }

  then-Asks :
      (typ : ℕ) {m : M W (Unit {0})} {rest : M W ℕ} {t : Transport W}
      → Calm m t
      → ((t' : Transport W) → Asks typ rest t')
      → Asks typ (m >> rest) t
  unfolding ◌>>◌
  then-Asks typ {m} {rest} {t} h k = record {
    holds =
        λ e. continue-Requested typ (λ u. rest) t (m t) e (h.holds (rw e (omega arith))) (λ u. k);
  }

  -- If a write returns, the port is open.
  Connects : Transport W → Transport W × Outcome (Unit {0}) → Type 0
  Connects t (t', returned u) = t.connected ≡ true
  Connects t (t', raised e) = Unit

  write_needs_port :
      (t : Transport W) (r : Transport W × Outcome (Unit {0})) → t.connected ≡ true → Connects t r
  unfolding Connects
  write_needs_port t (t', returned u) c = c
  write_needs_port t (t', raised e) c = tt

  branch_needs_port :
      (b : Bool) (m m' : M W (Unit {0})) (t : Transport W)
      → Connects t (m t)
      → (b ≡ false → t.connected ≡ true)
      → Connects t ((if b then m else m') t)
  branch_needs_port true m m' t h k = h
  branch_needs_port false m m' t h k = write_needs_port t (m' t) (k refl)

module _ {W : Type 0} (port : Port W) where
  -- The last lines of `_request`.
  enter : ℕ → ℕ → ℕ → M W ℕ
  enter typ sequence now = do
    modify (λ t. record t {
      pending = insert sequence (record { typ = typ; started = now }) t.pending;
    })
    count "usb_send_accepted"
    pure sequence

  enter-Asks :
      (typ sequence now : ℕ) (t : Transport W)
      → t.connected ≡ true
      → Asks typ (enter typ sequence now) t
  unfolding enter Requested modify count metric pure ◌>>◌ insert sends
  enter-Asks typ sequence now t c = record {
    holds = λ e. record {
      window = rw e (omega arith);
      entered = rw (e, append-nil (numbers t.tx_outcomes)) refl;
      sends_one = rw e refl;
      connected = c;
      session = refl;
      outcomes = refl;
    };
  }

  write-Connects : (raw : List ℕ) (t : Transport W) → Connects t (write port raw t)
  unfolding write ◌>>=◌ get raise Connects
  write-Connects raw t =
      branch_needs_port (not t.connected) (raise os_error) _ t tt (λ open_port. ground arith)

  -- `_request` behind the write.
  entered : ℕ → ℕ → M W ℕ
  entered typ sequence = do now ← monotonic port; enter typ sequence now

  entered-Asks :
      (typ sequence : ℕ) (t : Transport W) → t.connected ≡ true → Asks typ (entered typ sequence) t
  unfolding entered monotonic ◌>>=◌
  entered-Asks typ sequence t c = record {
    holds = λ e.
        let ticked : Transport W = record t { world = (port.clock t.world).0 } in
        Requested-behind typ _ e
          (record { pending = refl; outcomes = refl; session = refl; connected = refl })
          ((enter-Asks typ sequence (port.clock t.world).1 ticked c).holds e);
  }

  write_entered :
      (typ sequence : ℕ) (t : Transport W) (r : Transport W × Outcome (Unit {0}))
      → t.pending ≡ []
      → CalmAt t r
      → Connects t r
      → Requested typ t (continue (λ u. entered typ sequence) r)
  unfolding CalmAt Requested Connects
  write_entered typ sequence t (t', returned u) e h c =
      Requested-behind typ _ e h
        ((entered-Asks typ sequence t' (h.connected ∙ c)).holds (h.pending ∙ e))
  write_entered typ sequence t (t', raised x) e h c = h

  write-Asks :
      (typ sequence : ℕ) (raw : List ℕ) (t : Transport W)
      → Asks typ (write port raw >> entered typ sequence) t
  unfolding ◌>>◌
  write-Asks typ sequence raw t = record {
    holds = λ e.
        write_entered typ sequence t (write port raw t) e
          ((write-Calm port raw t).holds (rw e (omega arith))) (write-Connects raw t);
  }

  -- `_request` up to the write, and from it on.
  written : ℕ → List ℕ → ℕ → M W ℕ
  written typ payload sequence = do
    count "usb_send_requests"
    raw ← frame_bytes port typ sequence payload
    write port raw
    entered typ sequence

  written-Asks :
      (typ : ℕ) (payload : List ℕ) (sequence : ℕ) (t : Transport W)
      → Asks typ (written typ payload sequence) t
  unfolding written
  written-Asks typ payload sequence t = then-Asks typ (count-Calm _) (λ t1.
      bind-Asks typ (frame_bytes-Calm port typ sequence payload t1)
        (λ raw t2. write-Asks typ sequence raw t2))

  next-written-Asks :
      (typ : ℕ) (payload : List ℕ) (t : Transport W)
      → Asks typ (next port >>= written typ payload) t
  next-written-Asks typ payload t =
      bind-Asks typ (next-Calm port t) (λ sequence t'. written-Asks typ payload sequence t')

  raise-Asks : (typ : ℕ) (e : Raised) (t : Transport W) → Asks typ (raise e) t
  unfolding Requested raise
  raise-Asks typ x t = record { holds = λ e. Kept-refl (rw e (omega arith)) }

  request-Asks :
      (typ : ℕ) (payload : List ℕ) (t : Transport W) → Asks typ (request port typ payload) t
  unfolding request enter entered written ◌>>=◌ get
  request-Asks typ payload t = record {
    holds = λ e.
        if_elim (λ (x : M W ℕ). Requested typ t (x t)) (t.sequence == 0xFFFFFFFF) _ _
          ((raise-Asks typ runtime_error t).holds e) ((next-written-Asks typ payload t).holds e);
  }

  -- If no request is in the window, `_request` opens it for one: a RADIO_SEND enters the ledger under
  -- the number returned, behind all that came before, and a request of another type or one that
  -- raises leaves the ledger as it is.
  pub request-Requested :
      (typ : ℕ) (payload : List ℕ) (t : Transport W)
      → t.pending ≡ []
      → Requested typ t (request port typ payload t)
  request-Requested typ payload t e = (request-Asks typ payload t).holds e
