-- ===== src/Host/Modem/Openings.antt =====
-- The ledger over a connection: `_open`, and `tick` from its start.
use mowgli_lora_link.Prelude.{
  ℕ, ◌≤◌, ◌≡◌, ◌⊎◌, refl, ◌∙◌, arith, List, [], ◌∷◌, length, Bool, true, false, not, ltb,
  if◌then◌else◌, if_cases, if_elim, Option, none, some, inl, inr, sym,
}
use mathlib.Core.Bool.{false≢true}
use mowgli_lora_link.Protocol.Stream.{fresh, default_max}
use mowgli_lora_link.Host.Modem.{
  Port, Transport, put, M, ◌>>=◌, ◌>>◌, pure, get, modify, attempt, metric, count,
  is_os_or_runtime_error,
}
use mowgli_lora_link.Host.Modem.Session.{monotonic, disconnect, open_port, open_modem}
use mowgli_lora_link.Host.Modem.Tick.{process, read_port, tick}
use mowgli_lora_link.Host.Modem.Ledger.{
  Reports-same, sends, Kept, Kept-refl, Kept-trans, Keeps, continue-Kept, pure-Keeps, raise-Keeps,
  count-Keeps, metric-Keeps, modify-Keeps, then-Keeps, bind-Keeps, get-Keeps, if-Keeps,
}
use mowgli_lora_link.Host.Modem.Window.{disconnect-Keeps}
use mowgli_lora_link.Host.Modem.Calm.{write-Calm, count-Calm, metric-Calm}
use mowgli_lora_link.Host.Modem.Restarts.{
  Emptied, Clears, then-Emptied, Clears-Emptied, attempt-Emptied, begin_fresh_session-Clears,
  send_hello-Emptied,
}
use mowgli_lora_link.Host.Modem.Ticks.{process-Kept}

module _ {W : Type 0} where
  -- A request is in the window only while the port is open.
  abbrev pub IsOpened : Transport W → Type 0
  IsOpened t = (t.connected ≡ true) ⊎ (t.pending ≡ [])

  pub Kept-IsOpened : (t t' : Transport W) → Kept t t' → IsOpened t → IsOpened t'
  Kept-IsOpened t t' h o = opened t t' h.opens o
    where
      opened :
          (t t' : Transport W)
          → (t'.pending ≡ [])
            ⊎ ((t'.connected ≡ true) ⊎ ((t'.connected ≡ t.connected) × (t'.pending ≡ t.pending)))
          → IsOpened t
          → IsOpened t'
      opened t t' (inl e) o = inr e
      opened t t' (inr (inl c)) o = inl c
      opened t t' (inr (inr (c, p))) (inl o) = inl (c ∙ o)
      opened t t' (inr (inr (c, p))) (inr o) = inr (p ∙ o)

  Keeps-Emptied : {A : Type 0} {m : M W A} {t : Transport W} → Keeps m t → Emptied m t
  Keeps-Emptied h = record { holds = λ e. h.holds (rw e (omega arith)) }

  if-Emptied :
      {A : Type 0} (b : Bool) (m m' : M W A) {t : Transport W}
      → Emptied m t
      → Emptied m' t
      → Emptied (if b then m else m') t
  if-Emptied b m m' {t} h k = if_elim (λ (x : M W _). Emptied x t) b m m' h k

  get-Emptied :
      {B : Type 0} (rest : Transport W → M W B) {t : Transport W}
      → Emptied (rest t) t
      → Emptied (get >>= rest) t
  unfolding ◌>>=◌ get
  get-Emptied rest h = record { holds = h.holds }

module _ {W : Type 0} (port : Port W) where
  opened_now : Transport W → Transport W
  opened_now t = record t {
    world = (port.open_serial t.world).0;
    connected = true;
    decoder = fresh default_max;
    pending = [];
  }

  opened_now-Clears : (t : Transport W) → Clears (modify opened_now) t
  unfolding modify opened_now sends
  opened_now-Clears t = record {
    holds = λ e. (
      record {
        window = omega arith;
        same_ledger = rw e refl;
        continues = inr refl;
        opens = inl refl;
        extends = Reports-same refl;
      },
      refl,
    );
  }

  open_port-Emptied : (t : Transport W) → Emptied (open_port port) t
  unfolding open_port opened_now
  open_port-Emptied t = get-Emptied _ (
      if-Emptied _ _ _
        (Keeps-Emptied (then-Keeps (modify-Keeps _ refl refl refl refl) (λ t1. raise-Keeps _)))
        (Clears-Emptied (opened_now-Clears t) (λ t1.
          Clears-Emptied (begin_fresh_session-Clears port t1) (λ t2.
            then-Emptied (count-Calm _) (λ t3. then-Emptied (metric-Calm _) (λ t4.
              then-Emptied (metric-Calm _) (λ t5.
                then-Emptied (write-Calm port (0 ∷ []) t5) (λ t6. send_hello-Emptied port t6))))))))

  -- `_open` behind the test for an open port, from the read of the clock on.
  try_open : M W (Unit {0})
  try_open =
      attempt (open_port port) is_os_or_runtime_error
        (do count "usb_connect_failures"; disconnect port)

  try_open-Emptied : (t : Transport W) → Emptied try_open t
  unfolding try_open
  try_open-Emptied t =
      attempt-Emptied (open_port port) _ is_os_or_runtime_error (open_port-Emptied t)
        (λ t1. then-Keeps (count-Keeps _) (λ t2. disconnect-Keeps port t2))

  -- The clock has been read.
  clock_read : Transport W → Transport W
  clock_read t = record t { world = (port.clock t.world).0 }

  clock_read-Kept : (t : Transport W) → length t.pending ≤ 1 → Kept t (clock_read t)
  unfolding clock_read
  clock_read-Kept t w = record {
    window = w;
    same_ledger = refl;
    continues = inl (refl, refl);
    opens = inr (inr (refl, refl));
    extends = Reports-same refl;
  }

  open_modem-Kept :
      (t : Transport W) → length t.pending ≤ 1 → IsOpened t → Kept t (open_modem port t).0
  unfolding open_modem try_open clock_read monotonic pure get ◌>>=◌
  open_modem-Kept t w o =
      if_cases (λ (x : M W (Unit {0})). Kept t (x t).0) t.connected _ _ (λ c. Kept-refl w)
        (λ closed. Kept-trans (clock_read-Kept t w) (
          (if-Emptied (ltb (port.clock t.world).1 t.next_attempt) (pure tt) try_open
              (Keeps-Emptied (pure-Keeps tt)) (try_open-Emptied (clock_read t))).holds
            (not_open closed o)))
    where
      not_open : {c : Bool} {P : Type 0} → c ≡ false → (c ≡ true) ⊎ P → P
      not_open e (inl e') = absurd (false≢true (sym e ∙ e'))
      not_open e (inr p) = p

  process-Keeps : (idle : Bool) (raw : List ℕ) (t : Transport W) → Keeps (process port idle raw) t
  process-Keeps idle raw t = record { holds = process-Kept port idle raw t }

  -- `tick` behind `_open`.
  tick_open : Bool → M W (List (List ℕ))
  tick_open idle = do
    t ← get
    if not t.connected then (do metric (put "modem_ready_for_send" 0); pure []) else (do
      bytes ← read_port port
      elim bytes [
        | none ↦ (do count "usb_read_failures"; disconnect port; pure [])
        | some raw ↦ process port idle raw
      ])

  read-Keeps :
      (idle : Bool) (bytes : Option (List ℕ)) (t : Transport W)
      → Keeps {A = List (List ℕ)}
          (elim bytes [
            | none ↦ (do count "usb_read_failures"; disconnect port; pure [])
            | some raw ↦ process port idle raw
          ])
          t
  read-Keeps idle none t =
      then-Keeps (count-Keeps _) (λ t1. then-Keeps (disconnect-Keeps port t1) (λ t2. pure-Keeps _))
  read-Keeps idle (some raw) t = process-Keeps idle raw t

  read_port-Keeps : (t : Transport W) → Keeps (read_port port) t
  unfolding read_port
  read_port-Keeps t = record {
    holds = λ w. record {
      window = w;
      same_ledger = refl;
      continues = inl (refl, refl);
      opens = inr (inr (refl, refl));
      extends = Reports-same refl;
    };
  }

  tick_open-Keeps : (idle : Bool) (t : Transport W) → Keeps (tick_open idle) t
  unfolding tick_open
  tick_open-Keeps idle t = get-Keeps _ (
      if-Keeps _ _ _ (then-Keeps (metric-Keeps _) (λ t1. pure-Keeps _))
        (bind-Keeps (read_port-Keeps t) (λ bytes t1. read-Keeps idle bytes t1)))

  -- If at most one request is in the window and none while the port is closed, it is so after `tick`,
  -- whether the port opens, reads or fails and whatever the modem sent, and the ledger is as it was:
  -- a send that was in the window is there still or has got exactly one outcome, and no other outcome
  -- is reported. If the host session is a new one, no send is in the window.
  pub tick-Kept :
      (idle : Bool) (t : Transport W)
      → length t.pending ≤ 1
      → IsOpened t
      → Kept t (tick port idle t).0
  unfolding tick tick_open ◌>>◌
  tick-Kept idle t w o =
      continue-Kept (λ u. tick_open idle) t (open_modem port t) (open_modem-Kept t w o)
        (λ u t'. tick_open-Keeps idle t')
