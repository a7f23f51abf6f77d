-- ===== src/Host/Modem/Window.antt =====
-- The ledger when the transport disconnects.
use mowgli_lora_link.Prelude.{
  inl, inr, ℕ, ◌≡◌, refl, ◌∙◌, ap, arith, List, [], ◌∷◌, ◌++◌, append-nil, Bool, true, false, ◌==◌,
  if◌then◌else◌,
}
use mowgli_lora_link.Dict.{num_key, Dict}
use mowgli_lora_link.Host.Modem.{
  Port, Transport, Request, Tx, uncertain, ◌>>=◌, ◌>>◌, modify, metric, radio_send,
}
use mowgli_lora_link.Host.Modem.Session.{settled, monotonic, close_port, disconnect}
use mowgli_lora_link.Host.Modem.Ledger.{sends, numbers, Keeps}

numbers-if :
    (b : Bool) (sequence : ℕ) (verdict : Tx) (xs : List (ℕ × Tx))
    → numbers (if b then (sequence, verdict) ∷ xs else xs)
      ≡ (if b then sequence ∷ numbers xs else numbers xs)
numbers-if true sequence verdict xs = refl
numbers-if false sequence verdict xs = refl

pub numbers-settled :
    (verdict : Tx) (pending : Dict ℕ Request) → numbers (settled verdict pending) ≡ sends pending
unfolding settled sends
numbers-settled verdict [] = refl
numbers-settled verdict ((sequence, r) ∷ pending) =
    numbers-if (r.typ == radio_send) sequence verdict (settled verdict pending)
    ∙ ap (λ xs. if r.typ == radio_send then sequence ∷ xs else xs) (numbers-settled verdict pending)

pub numbers-append : (xs ys : List (ℕ × Tx)) → numbers (xs ++ ys) ≡ numbers xs ++ numbers ys
numbers-append [] ys = refl
numbers-append (x ∷ xs) ys = rw (numbers-append xs ys)

module _ {W : Type 0} (port : Port W) where
  pub disconnect-Keeps : (t : Transport W) → Keeps (disconnect port) t
  unfolding disconnect sends close_port monotonic ◌>>=◌ ◌>>◌ modify metric
  disconnect-Keeps t = record {
    holds = λ w. record {
      window = omega arith;
      same_ledger =
          append-nil _
          ∙ numbers-append t.tx_outcomes (settled uncertain t.pending)
          ∙ ap (λ x. numbers t.tx_outcomes ++ x) (numbers-settled uncertain t.pending);
      continues = inr refl;
      opens = inl refl;
      extends = (settled uncertain t.pending, refl);
    };
  }
