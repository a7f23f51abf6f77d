-- ===== src/Host/Modem/Answers.antt =====
-- What the frames of the modem do to the window and to the ledger.
use mowgli_lora_link.Prelude.{
  inl, inr, ℕ, ◌≤◌, ◌≡◌, refl, ◌∙◌, arith, [], ◌∷◌, length, append-nil, true, false, ◌==◌, some,
}
use mowgli_lora_link.Dict.{num_key, Dict, lookup, remove}
use mowgli_lora_link.Host.Modem.{Port, Transport, Request, Tx, ◌>>◌, modify, radio_send}
use mowgli_lora_link.Host.Modem.Handlers.{pop_pending, report}
use mowgli_lora_link.Host.Modem.Ledger.{Reports-same, sends, Kept}
use mowgli_lora_link.Host.Modem.Window.{numbers-append}

-- A window of at most one request that holds the number holds nothing else.
pub only_request :
    (sequence : ℕ) (d : Dict ℕ Request) (r : Request)
    → length d ≤ 1
    → lookup sequence d ≡ some r
    → d ≡ (sequence, r) ∷ []
unfolding lookup
only_request sequence [] r w h = ground arith
only_request sequence ((j, q) ∷ []) r w h = ground arith
only_request sequence (p ∷ q ∷ d) r w h = absurd (omega arith)

pub remove_only : (sequence : ℕ) (r : Request) → remove sequence ((sequence, r) ∷ []) ≡ []
unfolding remove
remove_only sequence r = ground arith

module _ {W : Type 0} (port : Port W) where
  pub popped_sends :
      (sequence : ℕ) (r : Request) (t : Transport W)
      → t.pending ≡ (sequence, r) ∷ []
      → (r.typ == radio_send) ≡ false
      → Kept t (pop_pending port sequence t).0
  unfolding pop_pending modify sends
  popped_sends sequence r t e other = record {
    window = rw (e, remove_only sequence r) (omega arith);
    same_ledger = rw (e, remove_only sequence r, other) refl;
    continues = inr (rw (e, remove_only sequence r) refl);
    opens = inl (rw (e, remove_only sequence r) refl);
    extends = Reports-same refl;
  }

  pub settled-sends :
      (sequence : ℕ) (verdict : Tx) (r : Request) (t : Transport W)
      → t.pending ≡ (sequence, r) ∷ []
      → (r.typ == radio_send) ≡ true
      → Kept t ((pop_pending port sequence >> report port sequence verdict) t).0
  unfolding pop_pending report modify sends ◌>>◌
  settled-sends sequence verdict r t e send = record {
    window = rw (e, remove_only sequence r) (omega arith);
    same_ledger =
        rw (e, remove_only sequence r, send)
          (append-nil _ ∙ numbers-append t.tx_outcomes ((sequence, verdict) ∷ []));
    continues = inr (rw (e, remove_only sequence r) refl);
    opens = inl (rw (e, remove_only sequence r) refl);
    extends = ((sequence, verdict) ∷ [], refl);
  }
