-- ===== src/Host/Modem/Tombstones.antt =====
-- The tombstones of sends that have timed out.
use mowgli_lora_link.Prelude.{ℕ, ◌+◌, ◌≤◌, ◌≡◌, arith, [], ◌∷◌, length, ltb, if_cases}
use mowgli_lora_link.Dict.{num_key, Dict, insert}
use mowgli_lora_link.Host.Modem.{Port, Transport, modify, max_late_radio_results}
use mowgli_lora_link.Host.Modem.Tick.{evict_oldest, remember_timed_out}

-- What is left, and the number of entries that went.
pub record Evicted (d : Dict ℕ ℕ) (r : Dict ℕ ℕ × ℕ) : Type 0 where
  pub bounded : length r.0 ≤ max_late_radio_results
  pub counted : length r.0 + r.1 ≡ length d

evict_oldest-Evicted : (d : Dict ℕ ℕ) → Evicted d (evict_oldest d)
unfolding evict_oldest
evict_oldest-Evicted [] = record { bounded = omega arith; counted = omega arith }
evict_oldest-Evicted (oldest ∷ rest) =
    let h = evict_oldest-Evicted rest in
    if_cases (Evicted (oldest ∷ rest)) (ltb max_late_radio_results (length (oldest ∷ rest))) _ _
      (λ many. record { bounded = h.bounded; counted = omega (arith, h.counted) })
      (λ few. record { bounded = ground arith; counted = omega arith })

module _ {W : Type 0} (port : Port W) where
  -- Once a send has timed out, at most 32 tombstones are kept, however many there were before, and
  -- what is kept and what is evicted are together as many as there were with the new one.
  pub remember_timed_out-bounded :
      (sequence now : ℕ) (t : Transport W)
      → Evicted (insert sequence now t.timed_out_radio) (
        (remember_timed_out port sequence now t).0.timed_out_radio,
        (evict_oldest (insert sequence now t.timed_out_radio)).1,
      )
  unfolding remember_timed_out modify
  remember_timed_out-bounded sequence now t =
      evict_oldest-Evicted (insert sequence now t.timed_out_radio)
