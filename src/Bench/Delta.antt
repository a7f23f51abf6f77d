-- ===== src/Bench/Delta.antt =====
-- `_diagnostics_delta` of tools/lora_usb/mixed_bench.py, on the two tuples of ten unsigned 32-bit fields
-- that `parse_diagnostics` gives.
use mowgli_lora_link.Prelude.{
  String, ℕ, ◌+◌, ◌-◌, ◌%◌, ◌^◌, ◌<◌, ◌≡◌, refl, ap, ◌∙◌, arith, List, [], ◌∷◌, ◌++◌, length,
  get_or, All, suc,
}

abbrev counter_names : List String
counter_names =
    "usb_frames" ∷ "usb_accepted" ∷ "send_accepted" ∷ "radio_tx_started" ∷ "radio_tx_completed"
    ∷ "radio_rx_received" ∷ "rx_event_queued" ∷ "rx_event_written" ∷ "usb_event_dropped" ∷ []

-- `(after - before) % (2**32)`, where `before` is less than 2 ^ 32
pub wrapped_difference : ℕ → ℕ → ℕ
wrapped_difference before after = (after + 2 ^ 32 - before) % 2 ^ 32

pub differences : List String → List ℕ → List ℕ → List (String × ℕ)
unfolding wrapped_difference
differences (name ∷ names) (b ∷ before) (a ∷ after) =
    (name, wrapped_difference b a) ∷ differences names before after
differences names before after = []

pub record DiagnosticsDelta : Type 0 where
  pub counters : List (String × ℕ)
  pub usb_queue_depth_start : ℕ
  pub usb_queue_depth_end : ℕ

pub diagnostics_delta : List ℕ → List ℕ → DiagnosticsDelta
unfolding differences
diagnostics_delta before after = record {
  counters = differences counter_names before after;
  usb_queue_depth_start = get_or before 9 0;
  usb_queue_depth_end = get_or after 9 0;
}

-- The counters after so many events, on 32 bits.
pub advanced : List ℕ → List ℕ → List ℕ
advanced (b ∷ before) (n ∷ events) = ((b + n) % 2 ^ 32) ∷ advanced before events
advanced before events = []

pub labelled : List String → List ℕ → List (String × ℕ)
labelled (name ∷ names) (n ∷ events) = (name, n) ∷ labelled names events
labelled names events = []

length-advanced :
    (before events : List ℕ)
    → length events ≡ length before
    → length (advanced before events) ≡ length before
unfolding advanced
length-advanced [] events e = refl
length-advanced (b ∷ before) [] e = absurd (omega (arith, e))
length-advanced (b ∷ before) (n ∷ events) e =
    ap suc (length-advanced before events (omega (arith, e)))

at_end : (xs : List ℕ) (y n : ℕ) → length xs ≡ n → get_or (xs ++ (y ∷ [])) n 0 ≡ y
at_end [] y n e = rw (← e) refl
at_end (x ∷ xs) y n e = rw (← e) (at_end xs y (length xs) refl)

wrapped_difference_lem :
    (b n : ℕ) → b < 2 ^ 32 → n < 2 ^ 32 → wrapped_difference b ((b + n) % 2 ^ 32) ≡ n
unfolding wrapped_difference
wrapped_difference_lem b n hb hn = omega (arith, hb, hn)

differences_lem :
    (names : List String) (before events more more' : List ℕ)
    → length names ≡ length before
    → length events ≡ length before
    → All (λ b. b < 2 ^ 32) before
    → All (λ n. n < 2 ^ 32) events
    → differences names (before ++ more) (advanced before events ++ more') ≡ labelled names events
unfolding differences advanced labelled
differences_lem [] [] [] more more' e e' h k = refl
differences_lem (x ∷ names) [] events more more' e e' h k = absurd (omega (arith, e))
differences_lem [] (b ∷ before) events more more' e e' h k = absurd (omega (arith, e))
differences_lem [] [] (n ∷ events) more more' e e' h k = absurd (omega (arith, e'))
differences_lem (x ∷ names) (b ∷ before) [] more more' e e' h k = absurd (omega (arith, e'))
differences_lem (x ∷ names) (b ∷ before) (n ∷ events) more more' e e' h k =
    rw
      (
        wrapped_difference_lem b n h.0 k.0,
        differences_lem names before events more more' (omega (arith, e)) (omega (arith, e')) h.1
            k.1,
      )
      refl

-- Counters on 32 bits that wrap around are reported right: if each of the nine has counted fewer than
-- 2 ^ 32 events between the two answers, the report names these numbers, and it keeps both queue depths.
pub diagnostics_delta_lem :
    (before events : List ℕ) (start last : ℕ)
    → length before ≡ 9
    → length events ≡ 9
    → All (λ b. b < 2 ^ 32) before
    → All (λ n. n < 2 ^ 32) events
    → let delta =
        diagnostics_delta (before ++ (start ∷ [])) (advanced before events ++ (last ∷ [])) in
      (delta.counters ≡ labelled counter_names events)
      × (delta.usb_queue_depth_start ≡ start)
      × (delta.usb_queue_depth_end ≡ last)
unfolding diagnostics_delta
diagnostics_delta_lem before events start last e e' h k = (
  differences_lem counter_names before events (start ∷ []) (last ∷ []) (omega (arith, e))
      (omega (arith, e, e')) h k,
  at_end before start 9 e,
  at_end (advanced before events) last 9 (length-advanced before events (omega (arith, e, e')) ∙ e),
)
