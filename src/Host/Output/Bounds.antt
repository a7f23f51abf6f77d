-- ===== src/Host/Output/Bounds.antt =====
-- The bounds of the queue of each client.
use mowgli_lora_link.Prelude.{
  ℕ, ◌+◌, ◌≤◌, ◌<◌, ◌≡◌, arith, List, [], ◌∷◌, ◌++◌, length, All, false, ◌||◌, ◌==◌, ltb, leb,
  if_elim, length-append,
}
use mowgli_lora_link.Dict.{num_key, Dict}
use mowgli_lora_link.Host.Output.Invariant.{flush-AllHold, publish-AllHold}
use mowgli_lora_link.Host.Output.{
  Queued, remaining, SendResult, Output, queued_bytes, advance, flush, publish, max_queue_bytes,
  max_queue_frames,
}

pub record Fits (frames : List Queued) : Type 0 where
  pub few : length frames ≤ max_queue_frames
  pub small : queued_bytes frames ≤ max_queue_bytes

abbrev pub AllFit : Dict ℕ (List Queued) → Type 0
AllFit clients = All (λ entry. Fits entry.1) clients

no_frames-Fits : Fits []
unfolding queued_bytes
no_frames-Fits = record { few = omega arith; small = omega arith }

advance-Fits :
    (n : ℕ) (pending : Queued) (frames : List Queued)
    → Fits (pending ∷ frames)
    → Fits (advance n pending frames)
unfolding advance queued_bytes
advance-Fits n pending frames h =
    if_elim Fits (pending.offset + n == length pending.raw) _ _
      (record { few = omega (arith, h.few); small = omega (arith, h.small) })
      (record { few = omega (arith, h.few); small = omega (arith, h.small) })

-- If every queue holds at most 64 frames and 65856 bytes to send, so it does after `flush`,
-- whatever the sockets do.
pub flush-AllFit :
    (waiting : List ℕ) (send : ℕ → List ℕ → SendResult) (now : ℕ) (o : Output)
    → AllFit o.clients
    → AllFit (flush waiting send now o).clients
flush-AllFit waiting send now o h =
    flush-AllHold Fits no_frames-Fits advance-Fits waiting send now o h

queued_bytes-append :
    (frames : List Queued) (q : Queued)
    → queued_bytes (frames ++ (q ∷ [])) ≡ queued_bytes frames + remaining q
unfolding queued_bytes
queued_bytes-append [] q = omega arith
queued_bytes-append (f ∷ frames) q = omega (arith, queued_bytes-append frames q)

longer-Fits :
    (frames : List Queued) (raw : List ℕ) (now : ℕ)
    → (leb max_queue_frames (length frames)
        || ltb max_queue_bytes (queued_bytes frames + length raw))
      ≡ false
    → Fits (frames ++ (record { raw = raw; enqueued_at = now; offset = 0 } ∷ []))
longer-Fits frames raw now h =
    let few : length frames < max_queue_frames = ground arith in
    let small : queued_bytes frames + length raw ≤ max_queue_bytes = ground arith in
    record {
      few = omega (
        arith,
        few,
        length-append frames (record { raw = raw; enqueued_at = now; offset = 0 } ∷ []),
      );
      small = omega (
        arith,
        small,
        queued_bytes-append frames (record { raw = raw; enqueued_at = now; offset = 0 }),
      );
    }

-- If every queue holds at most 64 frames and 65856 bytes to send, so it does after `publish`,
-- whatever the sockets do and however long the new frame is.
pub publish-AllFit :
    (waiting later : List ℕ) (send : ℕ → List ℕ → SendResult) (raw : List ℕ) (now : ℕ) (o : Output)
    → AllFit o.clients
    → AllFit (publish waiting later send raw now o).0.clients
publish-AllFit waiting later send raw now o h =
    publish-AllHold Fits no_frames-Fits advance-Fits raw
      (λ frames at room k. longer-Fits frames raw at room) waiting later send now o h
