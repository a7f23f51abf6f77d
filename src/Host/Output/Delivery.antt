-- ===== src/Host/Output/Delivery.antt =====
-- The bytes that a client receives.
use mowgli_lora_link.Prelude.{
  ℕ, ◌+◌, ◌≤◌, ◌<◌, ◌≡◌, sym, ◌∙◌, ap, arith, List, [], ◌∷◌, ◌++◌, length, take, drop, ◌==◌,
  if_cases, append_assoc, take-append-drop, drop-drop, drop_of_length-le,
}
use mowgli_lora_link.Host.Output.{Queued, advance}

-- The bytes that a queue still holds for its client, in order.
pub stream : List Queued → List ℕ
stream [] = []
stream (q ∷ frames) = drop q.offset q.raw ++ stream frames

stream-advance :
    (n : ℕ) (pending : Queued) (frames : List Queued)
    → n ≤ length (drop pending.offset pending.raw)
    → 0 < n
    → stream (advance n pending frames) ≡ drop n (drop pending.offset pending.raw) ++ stream frames
unfolding advance stream
stream-advance n pending frames h pos =
    let rest = drop-drop pending.offset n pending.raw in
    if_cases (λ q. stream q ≡ drop n (drop pending.offset pending.raw) ++ stream frames)
      (pending.offset + n == length pending.raw) _ _
      (λ e.
        let ended : length pending.raw ≤ pending.offset + n = ground arith in
        rw (rest, drop_of_length-le (pending.offset + n) pending.raw ended))
      (λ e. rw rest)

-- If a send takes at least one byte and at most what is left of the first frame, the bytes that it
-- takes are the front of what the queue holds, and the queue holds the rest from then on: no byte
-- is lost or sent twice, and a frame is sent to its end before the next starts.
pub advance-stream :
    (n : ℕ) (pending : Queued) (frames : List Queued)
    → n ≤ length (drop pending.offset pending.raw)
    → 0 < n
    → stream (pending ∷ frames)
      ≡ take n (drop pending.offset pending.raw) ++ stream (advance n pending frames)
unfolding stream
advance-stream n pending frames h pos =
    let sent : List ℕ = take n (drop pending.offset pending.raw) in
    let rest : List ℕ = drop n (drop pending.offset pending.raw) in
    ap (λ x. x ++ stream frames) (sym (take-append-drop n (drop pending.offset pending.raw)))
    ∙ append_assoc sent rest (stream frames)
    ∙ ap (λ x. sent ++ x) (sym (stream-advance n pending frames h pos))
