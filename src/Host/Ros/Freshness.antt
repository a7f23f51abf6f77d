-- ===== src/Host/Ros/Freshness.antt =====
-- What `take` gives and drops, and what the frames of the queue are.
use mowgli_lora_link.Prelude.{
  ℕ, zero, suc, ◌+◌, ◌≡◌, ◌≤◌, ◌<◌, refl, arith, List, [], ◌∷◌, length, take, drop, All,
  if◌then◌else◌, Bool-cases, inl, inr, length-append, if_cases, if_elim, All-append,
}
use mowgli_lora_link.Application.Reassembler.{transport_ttl}
use mowgli_lora_link.Host.Parser.{RtcmFrame}
use mowgli_lora_link.Host.Ros.{
  Reader, is_stale, take_loop, take_fresh, is_full, without_oldest, put_fresh, Taken,
}

-- The frames that still fit the time to live, in their order.
pub fresh_frames : ℕ → List RtcmFrame → List RtcmFrame
fresh_frames now [] = []
fresh_frames now (frame ∷ frames) =
    let rest = fresh_frames now frames in if is_stale now frame then rest else frame ∷ rest

pub record IsTaken (limit now : ℕ) (frames : List RtcmFrame) (t : Taken) : Type 0 where
  pub left : t.left ≡ drop limit frames
  pub output : t.output ≡ fresh_frames now (take limit frames)
  pub counted : length t.left + t.dropped + length t.output ≡ length frames

pub take_loop-IsTaken :
    (limit now : ℕ) (frames : List RtcmFrame)
    → IsTaken limit now frames (take_loop limit now frames)
unfolding take_loop fresh_frames
take_loop-IsTaken zero now frames = record { left = refl; output = refl; counted = omega arith }
take_loop-IsTaken (suc limit) now [] = record { left = refl; output = refl; counted = omega arith }
take_loop-IsTaken (suc limit) now (frame ∷ frames) =
    let ih = take_loop-IsTaken limit now frames in
    elim (Bool-cases (is_stale now frame)) [
      | inl e ↦
          rw e (record {
            left = ih.left;
            output = rw e ih.output;
            counted = omega (arith, ih.counted);
          })
      | inr e ↦ rw e (record {
        left = ih.left;
        output = rw (e, ih.output) refl;
        counted = omega (arith, ih.counted);
      })
    ]

fresh_frames-fresh :
    (now : ℕ) (frames : List RtcmFrame)
    → All (λ (f : RtcmFrame). now < f.received_at + transport_ttl) (fresh_frames now frames)
unfolding fresh_frames is_stale
fresh_frames-fresh now [] = tt
fresh_frames-fresh now (frame ∷ frames) = ground (arith, fresh_frames-fresh now frames)

length-fresh_frames-le :
    (now : ℕ) (frames : List RtcmFrame) → length (fresh_frames now frames) ≤ length frames
unfolding fresh_frames
length-fresh_frames-le now [] = omega arith
length-fresh_frames-le now (frame ∷ frames) = ground (arith, length-fresh_frames-le now frames)

-- `take` takes at most `limit` frames off the front of the queue and gives those of them that are less
-- than 1000 ms old, in their order; the others are counted as dropped, and the rest stays.
pub take_fresh_lem :
    (limit now : ℕ) (r : Reader)
    → ((take_fresh limit now r).1 ≡ fresh_frames now (take limit r.frames))
      × All (λ (f : RtcmFrame). now < f.received_at + transport_ttl) (take_fresh limit now r).1
      × ((take_fresh limit now r).0.frames ≡ drop limit r.frames)
      × ((take_fresh limit now r).0.frames_dropped
            + length (take_fresh limit now r).1
            + length (take_fresh limit now r).0.frames
          ≡ r.frames_dropped + length r.frames)
unfolding take_fresh
take_fresh_lem limit now r =
    let t = take_loop-IsTaken limit now r.frames in
    (
      t.output,
      rw t.output (fresh_frames-fresh now (take limit r.frames)),
      t.left,
      omega (arith, t.counted),
    )

pub shorter :
    (frames : List RtcmFrame)
    → 0 < length frames
    → length (without_oldest frames) + 1 ≡ length frames
unfolding without_oldest
shorter [] h = absurd (omega arith)
shorter (f ∷ frames) h = omega arith

All-without_oldest :
    (P : RtcmFrame → Type 0) (frames : List RtcmFrame)
    → All P frames
    → All P (without_oldest frames)
unfolding without_oldest
All-without_oldest P [] h = tt
All-without_oldest P (f ∷ frames) h = h.1

-- If the queue has a size and is not longer, so it is after `_put_fresh`, and the one frame more is
-- queued or counted as dropped.
pub put_fresh_lem :
    (frame : RtcmFrame) (r : Reader)
    → 0 < r.queue_size
    → length r.frames ≤ r.queue_size
    → (length (put_fresh frame r).frames ≤ r.queue_size)
      × ((put_fresh frame r).frames_dropped + length (put_fresh frame r).frames
          ≡ r.frames_dropped + length r.frames + 1)
unfolding put_fresh
put_fresh_lem frame r positive fits =
    if_cases
      (λ (q : Reader).
        (length q.frames ≤ r.queue_size)
        × (q.frames_dropped + length q.frames ≡ r.frames_dropped + length r.frames + 1))
      (is_full r.queue_size r.frames) _ _
      (λ full.
        let some_frame : 0 < length r.frames = ground arith in
        (
          omega (
            arith,
            length-append (without_oldest r.frames) (frame ∷ []),
            shorter r.frames some_frame,
          ),
          omega (
            arith,
            length-append (without_oldest r.frames) (frame ∷ []),
            shorter r.frames some_frame,
          ),
        ))
      (λ room.
        let fewer : length r.frames < r.queue_size = ground arith in
        (
          omega (arith, fewer, length-append r.frames (frame ∷ [])),
          omega (arith, length-append r.frames (frame ∷ [])),
        ))

pub All-put_fresh :
    (P : RtcmFrame → Type 0) (frame : RtcmFrame) (r : Reader)
    → P frame
    → All P r.frames
    → All P (put_fresh frame r).frames
unfolding put_fresh
All-put_fresh P frame r h k =
    if_elim (λ (q : Reader). All P q.frames) (is_full r.queue_size r.frames) _ _
      (All-append P (without_oldest r.frames) (frame ∷ []) (All-without_oldest P r.frames k)
        (h, tt))
      (All-append P r.frames (frame ∷ []) k (h, tt))

-- What `_put_fresh` leaves alone.
pub put_fresh-same :
    (frame : RtcmFrame) (r : Reader)
    → ((put_fresh frame r).queue_size ≡ r.queue_size)
      × ((put_fresh frame r).parser ≡ r.parser)
      × ((put_fresh frame r).frames_received ≡ r.frames_received)
unfolding put_fresh
put_fresh-same frame r =
    if_elim
      (λ (q : Reader).
        (q.queue_size ≡ r.queue_size)
        × (q.parser ≡ r.parser)
        × (q.frames_received ≡ r.frames_received))
      (is_full r.queue_size r.frames) _ _ (refl, refl, refl) (refl, refl, refl)

pub take_fresh-same :
    (limit now : ℕ) (r : Reader)
    → ((take_fresh limit now r).0.queue_size ≡ r.queue_size)
      × ((take_fresh limit now r).0.parser ≡ r.parser)
      × ((take_fresh limit now r).0.frames_received ≡ r.frames_received)
unfolding take_fresh
take_fresh-same limit now r = (refl, refl, refl)

pub All-fresh_frames :
    (P : RtcmFrame → Type 0) (now : ℕ) (frames : List RtcmFrame)
    → All P frames
    → All P (fresh_frames now frames)
unfolding fresh_frames
All-fresh_frames P now [] h = tt
All-fresh_frames P now (f ∷ frames) h =
    if_elim (All P) (is_stale now f) _ _ (All-fresh_frames P now frames h.1)
      (h.0, All-fresh_frames P now frames h.1)
