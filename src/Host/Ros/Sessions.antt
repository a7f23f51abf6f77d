-- ===== src/Host/Ros/Sessions.antt =====
-- Connections, chunks and timer calls of the ROS bridge in any order.
use mowgli_lora_link.Prelude.{
  ℕ, ◌+◌, ◌≡◌, ◌≤◌, ◌<◌, refl, arith, List, [], ◌∷◌, ◌++◌, length, All, All-append, true, Result,
  ok, ◌>>=◌, length-append, All-drop, length-drop, All-take,
}
use mowgli_lora_link.Application.Rtcm.{valid_rtcm3}
use mowgli_lora_link.Host.Parser.Accounting.{Accounted, feed-Fed}
use mowgli_lora_link.Host.Parser.Rounds.{Good}
use mowgli_lora_link.Host.Parser
use mowgli_lora_link.Host.Parser.{RtcmFrame, Parser}
use mowgli_lora_link.Host.Ros.{
  Reader, Event, connecting, received, ended, failed, step, take_fresh, drop_queued_frames,
  put_fresh, put_all,
}
use mowgli_lora_link.Host.Ros.Freshness.{
  take_fresh_lem, put_fresh_lem, put_fresh-same, take_fresh-same, All-put_fresh, All-fresh_frames,
}

-- The thread meets an event, or the timer takes frames.
pub data Action : Type 0 where
  thread : Event → Action
  timer : ℕ → ℕ → Action

-- The reader, and all frames that the timer was given.
pub record System : Type 0 where
  pub reader : Reader
  pub taken : List RtcmFrame

act : Action → System → Result System
unfolding step
act (thread e) s = do r ← step e s.reader; ok (record s { reader = r })
act (timer limit now) s =
    let t = take_fresh limit now s.reader in ok (record { reader = t.0; taken = s.taken ++ t.1 })

unfoldable pub run : List Action → System → Result System
unfolding act
run [] s = ok s
run (a ∷ actions) s = do next ← act a s; run actions next

-- A complete RTCM3 frame.
pub record IsFrame (f : RtcmFrame) : Type 0 where
  pub valid : valid_rtcm3 f.raw ≡ true
  pub small : length f.raw ≤ 1029

-- The queue keeps its size, and each frame that was received was given, is queued or was dropped.
pub record IsBalanced (s : System) : Type 0 where
  pub positive : 0 < s.reader.queue_size
  pub bounded : length s.reader.frames ≤ s.reader.queue_size
  pub balance :
      length s.taken + length s.reader.frames + s.reader.frames_dropped ≡ s.reader.frames_received
  pub parsed : Accounted s.reader.parser
  pub queued : All IsFrame s.reader.frames
  pub given : All IsFrame s.taken

put_all-IsBalanced :
    (frames : List RtcmFrame) (s : System)
    → All IsFrame frames
    → IsBalanced s
    → IsBalanced (record s { reader = put_all frames s.reader })
unfolding put_all
put_all-IsBalanced [] s h k = k
put_all-IsBalanced (frame ∷ frames) s h k =
    let put = put_fresh frame s.reader in
    let (bounded, counted) = put_fresh_lem frame s.reader k.positive k.bounded in
    let (size, parser, count) = put_fresh-same frame s.reader in
    put_all-IsBalanced frames
      (record s { reader = record put { frames_received = put.frames_received + 1 } }) h.1
      (record {
        positive = rw size k.positive;
        bounded = rw size bounded;
        balance = omega (arith, counted, count, k.balance);
        parsed = rw parser k.parsed;
        queued = All-put_fresh IsFrame frame s.reader h.0 k.queued;
        given = k.given;
      })

dropped-IsBalanced :
    (s : System) (r : Reader)
    → 0 < r.queue_size
    → length s.taken + length r.frames + r.frames_dropped ≡ r.frames_received
    → Accounted r.parser
    → All IsFrame s.taken
    → IsBalanced (record s { reader = drop_queued_frames r })
unfolding drop_queued_frames
dropped-IsBalanced s r positive balance parsed given = record {
  positive = positive;
  bounded = omega arith;
  balance = omega arith;
  parsed = parsed;
  queued = tt;
  given = given;
}

good_frames : (now : ℕ) (frames : List RtcmFrame) → All (Good now) frames → All IsFrame frames
good_frames now [] h = tt
good_frames now (f ∷ frames) h =
    (record { valid = h.0.valid; small = h.0.small }, good_frames now frames h.1)

init-Accounted : Accounted Parser.init
unfolding Parser.init
init-Accounted = record { balance = refl }

received-IsBalanced :
    (chunk : List ℕ) (at : ℕ) (s : System)
    → IsBalanced s
    → (s' : System) × (act (thread (received chunk at)) s ≡ ok s') × IsBalanced s'
unfolding act step
received-IsBalanced chunk at s h =
    let fed = feed-Fed s.reader.parser chunk at h.parsed in
    (
      record s { reader = put_all fed.frames (record s.reader { parser = fed.last }) },
      rw fed.result refl,
      put_all-IsBalanced fed.frames (record s { reader = record s.reader { parser = fed.last } })
          (good_frames at fed.frames fed.good)
          (record {
            positive = h.positive;
            bounded = h.bounded;
            balance = h.balance;
            parsed = fed.accounted;
            queued = h.queued;
            given = h.given;
          }),
    )

timer-IsBalanced :
    (limit now : ℕ) (s : System)
    → IsBalanced s
    → (s' : System) × (act (timer limit now) s ≡ ok s') × IsBalanced s'
unfolding act
timer-IsBalanced limit now s h =
    let (output, fresh, left, counted) = take_fresh_lem limit now s.reader in
    let (size, parser, count) = take_fresh-same limit now s.reader in
    let t = take_fresh limit now s.reader in
    (
      record { reader = t.0; taken = s.taken ++ t.1 },
      refl,
      record {
        positive = rw size h.positive;
        bounded = rw (size, left, length-drop limit s.reader.frames) (omega (arith, h.bounded));
        balance = omega (arith, counted, count, h.balance, length-append s.taken t.1);
        parsed = rw parser h.parsed;
        queued = rw left (All-drop IsFrame limit s.reader.frames h.queued);
        given = All-append IsFrame s.taken t.1 h.given (
            rw output
              (All-fresh_frames IsFrame now _ (All-take IsFrame limit s.reader.frames h.queued)));
      },
    )

act-IsBalanced :
    (a : Action) (s : System) → IsBalanced s → (s' : System) × (act a s ≡ ok s') × IsBalanced s'
unfolding act step
act-IsBalanced (thread connecting) s h = (
  _,
  refl,
  dropped-IsBalanced s (record s.reader { parser = Parser.init }) h.positive h.balance
      init-Accounted h.given,
)
act-IsBalanced (thread (received chunk at)) s h = received-IsBalanced chunk at s h
act-IsBalanced (thread ended) s h =
    (_, refl, dropped-IsBalanced s s.reader h.positive h.balance h.parsed h.given)
act-IsBalanced (thread failed) s h = (
  _,
  refl,
  dropped-IsBalanced s (record s.reader { connect_failures = s.reader.connect_failures + 1 })
      h.positive h.balance h.parsed h.given,
)
act-IsBalanced (timer limit now) s h = timer-IsBalanced limit now s h

-- If the queue has a positive size and is in balance, every sequence of connections, chunks, failures
-- and timer calls returns. The queue is never longer than its size; every frame that was received was
-- given to the timer, is queued or is counted as dropped; and each frame that is queued or was given
-- is a valid RTCM3 frame of at most 1029 bytes.
pub run-IsBalanced :
    (actions : List Action) (s : System)
    → IsBalanced s
    → (s' : System) × (run actions s ≡ ok s') × IsBalanced s'
unfolding run
run-IsBalanced [] s h = (s, refl, h)
run-IsBalanced (a ∷ actions) s h =
    let (next, acted, still) = act-IsBalanced a s h in
    let (s', ran, balanced) = run-IsBalanced actions next still in (s', rw acted ran, balanced)
