-- ===== src/Bench/Transport/Clock.antt =====
-- The clock of the simulated transport, and what arrives.
use mowgli_lora_link.Prelude.{
  ℕ, ◌+◌, ◌*◌, ◌≤◌, ◌≡◌, refl, arith, List, [], ◌∷◌, ◌++◌, length, length-append, All, All-append,
  max, Result, ok, ◌>>=◌,
}
use mowgli_lora_link.Crc.{crc16}
use mowgli_lora_link.Wire.{be16}
use mowgli_lora_link.Application.Codec.{Frame, header_and_body}
use mowgli_lora_link.Application.Codec.RoundTrip.{IsFrame, encode-ok, decode-encode}
use mowgli_lora_link.Bench.Scheduler.{WorkItem}
use mowgli_lora_link.Bench.Transport.{
  Transport, lora_airtime, idle_until, transmit, with_age, send_item,
}

-- What the loop of the bench does with the transport.
pub data Step : Type 0 where
  idle : ℕ → Step
  send : WorkItem → Step

pub run : List Step → Transport → Result (Transport × List Frame)
unfolding idle_until send_item
run [] t = ok (t, [])
run (idle target ∷ steps) t = run steps (idle_until target t)
run (send item ∷ steps) t = do
  sent ← send_item item t
  rest ← run steps sent.0
  ok (rest.0, sent.1 ∷ rest.1)

-- The item's frame is in range; its age is set when it is sent.
abbrev pub Ready : Step → Type 0
Ready (idle target) = Unit
Ready (send item) = IsFrame item.frame

unfoldable pub total : List ℕ → ℕ
total [] = 0
total (time ∷ times) = time + total times

total-append : (xs ys : List ℕ) → total (xs ++ ys) ≡ total xs + total ys
unfolding total
total-append [] ys = omega arith
total-append (x ∷ xs) ys = omega (arith, total-append xs ys)

-- A transaction takes its airtime and a millisecond; the clock has passed them all.
pub record IsAccounted (t : Transport) : Type 0 where
  pub airtime : total t.transaction_times ≡ t.estimated_airtime + 1000 * length t.transaction_times
  pub passed : total t.transaction_times ≤ t.clock

-- The frames of the items that are sent, up to their ages.
abbrev pub SameBut : Frame → Frame → Type 0
SameBut f g =
    (f.typ ≡ g.typ)
    × (f.sender_session ≡ g.sender_session)
    × (f.message_id ≡ g.message_id)
    × (f.body ≡ g.body)
    × (g.source_age_ms ≤ 0xFFFF)

pub data Arrived : List Step → List Frame → Type 0 where
  end : Arrived [] []
  idled :
      (target : ℕ) (steps : List Step) (frames : List Frame)
      → Arrived steps frames
      → Arrived (idle target ∷ steps) frames
  came :
      (item : WorkItem) (steps : List Step) (f : Frame) (frames : List Frame)
      → SameBut item.frame f
      → Arrived steps frames
      → Arrived (send item ∷ steps) (f ∷ frames)

-- A transaction takes from 14.6 to 60.68 milliseconds.
abbrev pub InRange : ℕ → Type 0
InRange time = (14600 ≤ time) × (time ≤ 60680)

lora_airtime_bounds :
    (n : ℕ) → 20 ≤ n → n ≤ 200 → (13600 ≤ lora_airtime n) × (lora_airtime n ≤ 59680)
unfolding lora_airtime
lora_airtime_bounds n low high = (omega arith, omega arith)

-- What a transaction does.
record Transacted (frame : Frame) (t t' : Transport) : Type 0 where
  time : ℕ
  longer : t'.transaction_times ≡ t.transaction_times ++ (time ∷ [])
  clock : t'.clock ≡ t.clock + time
  airtime : t'.estimated_airtime + 1000 ≡ t.estimated_airtime + time
  bounded : (14600 ≤ time) × (time ≤ 60680)

transmit-Transacted :
    (frame : Frame) (t : Transport)
    → IsFrame frame
    → (t' : Transport) × (transmit frame t ≡ ok (t', frame)) × Transacted frame t t'
unfolding transmit
transmit-Transacted frame t h =
    let raw = header_and_body frame ++ be16 (crc16 (header_and_body frame)) in
    let duration = lora_airtime (length raw) in
    let encoded = encode-ok frame h in
    let (decoded, size, small) = decode-encode frame raw encoded in
    let (least, most) = lora_airtime_bounds (length raw) (omega (arith, size)) small in
    (
      record t {
        estimated_airtime = t.estimated_airtime + duration;
        clock = t.clock + (duration + 1000);
        transaction_times = t.transaction_times ++ ((duration + 1000) ∷ []);
      },
      rw (encoded, decoded) refl,
      record {
        time = duration + 1000;
        longer = refl;
        clock = refl;
        airtime = omega arith;
        bounded = (omega (arith, least), omega (arith, most));
      },
    )

with_age-IsFrame : (now : ℕ) (item : WorkItem) → IsFrame item.frame → IsFrame (with_age now item)
unfolding with_age
with_age-IsFrame now item h = record {
  typed = h.typed;
  has_session = h.has_session;
  session_fits = h.session_fits;
  has_id = h.has_id;
  id_fits = h.id_fits;
  age_fits = omega arith;
  body_fits = h.body_fits;
}

with_age-SameBut : (now : ℕ) (item : WorkItem) → SameBut item.frame (with_age now item)
unfolding with_age
with_age-SameBut now item = (refl, refl, refl, refl, omega arith)

Transacted-IsAccounted :
    (frame : Frame) (t t' : Transport) → Transacted frame t t' → IsAccounted t → IsAccounted t'
unfolding total
Transacted-IsAccounted frame t t' h k =
    let times = total-append t.transaction_times (h.time ∷ []) in
    let count = length-append t.transaction_times (h.time ∷ []) in
    record {
      airtime = rw (h.longer, times, count) (omega (arith, h.airtime, k.airtime));
      passed = rw (h.longer, times) (omega (arith, h.clock, k.passed));
    }

-- If every item's frame is in range, the run succeeds, and what arrives are the frames of the items,
-- in order, up to their ages, which fit 16 bits. The simulator's transaction times add up to the
-- airtime that it estimates and a millisecond for each, and its clock has passed at least their sum.
-- By the simulator's formula, which is that of a bandwidth of 250 kHz and not of the 500 kHz that the
-- firmware sets, each transaction takes from 14.6 to 60.68 milliseconds.
pub run-Arrived :
    (steps : List Step) (t : Transport)
    → All Ready steps
    → IsAccounted t
    → All InRange t.transaction_times
    → (t' : Transport) × (frames : List Frame) × (run steps t ≡ ok (t', frames))
      × Arrived steps frames
      × IsAccounted t'
      × All InRange t'.transaction_times
unfolding run send_item idle_until
run-Arrived [] t ready h bounded = (t, [], refl, end, h, bounded)
run-Arrived (idle target ∷ steps) t ready h bounded =
    let idled_t : Transport = record t { clock = max t.clock target } in
    let (t', frames, ran, arrived, accounted, still) =
      run-Arrived steps idled_t ready.1
        (record { airtime = h.airtime; passed = omega (arith, h.passed) }) bounded in
    (t', frames, ran, idled target steps frames arrived, accounted, still)
run-Arrived (send item ∷ steps) t ready h bounded =
    let frame = with_age t.clock item in
    let (sent, transmitted, done) =
      transmit-Transacted frame t (with_age-IsFrame t.clock item ready.0) in
    let sent_bounded : All InRange sent.transaction_times =
      rw done.longer
        (All-append _ t.transaction_times (done.time ∷ []) bounded (done.bounded, tt)) in
    let (t', frames, ran, arrived, accounted, still) =
      run-Arrived steps sent ready.1 (Transacted-IsAccounted frame t sent done h) sent_bounded in
    (
      t',
      frame ∷ frames,
      rw (transmitted, ran) refl,
      came item steps frame frames (with_age-SameBut t.clock item) arrived,
      accounted,
      still,
    )
