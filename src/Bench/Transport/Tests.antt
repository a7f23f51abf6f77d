-- ===== src/Bench/Transport/Tests.antt =====
-- A concrete run of the simulated transport.
use mowgli_lora_link.Prelude.{List, [], ◌∷◌, ◌≡◌, refl, arith, All, none, ok}
use mowgli_lora_link.Application.Codec.RoundTrip.{IsFrame}
use mowgli_lora_link.Application.Codec.{Frame}
use mowgli_lora_link.Bench.Scheduler.{WorkItem, base_to_robot}
use mowgli_lora_link.Bench.Transport.Clock.{
  Step, idle, send, run, Arrived, IsAccounted, InRange, run-Arrived, total,
}
use mowgli_lora_link.Bench.Transport.{Transport, init}

abbrev greeting : WorkItem
greeting = record {
  frame = record { typ = 1; sender_session = 7; message_id = 1; source_age_ms = 0; body = 5 ∷ [] };
  direction = base_to_robot;
  created_at = 400;
  order = 1;
  rtcm_key = none;
}

greeting-IsFrame : IsFrame greeting.frame
greeting-IsFrame = record {
  typed = omega arith;
  has_session = omega arith;
  session_fits = omega arith;
  has_id = omega arith;
  id_fits = omega arith;
  age_fits = omega arith;
  body_fits = omega arith;
}

abbrev steps : List Step
steps = send greeting ∷ idle 90000 ∷ send greeting ∷ []

init-IsAccounted : IsAccounted init
unfolding total
init-IsAccounted = record { airtime = refl; passed = omega arith }

run-Arrived_example :
    (t' : Transport) × (frames : List Frame) × (run steps init ≡ ok (t', frames))
    × Arrived steps frames
    × IsAccounted t'
    × All InRange t'.transaction_times
run-Arrived_example =
    run-Arrived steps init (greeting-IsFrame, (tt, (greeting-IsFrame, tt))) init-IsAccounted tt
