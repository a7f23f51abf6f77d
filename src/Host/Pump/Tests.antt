-- ===== src/Host/Pump/Tests.antt =====
-- Concrete runs for the hand-off of the input.
use mowgli_lora_link.Prelude.{◌≤◌, List, [], ◌∷◌, length, ◌≡◌, refl, arith}
use mowgli_lora_link.Host.Pump.{
  init, receive, start_input_session, consume, max_queue, reset_source, ingest,
}
use mowgli_lora_link.Host.Pump.Exchange.{
  Event, session, received, taken, finished_round, System, run,
}
use mowgli_lora_link.Host.Pump.Splicing.{fed, Whole, payloads, NotNewer}
use mowgli_lora_link.Host.Pump.Exchange.Reader.{IsLinked, ingested}
use mowgli_lora_link.Host.Pump.Exchange.Stretches.{run-IsLinked}

abbrev started : System
started = record {
  pump = init;
  consumer = record { active_generation = 0; log = []; metrics = [] };
  held = [];
  stretch = [];
  past = [];
}

abbrev events : List Event
events =
    session
    ∷ taken
    ∷ finished_round
    ∷ received (1 ∷ 2 ∷ []) 10
    ∷ taken
    ∷ session
    ∷ finished_round
    ∷ received (3 ∷ []) 20
    ∷ taken
    ∷ finished_round
    ∷ taken
    ∷ finished_round
    ∷ []

-- The first chunk is superseded by the second session before the loop handles it.
superseded :
    (run events started).consumer.log ≡ ingest 2 (3 ∷ []) 20 ∷ reset_source ∷ reset_source ∷ []
unfolding run init receive start_input_session consume
superseded = refl

started-IsLinked : IsLinked started
unfolding init ingested fed Whole payloads NotNewer
started-IsLinked = record {
  whole = tt;
  active = omega arith;
  single = omega arith;
  queued = tt;
  handled = tt;
  linked = refl;
}

run-IsLinked_example : IsLinked (run events started)
run-IsLinked_example = run-IsLinked events started started-IsLinked

init-empty : length init.queue ≤ max_queue
unfolding init
init-empty = omega arith
