-- ===== src/Host/Ros/Tests.antt =====
-- Concrete runs for the ROS bridge.
use mowgli_lora_link.Prelude.{ℕ, ◌+◌, List, [], ◌∷◌, ◌≡◌, refl, ok, arith}
use mowgli_lora_link.Crc.{crc24q}
use mowgli_lora_link.Dict.{lookup, insert}
use mowgli_lora_link.Application.Rtcm.{valid_rtcm3}
use mowgli_lora_link.Host.Parser
use mowgli_lora_link.Host.Parser.{RtcmFrame}
use mowgli_lora_link.Host.Ros.Window.{
  Log, Operation, put, get_up_to, boundary, promise_all, perform_all, Represents,
  perform_all-refines,
}
use mowgli_lora_link.Host.Ros.Sessions.{
  Action, thread, timer, System, run, IsBalanced, run-IsBalanced,
}
use mowgli_lora_link.Host.Ros.{
  Reader, init, connecting, received, failed, is_stale, take_loop, take_fresh, drop_queued_frames,
  put_fresh, put_all, without_oldest, step, Message, publish_each, publish_pending,
  populate_rtcm_message,
}

abbrev wire : List ℕ
wire = 7 ∷ 0xD3 ∷ 255 ∷ 0xD3 ∷ 0 ∷ 2 ∷ 0x3E ∷ 0xD0 ∷ 164 ∷ 224 ∷ 0 ∷ []

abbrev frame : ℕ → RtcmFrame
frame at = record {
  raw = 0xD3 ∷ 0 ∷ 2 ∷ 0x3E ∷ 0xD0 ∷ 164 ∷ 224 ∷ 0 ∷ [];
  message_type = 1005;
  received_at = at;
}

abbrev start : System
start = record { reader = init 2; taken = [] }

-- Three frames in a queue of two: the first is dropped, the second is stale when the timer takes it.
abbrev actions : List Action
actions =
    thread connecting
    ∷ thread (received wire 5)
    ∷ thread (received wire 10)
    ∷ thread (received wire 900)
    ∷ timer 64 1010
    ∷ thread failed
    ∷ []

abbrev reader_parser : Parser.Parser
reader_parser = record {
  buffer = [];
  stats = record {
    input_bytes = 33;
    garbage_bytes = 6;
    header_failures = 3;
    length_failures = 0;
    crc_failures = 0;
    frames = 3;
    frame_bytes = 24;
    stream_resets = 0;
  };
  message_types = (1005, 3) ∷ [];
}

one_is_given :
    run actions start
    ≡ ok (record {
      reader = record {
        queue_size = 2;
        frames = [];
        parser = reader_parser;
        frames_received = 3;
        frames_dropped = 2;
        connect_failures = 1;
      };
      taken = frame 900 ∷ [];
    })
unfolding run init Parser.init Parser.feed valid_rtcm3 crc24q lookup insert step put_all put_fresh
    without_oldest take_fresh take_loop is_stale drop_queued_frames
one_is_given = refl

start-IsBalanced : IsBalanced start
unfolding init Parser.init
start-IsBalanced = record {
  positive = omega arith;
  bounded = omega arith;
  balance = refl;
  parsed = record { balance = refl };
  queued = tt;
  given = tt;
}

run-IsBalanced_example : (s' : System) × (run actions start ≡ ok s') × IsBalanced s'
run-IsBalanced_example = run-IsBalanced actions start start-IsBalanced

abbrev full : Reader
full = record (init 2) { frames = frame 5 ∷ frame 900 ∷ [] }

abbrev operations : List Operation
operations = put (frame 5) ∷ put (frame 10) ∷ put (frame 900) ∷ get_up_to 1 20 ∷ boundary ∷ []

abbrev empty_log : Log
empty_log = record { history = []; gone = 0 }

empty-Represents : Represents 2 empty_log (init 2)
unfolding init
empty-Represents = record {
  window = refl;
  within = omega arith;
  sized = refl;
  bounded = omega arith;
}

perform_all-refines_example :
    Represents 2 (promise_all 2 operations empty_log).0 (perform_all operations (init 2)).0
    × ((perform_all operations (init 2)).1 ≡ (promise_all 2 operations empty_log).1)
perform_all-refines_example =
    perform_all-refines 2 operations empty_log (init 2) (omega arith) empty-Represents

-- Both messages of a call carry the stamps of the node's clock.
abbrev messages : List (Message ℕ)
messages =
    record { stamp = 40; message_type = 1005; data_bytes = (frame 5).raw }
    ∷ record { stamp = 41; message_type = 1005; data_bytes = (frame 900).raw }
    ∷ []

stamped : (publish_pending (λ n. 40 + n) 950 full 0).1 ≡ messages
unfolding publish_pending publish_each populate_rtcm_message take_fresh take_loop is_stale
stamped = refl
