-- ===== src/Bench/Client/Requests/Tests.antt =====
-- Concrete runs of the bench's client.
use mowgli_lora_link.Prelude.{ℕ, ◌+◌, ◌≡◌, refl, arith, List, [], ◌∷◌, ◌++◌, ◌&&◌, ◌==◌}
use mowgli_lora_link.Protocol.Frame.{Frame}
use mowgli_lora_link.Protocol.Frame.Bytes.{IsByteFrame, code_of}
use mowgli_lora_link.Protocol.Frame.RoundTrip.{encode_frame-ok}
use mowgli_lora_link.Host.Modem.{radio_rx, radio_send, radio_tx_result}
use mowgli_lora_link.Bench.Client.Accounting.{IsSound, radio_count}
use mowgli_lora_link.Bench.Client.Events.{Taken, matched, take_radio_event-Taken}
use mowgli_lora_link.Bench.Client.Requests.Answers.{Passes}
use mowgli_lora_link.Bench.Client.Requests.Outcomes.{Asked, IsLate, request_frame, send-Asked}
use mowgli_lora_link.Bench.Client.Requests.Runs.{
  Operation, give_events, take_event, send_payload, query_status, State, run, Continues,
  run-Continues,
}
use mowgli_lora_link.Bench.Client.Requests.Arrival.{wait_response-arrived}
use mowgli_lora_link.Bench.Client.Requests.{returned, send, wait_response}
use mowgli_lora_link.Bench.Client.{ModemClient, Port, init, poll, is_radio, take_radio_event}

-- The time, and what each read gives.
abbrev World : Type 0
World = ℕ × List (List ℕ)

read_next : ℕ → World → List ℕ × World
read_next n (now, []) = ([], (now, []))
read_next n (now, bytes ∷ more) = (bytes, (now, more))

abbrev simulated : Port World
simulated = record {
  clock = λ w. (w.0, w);
  read = read_next;
  write = λ wire w. w;
  sleep = λ n w. (w.0 + n, w.1);
}

read_next_keeps : (n : ℕ) (w : World) → (read_next n w).1.0 ≡ w.0
unfolding read_next
read_next_keeps n (now, []) = refl
read_next_keeps n (now, bytes ∷ more) = refl

simulated-Passes : Passes simulated
simulated-Passes = record {
  reading = λ w. omega arith;
  writing = λ wire w. omega arith;
  sleeping = λ n w. omega (arith, read_next_keeps n w);
}

abbrev result_frame : Frame
result_frame = record { msg_type = radio_tx_result; session = 7; sequence = 1; payload = 0 ∷ [] }

abbrev event : ℕ → Frame
event n = record { msg_type = radio_rx; session = 7; sequence = n; payload = n ∷ [] }

-- An event waits in the inbox.
abbrev one_event : ModemClient
one_event = record (init 7) {
  inbox = event 5 ∷ [];
  counters = record (init 7).counters { frames_decoded = 1; radio_rx_events = 1 };
}

one_event-IsSound : IsSound 0 one_event
unfolding radio_count
one_event-IsSound = record { sorted = refl; radio = refl; own = (refl, tt) }

send-Asked_example :
    Asked 0 radio_tx_result
      (request_frame radio_send one_event (1 ∷ []))
      (IsLate simulated 13)
      (send simulated (1 ∷ []) 3 one_event (10, []))
send-Asked_example =
    send-Asked simulated 0 3 (1 ∷ []) one_event (10, []) simulated-Passes one_event-IsSound

take_radio_event-Taken_example :
    let polled = (poll simulated one_event (10, [])).0 in
    let (c', w', taken) = take_radio_event simulated (λ f. f.sequence == 5) one_event (10, []) in
    Taken (λ f. is_radio f && f.sequence == 5) polled.inbox c'.inbox taken
    × (c'.counters.radio_rx_events_matched ≡ matched polled.counters.radio_rx_events_matched taken)
take_radio_event-Taken_example =
    take_radio_event-Taken simulated (λ f. f.sequence == 5) one_event (10, [])

abbrev session : State World
session = record { client = one_event; world = (10, []); given = 0 }

abbrev operations : List Operation
operations =
    query_status 2 ∷ take_event (λ f. f.sequence == 5) ∷ send_payload (1 ∷ []) 3 ∷ give_events ∷ []

run-Continues_example : Continues simulated session (run simulated operations session)
run-Continues_example =
    run-Continues simulated operations session simulated-Passes one_event-IsSound

result_frame-IsByteFrame : IsByteFrame result_frame
result_frame-IsByteFrame = record {
  frame = record {
    typed = omega arith;
    has_session = omega arith;
    session_fits = omega arith;
    sequence_fits = omega arith;
    payload_fits = omega arith;
  };
  bytes = (omega arith, tt);
}

abbrev wire : List ℕ
wire = code_of result_frame ++ (0 ∷ [])

-- The response stands in the first read.
abbrev answered : World
answered = (10, wire ∷ [])

wait_response-arrived_example :
    let ran = wait_response simulated 6 radio_tx_result 1 15 one_event answered in
    (ran.reply ≡ returned result_frame) × (ran.client.inbox ≡ one_event.inbox)
wait_response-arrived_example =
    wait_response-arrived simulated 5 radio_tx_result 1 15 one_event answered result_frame wire
      result_frame-IsByteFrame (encode_frame-ok result_frame result_frame-IsByteFrame.frame) refl
      (refl, tt) refl refl refl (omega arith) (unfold read_next in refl)
