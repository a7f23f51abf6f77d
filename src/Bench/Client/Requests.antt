-- ===== src/Bench/Client/Requests.antt =====
-- The requests of `ModemClient` of tools/lora_usb/client.py, and how it waits for their responses.
pub mod Scanning
pub mod Answers
pub mod Outcomes
pub mod Runs
pub mod Arrival
mod Tests
use mowgli_lora_link.Prelude.{
  ℕ, zero, suc, ◌+◌, List, [], ◌∷◌, true, false, ◌&&◌, ◌==◌, ltb, if◌then◌else◌, some, Error, ok,
  err,
}
use mowgli_lora_link.Protocol.Frame.{Frame, encode_frame}
use mowgli_lora_link.Host.Modem.{
  hello, info, radio_send, radio_tx_result, get_diagnostics, diagnostics, error,
}
use mowgli_lora_link.Bench.Client.{ModemClient, Port, poll, get_link_status, link_status}

-- The loop of `_wait_response` over the inbox.
pub data Scan : Type 0 where
  absent : Scan
  found : Frame → List Frame → Scan
  refusal : List ℕ → Scan

pub behind : Frame → Scan → Scan
behind frame absent = absent
behind frame (found response left) = found response (frame ∷ left)
behind frame (refusal payload) = refusal payload

pub scan : ℕ → ℕ → List Frame → Scan
scan msg_type seq [] = absent
scan msg_type seq (frame ∷ frames) =
    let rest = scan msg_type seq frames in
    if frame.msg_type == msg_type && frame.sequence == seq
    then found frame frames
    else (if frame.msg_type == error && frame.sequence == seq
        then refusal frame.payload
        else behind frame rest)

-- How a request ends: with its response; with the ModemError of an ERROR frame, or that of the
-- exhausted sequence; with an exception of `encode_frame`; with a TimeoutError. `stuck` marks a loop
-- of the model that was given too little fuel.
pub data Reply : Type 0 where
  returned : Frame → Reply
  refused : List ℕ → Reply
  exhausted : Reply
  rejected : Error → Reply
  timed_out : Reply
  stuck : Reply

pub record Ran (W : Type 0) : Type 0 where
  pub client : ModemClient
  pub world : W
  pub reply : Reply

-- `self.info = frame.payload`, where the wait has returned the frame.
pub keep_info : Reply → ModemClient → ModemClient
keep_info (returned frame) c = record c { info_payload = some frame.payload }
keep_info reply c = c

module _ {W : Type 0} (port : Port W) where
  pub wait_response : ℕ → ℕ → ℕ → ℕ → ModemClient → W → Ran W
  wait_response zero msg_type seq deadline c w = record { client = c; world = w; reply = stuck }
  wait_response (suc fuel) msg_type seq deadline c w =
      let (now, read_at) = port.clock w in
      let (polled, w') = poll port c read_at in
      elim (ltb now deadline) [
        | false ↦ record { client = c; world = read_at; reply = timed_out }
        | true ↦ elim (scan msg_type seq polled.inbox) [
          | absent ↦ wait_response fuel msg_type seq deadline polled (port.sleep 1 w')
          | found frame left ↦ record {
            client = record polled { inbox = left };
            world = w';
            reply = returned frame;
          }
          | refusal payload ↦ record { client = polled; world = w'; reply = refused payload }
        ]
      ]

  -- `_next`, and what follows with the number.
  pub with_next : (ℕ → ModemClient → W → Ran W) → ModemClient → W → Ran W
  with_next continue c w =
      let seq = c.sequence + 1 in
      let c' = record c { sequence = seq } in
      elim (seq == 0xFFFFFFFF) [
        | true ↦ record { client = c'; world = w; reply = exhausted }
        | false ↦ continue seq c' w
      ]

  -- `encode_frame`, and what follows with the bytes.
  pub with_frame : ℕ → ℕ → List ℕ → (List ℕ → ModemClient → W → Ran W) → ModemClient → W → Ran W
  with_frame msg_type seq payload continue c w =
      elim (encode_frame
        (record { msg_type = msg_type; session = c.session; sequence = seq; payload = payload })) [
          | err e ↦ record { client = c; world = w; reply = rejected e }
          | ok wire ↦ continue wire c w
        ]

  -- The deadline of `hello`, `get_link_status` and `get_diagnostics` counts from behind the write.
  pub write_and_wait : ℕ → ℕ → ℕ → List ℕ → ModemClient → W → Ran W
  unfolding wait_response
  write_and_wait response deadline seq wire c w =
      let (now, w') = port.clock (port.write wire w) in
      wait_response (suc deadline) response seq (now + deadline) c w'

  -- `get_link_status` and `get_diagnostics`, up to their types
  pub request : ℕ → ℕ → ℕ → ModemClient → W → Ran W
  unfolding with_next with_frame write_and_wait
  request msg_type response deadline =
      with_next (λ seq. with_frame msg_type seq [] (write_and_wait response deadline seq))

  pub greet : ℕ → ModemClient → W → Ran W
  unfolding request keep_info
  greet deadline c w =
      let ran = request hello info deadline c w in
      record ran { client = keep_info ran.reply ran.client }

  -- The deadline of `send` counts from before the encoding.
  pub send_from : List ℕ → ℕ → ℕ → ModemClient → W → Ran W
  unfolding with_frame wait_response
  send_from payload deadline seq c w =
      let (started, w') = port.clock w in
      with_frame radio_send seq payload
        (λ wire c w.
          wait_response (suc deadline) radio_tx_result seq (started + deadline) c
            (port.write wire w))
        c w'

  pub send : List ℕ → ℕ → ModemClient → W → Ran W
  unfolding with_next send_from
  send payload deadline = with_next (send_from payload deadline)

  pub ask_link_status : ℕ → ModemClient → W → Ran W
  unfolding request
  ask_link_status deadline = request get_link_status link_status deadline

  pub ask_diagnostics : ℕ → ModemClient → W → Ran W
  unfolding request
  ask_diagnostics deadline = request get_diagnostics diagnostics deadline
