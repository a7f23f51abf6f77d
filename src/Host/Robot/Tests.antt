-- ===== src/Host/Robot/Tests.antt =====
-- Concrete runs for the robot service.
use mowgli_lora_link.Prelude.{
  ℕ, ◌+◌, ◌==◌, if◌then◌else◌, List, [], ◌∷◌, ◌++◌, arith, some, true, ok, err, Result, length,
}
use mowgli_lora_link.Protocol.Frame.{encode_frame}
use mowgli_lora_link.Protocol.Stream.{fresh}
use mowgli_lora_link.Application.Codec.{encode}
use mowgli_lora_link.Application.Reassembler
use mowgli_lora_link.Host.Modem.{Port, radio_rx}
use mowgli_lora_link.Host.Output
use mowgli_lora_link.Host.Output.{took}
use mowgli_lora_link.Host.Robot.{RobotService, Sockets, step}
use mowgli_lora_link.Host.Robot.Forwarding.{IsSound, step-IsSound}

abbrev bytes_of : Result (List ℕ) → List ℕ
bytes_of (ok raw) = raw
bytes_of (err e) = []

-- The only fragment of a frame of type 1005, as the base sends it.
abbrev packet : List ℕ
packet = bytes_of (
    encode (record {
      typ = 0x30;
      sender_session = 7;
      message_id = 1;
      source_age_ms = 100;
      body = 3 ∷ 237 ∷ 0 ∷ 8 ∷ 0 ∷ 1 ∷ 0xD3 ∷ 0 ∷ 2 ∷ 0x3E ∷ 0xD0 ∷ 164 ∷ 224 ∷ 0 ∷ [];
    }))

-- The RADIO_RX frame in which the modem passes it on.
abbrev usb_bytes : List ℕ
usb_bytes = bytes_of (
    encode_frame (record {
      msg_type = radio_rx;
      session = 5;
      sequence = 9;
      payload = (0 ∷ 0 ∷ 0 ∷ 1 ∷ 0 ∷ 0 ∷ 0 ∷ 2 ∷ 234 ∷ 132 ∷ 3 ∷ 82 ∷ 0 ∷ 0 ∷ 1 ∷ 0 ∷ []) ++ packet;
    }))

-- A port that reads these bytes; the world is the time.
abbrev busy_port : Port ℕ
busy_port = record {
  open_serial = λ w. (w + 1, true);
  close_serial = λ w. w;
  write = λ w raw. (w, some (length raw));
  read = λ w. (w, some usb_bytes);
  clock = λ w. (w, w);
  random = λ w. (w, 77);
}

-- A client connects at first, and takes four bytes of each send.
abbrev network : ℕ → Sockets
network n = record {
  waiting = if n == 0 then 1 ∷ [] else [];
  later = [];
  send = λ client raw. took 4;
  clock = 9000;
}

abbrev robot : RobotService ℕ
robot = record {
  transport = record {
    world = 9000;
    connected = true;
    reconnect_ms = 1000;
    decoder = fresh 380;
    session = 5;
    sequence = 2;
    boot_id = some 1;
    handshake_complete = true;
    radio_ready = true;
    pending = [];
    received = [];
    tx_outcomes = [];
    timed_out_radio = [];
    next_attempt = 0;
    last_diagnostics = 8900;
    last_radio_rx = 0;
    metrics = [];
  };
  reassembler = Reassembler.init;
  output = Output.init;
  calls = 0;
  metrics = [];
}

robot-IsSound : IsSound robot.reassembler robot.output
robot-IsSound = record {
  reassembly = record { items = omega arith; blocked = omega arith };
  fits = tt;
  rtcm = tt;
}

step-IsSound_example :
    IsSound
      (step busy_port network 9000 robot).0.reassembler
      (step busy_port network 9000 robot).0.output
step-IsSound_example = step-IsSound busy_port network 9000 robot robot-IsSound
