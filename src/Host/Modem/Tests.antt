-- ===== src/Host/Modem/Tests.antt =====
-- Concrete runs for the modem transport.
use mowgli_lora_link.Prelude.{ℕ, inl, ◌+◌, refl, arith, [], ◌∷◌, true, none, some}
use mowgli_lora_link.Dict.{num_key}
use mowgli_lora_link.Protocol.Stream.{fresh}
use mowgli_lora_link.Host.Modem.{Port, Transport, sent, radio_send}
use mowgli_lora_link.Host.Modem.Session.{send_air, restart_host_session}
use mowgli_lora_link.Host.Modem.Tick.{tick}
use mowgli_lora_link.Host.Modem.Ledger.{Kept}
use mowgli_lora_link.Host.Modem.Restarts.{Restarted, restart_host_session-Restarted}
use mowgli_lora_link.Host.Modem.Openings.{tick-Kept}
use mowgli_lora_link.Host.Modem.Sends.{Sent, send_air-Sent}

-- A port that takes four bytes of a write; the world is the time, and goes on by one with each call.
abbrev slow_port : Port ℕ
slow_port = record {
  open_serial = λ w. (w + 1, true);
  close_serial = λ w. w + 1;
  write = λ w raw. (w + 1, some 4);
  read = λ w. (w + 1, none);
  clock = λ w. (w + 1, w);
  random = λ w. (w + 1, 77);
}

abbrev idle : Transport ℕ
idle = record {
  world = 9000;
  connected = true;
  reconnect_ms = 1000;
  decoder = fresh 380;
  session = 5;
  sequence = 2;
  boot_id = some 1;
  handshake_complete = true;
  radio_ready = true;
  pending = [];
  received = [];
  tx_outcomes = (1, sent) ∷ [];
  timed_out_radio = [];
  next_attempt = 0;
  last_diagnostics = 8900;
  last_radio_rx = 0;
  metrics = [];
}

-- A send of five seconds ago waits for its outcome.
abbrev waiting : Transport ℕ
waiting = record idle { pending = (2, record { typ = radio_send; started = 4000 }) ∷ [] }

restart_host_session-Restarted_example :
    Restarted waiting (restart_host_session slow_port waiting).0
restart_host_session-Restarted_example = restart_host_session-Restarted slow_port waiting

tick-Kept_example : Kept waiting (tick slow_port true waiting).0
tick-Kept_example = tick-Kept slow_port true waiting (omega arith) (inl refl)

send_air-Sent_example : Sent idle (send_air slow_port (1 ∷ 2 ∷ []) idle)
send_air-Sent_example = send_air-Sent slow_port (1 ∷ 2 ∷ []) idle (omega arith)
