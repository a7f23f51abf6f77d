-- ===== src/Host/Base/Steps/Tests.antt =====
-- Concrete runs for the base service.
use mowgli_lora_link.Prelude.{
  ℕ, ◌+◌, List, [], ◌∷◌, ◌≡◌, refl, arith, none, some, true, length, inl,
}
use mowgli_lora_link.Protocol.Stream.{fresh}
use mowgli_lora_link.Host.Parser
use mowgli_lora_link.Host.Parser.{RtcmFrame}
use mowgli_lora_link.Host.Parser.Accounting.{Accounted}
use mowgli_lora_link.Host.Modem.{Port, Transport, sent, not_sent, radio_send}
use mowgli_lora_link.Host.Modem.Tick.{tick}
use mowgli_lora_link.Host.Modem.Ledger.{sends}
use mowgli_lora_link.Host.Base.{
  BaseService, ingest, reset_source, clear_queue, clear_fragments, is_idle,
}
use mowgli_lora_link.Host.Base.Queue.{Ingested, ingest-Ingested}
use mowgli_lora_link.Host.Base.Steps.{step, send_next, settle_all, settle, is_flying}
use mowgli_lora_link.Host.Base.Steps.Flight.{IsTracked, AllExpected, step-Tracks}
use mowgli_lora_link.Host.Base.Steps.Sending.{Sends, send_next-Sends}

-- A port that takes what is written and reads nothing; the world is the time.
abbrev quiet_port : Port ℕ
quiet_port = record {
  open_serial = λ w. (w + 1, true);
  close_serial = λ w. w;
  write = λ w raw. (w, some (length raw));
  read = λ w. (w, some []);
  clock = λ w. (w, w);
  random = λ w. (w, 77);
}

abbrev ready : Transport ℕ
ready = record {
  world = 9000;
  connected = true;
  reconnect_ms = 1000;
  decoder = fresh 380;
  session = 5;
  sequence = 2;
  boot_id = some 1;
  handshake_complete = true;
  radio_ready = true;
  pending = [];
  received = [];
  tx_outcomes = [];
  timed_out_radio = [];
  next_attempt = 0;
  last_diagnostics = 8900;
  last_radio_rx = 0;
  metrics = [];
}

abbrev station : List ℕ
station = 0xD3 ∷ 0 ∷ 2 ∷ 0x3E ∷ 0xD0 ∷ 164 ∷ 224 ∷ 0 ∷ []

abbrev service : BaseService ℕ
service = record {
  transport = ready;
  parser = Parser.init;
  queue = record { raw = station; message_type = 1005; received_at = 8900 } ∷ [];
  fragments = [];
  input_rate = [];
  lora_rate = [];
  in_flight = none;
  session = 5;
  message_id = 0;
  metrics = [];
}

service-Accounted : Accounted service.parser
unfolding Parser.init
service-Accounted = record { balance = refl }

ingest-Ingested_example : Ingested (7 ∷ station) 8950 service (ingest (7 ∷ station) 8950 service)
ingest-Ingested_example = ingest-Ingested (7 ∷ station) 8950 service (omega arith) service-Accounted

-- The send of number 3 is in the window.
abbrev flying_service : BaseService ℕ
flying_service = record service {
  transport = record ready { pending = (3, record { typ = radio_send; started = 8990 }) ∷ [] };
  in_flight = some 3;
}

flying_service-IsTracked :
    IsTracked flying_service.transport flying_service.session flying_service.in_flight
unfolding sends
flying_service-IsTracked = record {
  window = omega arith;
  opened = inl refl;
  tracked = refl;
  session_known = inl refl;
}

step-Tracks_example :
    IsTracked
      (step quiet_port 9000 flying_service).0.transport
      (step quiet_port 9000 flying_service).0.session
      (step quiet_port 9000 flying_service).0.in_flight
    × AllExpected
        (tick quiet_port (is_idle flying_service) flying_service.transport).0.tx_outcomes
        (some 3)
step-Tracks_example = step-Tracks quiet_port 9000 flying_service flying_service-IsTracked

send_next-Sends_example : Sends quiet_port 9000 service (send_next quiet_port 9000 service).0
send_next-Sends_example = send_next-Sends quiet_port 9000 service

-- A source that restarts drops what is queued.
restarted : (reset_source service).queue ≡ []
unfolding reset_source clear_queue clear_fragments
restarted = refl

-- A failed send takes the rest of its frame with it; a strange number changes nothing.
failed_send : (settle_all ((9, sent) ∷ (3, not_sent) ∷ []) flying_service).in_flight ≡ none
unfolding settle_all settle is_flying
failed_send = refl
