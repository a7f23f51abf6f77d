-- ===== src/Application/Bodies/Tests.antt =====
-- Concrete runs for the message bodies.
use mowgli_lora_link.Prelude.Int.{pos, negsuc}
use mowgli_lora_link.Application.Bodies.{Hello, StopRequestBody, CommandAckBody, TelemetrySample}

abbrev base_hello : Hello
base_hello = record { role = 1; capabilities = 259 }

abbrev stop_body : StopRequestBody
stop_body = record { target_session = 9; command = 1; reason = 3 }

abbrev stopped_ack : CommandAckBody
stopped_ack = record { request_session = 5; request_id = 1; result = 0; state = 2 }

abbrev sample : TelemetrySample
sample = record {
  uptime_ms = 70000;
  latitude_e7 = negsuc 338567999;
  longitude_e7 = pos 1512093000;
  speed_mm_s = 420;
  battery_mv = 25900;
  last_rtcm_transport_age_ms = 130;
  status_flags = 1;
  fix_type = 4;
  satellites = 21;
}
