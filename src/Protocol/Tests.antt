-- ===== src/Protocol/Tests.antt =====
-- Concrete runs for the mock application message, the payloads and the stream decoder.
use mowgli_lora_link.Prelude.{ℕ, List, [], ◌∷◌, ◌++◌, ◌≡◌, arith, ok, false}
use mowgli_lora_link.Prelude.Int.{pos, negsuc}
use mowgli_lora_link.Protocol.Frame.{Frame, encode_frame}
use mowgli_lora_link.Protocol.Frame.Bytes.{IsByteFrame}
use mowgli_lora_link.Protocol.MockApp.{Message}
use mowgli_lora_link.Protocol.Payloads.{Info, RadioRx, ErrorReport, parse_error}
use mowgli_lora_link.Protocol.Payloads.Layouts.{error_layout, parse_error-layout}
use mowgli_lora_link.Protocol.Stream.{StreamDecoder, fresh, feed}
use mowgli_lora_link.Protocol.Stream.Chunks.{IsBounded, feed-IsBounded}
use mowgli_lora_link.Protocol.Stream.Pieces.{joined, behind, all_frames, feed-joined}
use mowgli_lora_link.Protocol.Stream.Recovery.{feed_recovers}

abbrev hello : Message
hello = record { kind = 1; sequence = 258; content = 104 ∷ 105 ∷ [] }

abbrev received : RadioRx
received = record {
  sender = 5;
  air = 6;
  rssi_hundredths = negsuc 9999;
  snr_hundredths = pos 725;
  uptime = 1000;
  payload = 1 ∷ 2 ∷ [];
}

abbrev report : ErrorReport
report = record { code = 4; driver_detail = negsuc 1; rejected_type = 3 }

parse_error-layout_example : parse_error (error_layout report) ≡ ok report
parse_error-layout_example = parse_error-layout report (omega arith)

abbrev device : Info
device = record {
  device_id = 1 ∷ 2 ∷ 3 ∷ 4 ∷ 5 ∷ 6 ∷ [];
  boot_id = 77;
  capabilities = 1;
  max_air_payload = 200;
  radio_ready = 1;
  profile_id = 2;
  uptime_ms = 70000;
}

abbrev full : StreamDecoder
full = record { buffer = 1 ∷ 2 ∷ []; discarding = false; max_encoded = 276 }

abbrev status : Frame
status = record { msg_type = 6; session = 9; sequence = 0; payload = 0 ∷ 255 ∷ [] }

status-IsByteFrame : IsByteFrame status
status-IsByteFrame = record {
  frame = record {
    typed = omega arith;
    has_session = omega arith;
    session_fits = omega arith;
    sequence_fits = omega arith;
    payload_fits = omega arith;
  };
  bytes = ground arith;
}

feed-joined_example :
    feed (fresh 276) (joined ((3 ∷ 4 ∷ []) ∷ [] ∷ []) (5 ∷ []))
    ≡ (behind 276 (5 ∷ []), all_frames 276 ((3 ∷ 4 ∷ []) ∷ [] ∷ []))
feed-joined_example =
    feed-joined 276 ((3 ∷ 4 ∷ []) ∷ [] ∷ []) (5 ∷ []) ((omega arith, (omega arith, tt)), (tt, tt))
      (omega arith, tt)

feed-IsBounded_example : IsBounded (feed full (3 ∷ 4 ∷ [])).0
feed-IsBounded_example =
    feed-IsBounded full (3 ∷ 4 ∷ []) (record { within = omega arith; empty = λ e. ground arith })

feed_recovers_example :
    (wire : List ℕ) × (encode_frame status ≡ ok wire)
    × (feed full (((9 ∷ 8 ∷ []) ++ (0 ∷ [])) ++ wire)
        ≡ (fresh 276, (feed full ((9 ∷ 8 ∷ []) ++ (0 ∷ []))).1 ++ (status ∷ [])))
feed_recovers_example = feed_recovers full (9 ∷ 8 ∷ []) status status-IsByteFrame (omega arith)
