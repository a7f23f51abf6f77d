-- ===== src/Protocol/Frame/Tests.antt =====
-- Concrete runs for the USB frame.
use mowgli_lora_link.Prelude.{ℕ, List, [], ◌∷◌, ◌++◌, ◌≡◌, arith, ok, All, ◌<◌}
use mowgli_lora_link.Protocol.Frame.{Frame, encode_frame, decode_frame}
use mowgli_lora_link.Protocol.Frame.RoundTrip.{IsFrame, decode_frame-encode_frame}

abbrev ping : Frame
ping = record { msg_type = 1; session = 9; sequence = 3; payload = 0 ∷ 255 ∷ [] }

abbrev ping_IsFrame : IsFrame ping
ping_IsFrame = record {
  typed = omega arith;
  has_session = omega arith;
  session_fits = omega arith;
  sequence_fits = omega arith;
  payload_fits = omega arith;
}

decode_frame-encode_frame_example :
    (wire : List ℕ) × (encode_frame ping ≡ ok (wire ++ (0 ∷ [])))
    × All (λ b. 0 < b) wire
    × (decode_frame wire ≡ ok ping)
decode_frame-encode_frame_example = decode_frame-encode_frame ping ping_IsFrame
