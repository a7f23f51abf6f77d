-- ===== src/Bench/Client/Requests/Arrival.antt =====
-- A response that arrives in time is returned by the bench's client.
use mowgli_lora_link.Prelude.{
  ℕ, suc, ◌<◌, ◌≡◌, refl, arith, List, [], ◌∷◌, ◌++◌, All, false, lt→ltb, ok,
}
use mowgli_lora_link.Protocol.Frame.{Frame, encode_frame}
use mowgli_lora_link.Protocol.Frame.Bytes.{IsByteFrame}
use mowgli_lora_link.Protocol.Stream.{fresh, default_max, feed}
use mowgli_lora_link.Protocol.Stream.Recovery.{feed-encode_frame}
use mowgli_lora_link.Bench.Client.Requests.Scanning.{answers}
use mowgli_lora_link.Bench.Client.Requests.{found, behind, scan, returned, wait_response}
use mowgli_lora_link.Bench.Client.{ModemClient, Port, poll, receive, take_frame, take_frames}

-- Behind frames that are no answer, the response is found.
scan_last :
    (msg_type seq : ℕ) (inbox : List Frame) (f : Frame)
    → All (λ g. answers msg_type seq g ≡ false) inbox
    → f.msg_type ≡ msg_type
    → f.sequence ≡ seq
    → scan msg_type seq (inbox ++ (f ∷ [])) ≡ found f inbox
unfolding scan behind
scan_last msg_type seq [] f h typ number = ground arith
scan_last msg_type seq (g ∷ inbox) f h typ number =
    let ih = scan_last msg_type seq inbox f h.1 typ number in rw ih (ground arith)

take_last :
    (c : ModemClient) (f : Frame)
    → f.session ≡ c.session
    → (take_frames (f ∷ []) c).inbox ≡ c.inbox ++ (f ∷ [])
unfolding take_frames take_frame
take_last c f own = ground arith

receive_one :
    (c : ModemClient) (f : Frame) (wire : List ℕ)
    → feed c.decoder wire ≡ (fresh default_max, f ∷ [])
    → f.session ≡ c.session
    → (receive wire c).inbox ≡ c.inbox ++ (f ∷ [])
unfolding receive
receive_one c f wire fed own = rw fed (take_last _ f own)

module _ {W : Type 0} (port : Port W) where
  -- If the deadline is not over, the decoder is at the start of a frame, no frame of the inbox answers
  -- the request, and the port then gives the bytes of a frame of the awaited type with the number of
  -- the request and the session of the client, the wait returns this frame, and the inbox is as before.
  pub wait_response-arrived :
      (fuel msg_type seq deadline : ℕ) (c : ModemClient) (w : W) (f : Frame) (wire : List ℕ)
      → IsByteFrame f
      → encode_frame f ≡ ok wire
      → c.decoder ≡ fresh default_max
      → All (λ g. answers msg_type seq g ≡ false) c.inbox
      → f.msg_type ≡ msg_type
      → f.sequence ≡ seq
      → f.session ≡ c.session
      → (port.clock w).0 < deadline
      → (port.read 512 (port.clock w).1).0 ≡ wire
      → let ran = wait_response port (suc fuel) msg_type seq deadline c w in
        (ran.reply ≡ returned f) × (ran.client.inbox ≡ c.inbox)
  unfolding wait_response poll
  wait_response-arrived fuel msg_type seq deadline c w f wire h encoded clean silent typ number own
        early read =
      let fed : feed c.decoder wire ≡ (fresh default_max, f ∷ []) =
        rw clean (feed-encode_frame default_max f wire h (omega arith) encoded) in
      let inbox : (receive (port.read 512 (port.clock w).1).0 c).inbox ≡ c.inbox ++ (f ∷ []) =
        rw read (receive_one c f wire fed own) in
      let answer : scan msg_type seq (receive (port.read 512 (port.clock w).1).0 c).inbox
          ≡ found f c.inbox =
        rw inbox (scan_last msg_type seq c.inbox f silent typ number) in
      rw (wait_response, lt→ltb _ _ early, answer) (refl, refl)
