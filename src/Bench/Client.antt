-- ===== src/Bench/Client.antt =====
-- `ModemClient` of tools/lora_usb/client.py. Times are milliseconds. The serial port and the clock are
-- parameters; an exception of the port passes through every operation and is not modelled.
-- `last_completed` and `session_events`, which no operation uses, are left out.
pub mod Requests
pub mod Events
pub mod Accounting
use mowgli_lora_link.Prelude.{
  ℕ, zero, suc, ◌+◌, List, [], ◌∷◌, ◌++◌, length, Bool, true, false, not, ◌&&◌, ◌==◌, ltb,
  if◌then◌else◌, Option, none, some,
}
use mowgli_lora_link.Protocol.Frame.{Frame, encode_frame}
use mowgli_lora_link.Protocol.Stream.{StreamDecoder, fresh, default_max, feed}
use mowgli_lora_link.Host.Modem.{
  hello, info, radio_send, radio_tx_result, get_diagnostics, diagnostics, radio_rx, error,
}

abbrev pub get_link_status : ℕ
get_link_status = 0x03

abbrev pub link_status : ℕ
link_status = 0x83

pub record Counters : Type 0 where
  pub usb_bytes_read : ℕ
  pub frames_decoded : ℕ
  pub wrong_session : ℕ
  pub radio_rx_events : ℕ
  pub radio_rx_events_matched : ℕ
  pub responses : ℕ

pub record ModemClient : Type 0 where
  pub session : ℕ
  pub sequence : ℕ
  pub decoder : StreamDecoder
  pub inbox : List Frame
  pub info_payload : Option (List ℕ)
  pub counters : Counters

-- `__init__`; the session is a random one, and the zero byte that goes to the port is left out.
abbrev pub init : ℕ → ModemClient
init session = record {
  session = session;
  sequence = 0;
  decoder = fresh default_max;
  inbox = [];
  info_payload = none;
  counters = record {
    usb_bytes_read = 0;
    frames_decoded = 0;
    wrong_session = 0;
    radio_rx_events = 0;
    radio_rx_events_matched = 0;
    responses = 0;
  };
}

-- One round of the loop of `poll`.
pub take_frame : Frame → ModemClient → ModemClient
take_frame frame c =
    let n = c.counters in
    if not (frame.session == c.session)
    then record c {
      counters = record n {
        frames_decoded = n.frames_decoded + 1;
        wrong_session = n.wrong_session + 1;
      };
    }
    else (if frame.msg_type == radio_rx
        then record c {
          inbox = c.inbox ++ (frame ∷ []);
          counters = record n {
            frames_decoded = n.frames_decoded + 1;
            radio_rx_events = n.radio_rx_events + 1;
          };
        }
        else record c {
          inbox = c.inbox ++ (frame ∷ []);
          counters = record n {
            frames_decoded = n.frames_decoded + 1;
            responses = n.responses + 1;
          };
        })

pub take_frames : List Frame → ModemClient → ModemClient
take_frames [] c = c
take_frames (frame ∷ frames) c = take_frames frames (take_frame frame c)

-- `poll` behind the read from the port.
pub receive : List ℕ → ModemClient → ModemClient
receive bytes c =
    let (decoder, frames) = feed c.decoder bytes in
    take_frames frames (record c {
      decoder = decoder;
      counters = record c.counters { usb_bytes_read = c.counters.usb_bytes_read + length bytes };
    })

-- The first frame that passes the test, and the list without it.
pub pop_match : (Frame → Bool) → List Frame → Option (Frame × List Frame)
pop_match test [] = none
pop_match test (frame ∷ frames) =
    let rest = pop_match test frames in
    if test frame
    then some (frame, frames)
    else elim rest [ none ↦ none | some r ↦ some (r.0, frame ∷ r.1) ]

-- `f.msg_type == RADIO_RX`
abbrev pub is_radio : Frame → Bool
is_radio frame = frame.msg_type == radio_rx

-- The two list comprehensions of `events`.
pub select : (Frame → Bool) → List Frame → List Frame
select test [] = []
select test (frame ∷ frames) =
    let rest = select test frames in if test frame then frame ∷ rest else rest

-- How the loop of `take_radio_event` ends.
pub take_popped : ModemClient → Option (Frame × List Frame) → ModemClient × Option Frame
take_popped c none = (c, none)
take_popped c (some (frame, left)) = (
  record c {
    inbox = left;
    counters = record c.counters {
      radio_rx_events_matched = c.counters.radio_rx_events_matched + 1;
    };
  },
  some frame,
)

-- What the serial port, `time.monotonic` and `time.sleep` do.
pub record Port (W : Type 0) : Type 0 where
  pub clock : W → ℕ × W
  pub read : ℕ → W → List ℕ × W
  pub write : List ℕ → W → W
  pub sleep : ℕ → W → W

module _ {W : Type 0} (port : Port W) where
  pub poll : ModemClient → W → ModemClient × W
  unfolding receive
  poll c w = let (bytes, w') = port.read 512 w in (receive bytes c, w')

  pub events : ModemClient → W → ModemClient × W × List Frame
  events c w =
      let (polled, w') = poll c w in
      (
        record polled { inbox = select (λ f. not (is_radio f)) polled.inbox },
        w',
        select is_radio polled.inbox,
      )

  pub take_radio_event : (Frame → Bool) → ModemClient → W → ModemClient × W × Option Frame
  unfolding take_popped
  take_radio_event predicate c w =
      let (polled, w') = poll c w in
      let (c', taken) =
        take_popped polled (pop_match (λ f. is_radio f && predicate f) polled.inbox) in
      (c', w', taken)
