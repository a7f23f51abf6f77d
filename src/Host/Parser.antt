-- ===== src/Host/Parser.antt =====
-- `RtcmStreamParser` of host/mowgli_lora/rtcm.py. The counters are the fields of a record; the time
-- that a frame is received at is passed by the caller, in milliseconds.
pub mod Rounds
pub mod Accounting
mod Tests
use mowgli_lora_link.Prelude.{
  ℕ, zero, suc, ◌+◌, List, [], ◌∷◌, ◌++◌, length, get_or, take, drop, Bool, not, ◌==◌, ltb, leb,
  if◌then◌else◌, Option, none, some, Result, ok, err, out_of_fuel,
}
use mowgli_lora_link.Dict.{num_key, Dict, lookup, insert}
use mowgli_lora_link.Application.Rtcm.{valid_rtcm3, type_field, reserved_bits, payload_length}

abbrev pub max_rtcm3_payload : ℕ
max_rtcm3_payload = 1023

pub record RtcmFrame : Type 0 where
  pub raw : List ℕ
  pub message_type : ℕ
  pub received_at : ℕ

-- The keys of the counter `stats`.
pub record Stats : Type 0 where
  pub input_bytes : ℕ
  pub garbage_bytes : ℕ
  pub header_failures : ℕ
  pub length_failures : ℕ
  pub crc_failures : ℕ
  pub frames : ℕ
  pub frame_bytes : ℕ
  pub stream_resets : ℕ

pub record Parser : Type 0 where
  pub buffer : List ℕ
  pub stats : Stats
  pub message_types : Dict ℕ ℕ

unfoldable pub init : Parser
init = record {
  buffer = [];
  stats = record {
    input_bytes = 0;
    garbage_bytes = 0;
    header_failures = 0;
    length_failures = 0;
    crc_failures = 0;
    frames = 0;
    frame_bytes = 0;
    stream_resets = 0;
  };
  message_types = [];
}

pub reset : Parser → Parser
reset p = record p {
  buffer = [];
  stats = record p.stats { stream_resets = p.stats.stream_resets + 1 };
}

-- `self.message_types[typ] += 1`
count_type : ℕ → Dict ℕ ℕ → Dict ℕ ℕ
count_type typ d = elim (lookup typ d) [ none ↦ insert typ 1 d | some n ↦ insert typ (n + 1) d ]

shift : Option ℕ → Option ℕ
shift none = none
shift (some i) = some (i + 1)

-- `buffer.find(byte)`
find : ℕ → List ℕ → Option ℕ
unfolding shift
find byte [] = none
find byte (x ∷ xs) = if x == byte then some 0 else shift (find byte xs)

-- A round of the loop ends in `break`, or in the next round with the frames that it has appended.
pub data Round : Type 0 where
  halted : Parser → Round
  continued : Parser → List RtcmFrame → Round

-- `crc_failures`: the bytes of the candidate go back but for the first.
restore : Parser → List ℕ → List ℕ → Parser
restore p raw rest = record p {
  buffer = drop 1 raw ++ rest;
  stats = record p.stats { crc_failures = p.stats.crc_failures + 1 };
}

-- The last lines of the loop. `rtcm_type` returns here, since the frame is valid.
accept : ℕ → Parser → List ℕ → List ℕ → Round
unfolding count_type
accept now p raw rest =
    continued
      (record p {
        buffer = rest;
        stats = record p.stats {
          frames = p.stats.frames + 1;
          frame_bytes = p.stats.frame_bytes + length raw;
        };
        message_types = count_type (type_field raw) p.message_types;
      })
      (record { raw = raw; message_type = type_field raw; received_at = now } ∷ [])

-- The buffer starts with 0xD3.
candidate : ℕ → Parser → Round
unfolding restore accept
candidate now p =
    let length_field = payload_length p.buffer in
    let raw = take (length_field + 6) p.buffer in
    let rest = drop (length_field + 6) p.buffer in
    if ltb (length p.buffer) 3
    then halted p
    else if not (reserved_bits p.buffer == 0)
    then continued
        (record p {
          buffer = drop 1 p.buffer;
          stats = record p.stats { header_failures = p.stats.header_failures + 1 };
        })
        []
    else if ltb max_rtcm3_payload length_field
    then continued
        (record p {
          buffer = drop 1 p.buffer;
          stats = record p.stats { length_failures = p.stats.length_failures + 1 };
        })
        []
    else if ltb (length p.buffer) (length_field + 6)
    then halted p
    else if not (valid_rtcm3 raw)
    then continued (restore p raw rest) []
    else accept now p raw rest

skip_garbage : Parser → ℕ → Parser
skip_garbage p start = record p {
  buffer = drop start p.buffer;
  stats = record p.stats { garbage_bytes = p.stats.garbage_bytes + start };
}

pub round : ℕ → Parser → Round
unfolding find candidate skip_garbage
round now p = elim (find 0xD3 p.buffer) [
  | none ↦ halted (skip_garbage p (length p.buffer))
  | some start ↦ candidate now (skip_garbage p start)
]

-- `while self.buffer`; the fuel bounds the rounds.
loop : ℕ → ℕ → Parser → List RtcmFrame → Result (Parser × List RtcmFrame)
unfolding round
loop zero now p output = err out_of_fuel
loop (suc fuel) now p output = if length p.buffer == 0 then ok (p, output) else elim (round now p) [
  | halted p' ↦ ok (p', output)
  | continued p' frames ↦ loop fuel now p' (output ++ frames)
]

-- `feed`: a round that continues takes a byte at least, so that one round more than there are bytes
-- is enough.
unfoldable pub feed : Parser → List ℕ → ℕ → Result (Parser × List RtcmFrame)
unfolding loop
feed p chunk now =
    let buffer = p.buffer ++ chunk in
    loop (suc (length buffer)) now
      (record p {
        buffer = buffer;
        stats = record p.stats { input_bytes = p.stats.input_bytes + length chunk };
      })
      []
