-- ===== src/Bench/Transport.antt =====
-- `SimulatedTransport` of tools/lora_usb/mixed_bench.py, `lora_airtime_s`, and how the loop of
-- `MixedRunner.run` sends an item over it. Times are microseconds, those of the source up to the rounding
-- of its floating-point numbers; the report's `rssi` and `snr` are constants and left out.
pub mod Clock
mod Tests
use mowgli_lora_link.Prelude.{
  ℕ, ◌+◌, ◌-◌, ◌*◌, ◌/◌, min, max, List, [], ◌∷◌, ◌++◌, length, Result, ok, ◌>>=◌,
}
use mowgli_lora_link.Application.Codec.{Frame, encode, decode}
use mowgli_lora_link.Bench.Scheduler.{WorkItem}

-- 128 microseconds a symbol, as at spreading factor 5 and a bandwidth of 250 kHz, and 26.25 symbols
-- before the payload. The firmware sets 500 kHz, where a symbol takes half as long.
pub lora_airtime : ℕ → ℕ
lora_airtime application_size =
    let radio_packet_bytes = application_size + 18 in
    let payload_term = (8 * radio_packet_bytes + 16 + 19) / 20 in 3360 + 640 * payload_term

pub record Transport : Type 0 where
  pub clock : ℕ
  pub estimated_airtime : ℕ
  pub transaction_times : List ℕ

abbrev pub init : Transport
init = record { clock = 0; estimated_airtime = 0; transaction_times = [] }

pub idle_until : ℕ → Transport → Transport
idle_until target t = record t { clock = max t.clock target }

pub transmit : Frame → Transport → Result (Transport × Frame)
unfolding lora_airtime
transmit frame t = do
  raw ← encode frame
  received ← decode raw
  let duration = lora_airtime (length raw) in
      ok (
        record t {
          estimated_airtime = t.estimated_airtime + duration;
          clock = t.clock + (duration + 1000);
          transaction_times = t.transaction_times ++ ((duration + 1000) ∷ []);
        },
        received,
      )

-- `replace(item.frame, source_age_ms=age_ms)`
pub with_age : ℕ → WorkItem → Frame
with_age now item = record item.frame {
  source_age_ms = min 0xFFFF ((now - item.created_at) / 1000);
}

-- The loop of `run` behind `pop`: what `_deliver` is called with.
pub send_item : WorkItem → Transport → Result (Transport × Frame)
unfolding with_age transmit
send_item item t = transmit (with_age t.clock item) t
