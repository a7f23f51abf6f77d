-- ===== src/Protocol/Payloads.antt =====
-- The payload parsers of tools/lora_usb/protocol.py. A field that the source divides by 100 (the RSSI
-- and the SNR of a received packet) is kept in hundredths.
pub mod Layouts
use mowgli_lora_link.Prelude.{
  ℕ, suc, ◌+◌, List, [], ◌∷◌, ◌++◌, length, get_or, take, drop, not, ◌==◌, ltb, Result, ok, err,
  protocol_error, raise_if, ◌>>=◌, ◌>>◌,
}
use mowgli_lora_link.Prelude.Int.{ℤ}
use mowgli_lora_link.Wire.{u16_at, u32_at, signed16}

pub record Info : Type 0 where
  pub device_id : List ℕ
  pub boot_id : ℕ
  pub capabilities : ℕ
  pub max_air_payload : ℕ
  pub radio_ready : ℕ
  pub profile_id : ℕ
  pub uptime_ms : ℕ

-- `>6sI I H B B I`
pub parse_info : List ℕ → Result Info
parse_info p = do
  raise_if (not (length p == 22)) (protocol_error "bad INFO payload")
  ok (record {
    device_id = take 6 p;
    boot_id = u32_at p 6;
    capabilities = u32_at p 10;
    max_air_payload = u16_at p 14;
    radio_ready = get_or p 16 0;
    profile_id = get_or p 17 0;
    uptime_ms = u32_at p 18;
  })

pub record TxResult : Type 0 where
  pub boot_id : ℕ
  pub air_sequence : ℕ
  pub tx_duration_us : ℕ

-- `>III`
pub parse_tx_result : List ℕ → Result TxResult
parse_tx_result p = do
  raise_if (not (length p == 12)) (protocol_error "bad TX_RESULT payload")
  ok (record { boot_id = u32_at p 0; air_sequence = u32_at p 4; tx_duration_us = u32_at p 8 })

pub record RadioRx : Type 0 where
  pub sender : ℕ
  pub air : ℕ
  pub rssi_hundredths : ℤ
  pub snr_hundredths : ℤ
  pub uptime : ℕ
  pub payload : List ℕ

-- `>IIhhI`, and the rest
pub parse_radio_rx : List ℕ → Result RadioRx
parse_radio_rx p = do
  raise_if (ltb (length p) 16) (protocol_error "bad RADIO_RX payload")
  ok (record {
    sender = u32_at p 0;
    air = u32_at p 4;
    rssi_hundredths = signed16 (u16_at p 8);
    snr_hundredths = signed16 (u16_at p 10);
    uptime = u32_at p 12;
    payload = drop 16 p;
  })

pub record LinkStatus : Type 0 where
  pub boot : ℕ
  pub uptime : ℕ
  pub state : ℕ
  pub counters : List ℕ

-- The n fields `I` that start at index i.
u32s_at : ℕ → List ℕ → ℕ → List ℕ
u32s_at ℕ.zero p i = []
u32s_at (suc n) p i = u32_at p i ∷ u32s_at n p (i + 4)

-- `>IIB`, three bytes that are skipped, and `>IIIIII`
pub parse_link_status : List ℕ → Result LinkStatus
unfolding u32s_at
parse_link_status p = do
  raise_if (not (length p == 36)) (protocol_error "bad LINK_STATUS payload")
  ok (record {
    boot = u32_at p 0;
    uptime = u32_at p 4;
    state = get_or p 8 0;
    counters = u32s_at 6 p 12;
  })

-- `>IIIIIIIIII`
pub parse_diagnostics : List ℕ → Result (List ℕ)
unfolding u32s_at
parse_diagnostics p = do
  raise_if (not (length p == 40)) (protocol_error "bad DIAGNOSTICS payload")
  ok (u32s_at 10 p 0)

pub record ErrorReport : Type 0 where
  pub code : ℕ
  pub driver_detail : ℤ
  pub rejected_type : ℕ

-- `>HhB`
pub parse_error : List ℕ → Result ErrorReport
parse_error p = do
  raise_if (not (length p == 5)) (protocol_error "bad ERROR payload")
  ok (record {
    code = u16_at p 0;
    driver_detail = signed16 (u16_at p 2);
    rejected_type = get_or p 4 0;
  })
