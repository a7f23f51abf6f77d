-- ===== src/Protocol/Payloads/Layouts.antt =====
-- The layouts of docs/lora/USB_MODEM_PROTOCOL.md, as the modem writes them, and the parsers.
use mowgli_lora_link.Prelude.{
  ℕ, ◌+◌, ◌-◌, ◌<◌, ◌≡◌, arith, List, [], ◌∷◌, ◌++◌, length, ok, ltb, false,
}
use mowgli_lora_link.Prelude.Int.{ℤ, pos, negsuc}
use mowgli_lora_link.Wire.{be16, be32, signed16}
use mowgli_lora_link.Wire.Laws.{be16_value, be32_value}
use mowgli_lora_link.Protocol.Payloads.{
  Info, parse_info, TxResult, parse_tx_result, RadioRx, parse_radio_rx, ErrorReport, parse_error,
}

-- An i16 as the modem writes it.
abbrev pub bits16 : ℤ → ℕ
bits16 (pos n) = n
bits16 (negsuc n) = 0xFFFF - n

abbrev pub IsI16 : ℤ → Type 0
IsI16 (pos n) = n < 0x8000
IsI16 (negsuc n) = n < 0x8000

signed16-bits : (z : ℤ) → IsI16 z → signed16 (bits16 z) ≡ z
signed16-bits (pos n) h = ground arith
signed16-bits (negsuc n) h = ground arith

abbrev pub tx_result_layout : TxResult → List ℕ
tx_result_layout r = be32 r.boot_id ++ (be32 r.air_sequence ++ be32 r.tx_duration_us)

abbrev pub radio_rx_layout : RadioRx → List ℕ
radio_rx_layout r =
    be32 r.sender
    ++ (be32 r.air
        ++ (be16 (bits16 r.rssi_hundredths)
            ++ (be16 (bits16 r.snr_hundredths) ++ (be32 r.uptime ++ r.payload))))

abbrev pub error_layout : ErrorReport → List ℕ
error_layout e = be16 e.code ++ (be16 (bits16 e.driver_detail) ++ (e.rejected_type ∷ []))

abbrev pub info_layout : Info → List ℕ
info_layout i =
    i.device_id
    ++ (be32 i.boot_id
        ++ (be32 i.capabilities
            ++ (be16 i.max_air_payload ++ (i.radio_ready ∷ i.profile_id ∷ be32 i.uptime_ms))))

tx_result_parsed : (r : TxResult) → parse_tx_result (tx_result_layout r) ≡ ok r
unfolding parse_tx_result
tx_result_parsed r =
    rw (be32_value r.boot_id, be32_value r.air_sequence, be32_value r.tx_duration_us)

-- A RADIO_RX event laid out as the modem's protocol document says is parsed to the event: both signed
-- fields keep their sign, and the opaque payload is whole.
pub parse_radio_rx-layout :
    (r : RadioRx)
    → IsI16 r.rssi_hundredths
    → IsI16 r.snr_hundredths
    → parse_radio_rx (radio_rx_layout r) ≡ ok r
unfolding parse_radio_rx
parse_radio_rx-layout r h k =
    let long : ltb (16 + length r.payload) 16 ≡ false = ground arith in
    let long' : ltb (length (radio_rx_layout r)) 16 ≡ false = ground arith in
    rw (
      long',
      be32_value r.sender,
      be32_value r.air,
      be32_value r.uptime,
      be16_value (bits16 r.rssi_hundredths),
      be16_value (bits16 r.snr_hundredths),
      signed16-bits r.rssi_hundredths h,
      signed16-bits r.snr_hundredths k,
    )

-- An ERROR payload laid out as the modem's protocol document says is parsed to the report.
pub parse_error-layout :
    (e : ErrorReport) → IsI16 e.driver_detail → parse_error (error_layout e) ≡ ok e
unfolding parse_error
parse_error-layout e h =
    rw (be16_value e.code, be16_value (bits16 e.driver_detail), signed16-bits e.driver_detail h)

info_parsed :
    (a b c d e f boot capabilities air ready profile uptime : ℕ)
    → let i : Info = record {
      device_id = a ∷ b ∷ c ∷ d ∷ e ∷ f ∷ [];
      boot_id = boot;
      capabilities = capabilities;
      max_air_payload = air;
      radio_ready = ready;
      profile_id = profile;
      uptime_ms = uptime;
    } in
      parse_info (info_layout i) ≡ ok i
unfolding parse_info
info_parsed a b c d e f boot capabilities air ready profile uptime =
    rw (be32_value boot, be32_value capabilities, be32_value uptime, be16_value air)

info_of_device :
    (i : Info) (d : List ℕ)
    → length d ≡ 6
    → parse_info (info_layout (record i { device_id = d })) ≡ ok (record i { device_id = d })
info_of_device i (a ∷ b ∷ c ∷ d ∷ e ∷ f ∷ []) six =
    info_parsed a b c d e f i.boot_id i.capabilities i.max_air_payload i.radio_ready i.profile_id
      i.uptime_ms
info_of_device i _ six = absurd (omega arith)

-- An INFO payload laid out as the modem's protocol document says is parsed to its fields.
pub parse_info-layout : (i : Info) → length i.device_id ≡ 6 → parse_info (info_layout i) ≡ ok i
parse_info-layout i six = info_of_device i i.device_id six
