-- ===== src/Application/Bodies.antt =====
-- The message bodies of tools/lora_usb/application.py: HELLO, TELEMETRY, STOP_REQUEST and
-- COMMAND_ACK. The latitude and the longitude are signed; the other integers are not negative.
pub mod RoundTrip
mod Tests
use mowgli_lora_link.Prelude.{
  ℕ, ◌+◌, ◌-◌, List, [], ◌∷◌, ◌++◌, length, get_or, Bool, not, ◌&&◌, ◌||◌, ◌==◌, ltb, leb, Result,
  ok, err, application_error, struct_error, raise_if, ◌>>=◌, ◌>>◌,
}
use mowgli_lora_link.Prelude.Int.{ℤ, pos, negsuc}
use mowgli_lora_link.Wire.{be16, be32, u16_at, u32_at, signed32, bits32, in_i32}

abbrev pub role_base : ℕ
role_base = 1

abbrev pub role_robot : ℕ
role_robot = 2

pub record Hello : Type 0 where
  pub role : ℕ
  pub capabilities : ℕ

-- `role in (ROLE_BASE, ROLE_ROBOT)`
abbrev pub known_role : ℕ → Bool
known_role role = role == role_base || role == role_robot

pub encode_hello : Hello → Result (List ℕ)
encode_hello h = do
  raise_if (not (known_role h.role) || not (leb h.capabilities 0xFFFF))
      (application_error "HELLO fields")
  ok (h.role ∷ be16 h.capabilities)

pub decode_hello : List ℕ → Result Hello
decode_hello body = do
  raise_if (not (length body == 3)) (application_error "HELLO body")
  let role = get_or body 0 0
  raise_if (not (known_role role)) (application_error "HELLO role")
  ok (record { role = role; capabilities = u16_at body 1 })

pub record TelemetrySample : Type 0 where
  pub uptime_ms : ℕ
  pub latitude_e7 : ℤ
  pub longitude_e7 : ℤ
  pub speed_mm_s : ℕ
  pub battery_mv : ℕ
  pub last_rtcm_transport_age_ms : ℕ
  pub status_flags : ℕ
  pub fix_type : ℕ
  pub satellites : ℕ

-- The fields are in range for `>IiiHHHHBBH`.
pub fits_telemetry : TelemetrySample → Bool
fits_telemetry s =
    leb s.uptime_ms 0xFFFFFFFF
    && (in_i32 s.latitude_e7
        && (in_i32 s.longitude_e7
            && (leb s.speed_mm_s 0xFFFF
                && (leb s.battery_mv 0xFFFF
                    && (leb s.last_rtcm_transport_age_ms 0xFFFF
                        && (leb s.status_flags 0xFFFF
                            && (leb s.fix_type 0xFF && leb s.satellites 0xFF)))))))

pub telemetry_bytes : TelemetrySample → List ℕ
telemetry_bytes s =
    be32 s.uptime_ms
    ++ (be32 (bits32 s.latitude_e7)
        ++ (be32 (bits32 s.longitude_e7)
            ++ (be16 s.speed_mm_s
                ++ (be16 s.battery_mv
                    ++ (be16 s.last_rtcm_transport_age_ms
                        ++ (be16 s.status_flags ++ (s.fix_type ∷ s.satellites ∷ be16 0)))))))

pack_telemetry : TelemetrySample → Result (List ℕ)
pack_telemetry s = do raise_if (not (fits_telemetry s)) struct_error; ok (telemetry_bytes s)

-- `except struct.error as exc: raise ApplicationError(…) from exc`
range_error : Result (List ℕ) → Result (List ℕ)
range_error (ok bytes) = ok bytes
range_error (err e) = err (application_error "telemetry field range")

pub encode_telemetry : TelemetrySample → Result (List ℕ)
unfolding pack_telemetry range_error
encode_telemetry s = range_error (pack_telemetry s)

pub decode_telemetry : List ℕ → Result TelemetrySample
decode_telemetry body = do
  raise_if (not (length body == 24)) (application_error "telemetry body")
  raise_if (not (u16_at body 22 == 0)) (application_error "telemetry reserved field")
  ok (record {
    uptime_ms = u32_at body 0;
    latitude_e7 = signed32 (u32_at body 4);
    longitude_e7 = signed32 (u32_at body 8);
    speed_mm_s = u16_at body 12;
    battery_mv = u16_at body 14;
    last_rtcm_transport_age_ms = u16_at body 16;
    status_flags = u16_at body 18;
    fix_type = get_or body 20 0;
    satellites = get_or body 21 0;
  })

pub record StopRequestBody : Type 0 where
  pub target_session : ℕ
  pub command : ℕ
  pub reason : ℕ

pub encode_stop : StopRequestBody → Result (List ℕ)
encode_stop r = do
  raise_if (not (ltb 0 r.target_session && leb r.target_session 0xFFFFFFFF))
      (application_error "STOP target session")
  raise_if (not (leb r.command 0xFF) || not (leb r.reason 0xFF)) (application_error "STOP fields")
  ok (be32 r.target_session ++ (r.command ∷ r.reason ∷ []))

unfoldable pub decode_stop : List ℕ → Result StopRequestBody
decode_stop body = do
  raise_if (not (length body == 6)) (application_error "STOP body")
  ok (record {
    target_session = u32_at body 0;
    command = get_or body 4 0;
    reason = get_or body 5 0;
  })

pub record CommandAckBody : Type 0 where
  pub request_session : ℕ
  pub request_id : ℕ
  pub result : ℕ
  pub state : ℕ

-- `ack.result not in range(ACK_APPLIED, ACK_STALE_ID + 1)` and `ack.state not in (STATE_UNKNOWN,
-- STATE_RUNNING, STATE_STOPPED)`
pub encode_ack : CommandAckBody → Result (List ℕ)
encode_ack a = do
  raise_if
      (not (ltb 0 a.request_session && leb a.request_session 0xFFFFFFFF)
        || not (ltb 0 a.request_id && leb a.request_id 0xFFFFFFFF))
      (application_error "ACK identity")
  raise_if (not (ltb a.result 7)) (application_error "ACK result")
  raise_if (not (a.state == 0 || (a.state == 1 || a.state == 2))) (application_error "ACK state")
  ok (be32 a.request_session ++ (be32 a.request_id ++ (a.result ∷ a.state ∷ [])))

-- The body is decoded, and `encode_ack` is called for its tests.
pub decode_ack : List ℕ → Result CommandAckBody
decode_ack body = do
  raise_if (not (length body == 10)) (application_error "ACK body")
  let ack : CommandAckBody = record {
    request_session = u32_at body 0;
    request_id = u32_at body 4;
    result = get_or body 8 0;
    state = get_or body 9 0;
  }
  _ ← encode_ack ack
  ok ack
