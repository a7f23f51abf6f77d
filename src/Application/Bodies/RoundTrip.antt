-- ===== src/Application/Bodies/RoundTrip.antt =====
-- The decoder of each body after its encoder.
use mowgli_lora_link.Prelude.{
  ℕ, ◌≡◌, refl, ap, arith, List, [], ◌∷◌, ◌++◌, length, Bool, true, false, ◌&&◌, ok,
}
use mowgli_lora_link.Prelude.Int.{ℤ, pos, negsuc}
use mowgli_lora_link.Wire.{be32, signed32, bits32, in_i32}
use mowgli_lora_link.Wire.Laws.{be16_value, be32_value}
use mowgli_lora_link.Application.Bodies.{
  Hello, encode_hello, decode_hello, TelemetrySample, fits_telemetry, telemetry_bytes,
  encode_telemetry, decode_telemetry, StopRequestBody, encode_stop, decode_stop, CommandAckBody,
  encode_ack, decode_ack,
}

-- `decode_hello` gives back every HELLO that `encode_hello` accepts.
pub decode_hello-encode_hello :
    (h : Hello) (body : List ℕ) → encode_hello h ≡ ok body → decode_hello body ≡ ok h
unfolding encode_hello decode_hello
decode_hello-encode_hello h body e = ground arith

-- `decode_stop` gives back every request that `encode_stop` accepts.
pub decode_stop-encode_stop :
    (r : StopRequestBody) (body : List ℕ) → encode_stop r ≡ ok body → decode_stop body ≡ ok r
unfolding encode_stop decode_stop
decode_stop-encode_stop r body e = ground arith

encode_ack_lem :
    (a : CommandAckBody) (body : List ℕ)
    → encode_ack a ≡ ok body
    → body ≡ be32 a.request_session ++ (be32 a.request_id ++ (a.result ∷ a.state ∷ []))
unfolding encode_ack
encode_ack_lem a body e = ground arith

decode_ack_bytes :
    (a : CommandAckBody) (body : List ℕ)
    → encode_ack a ≡ ok body
    → decode_ack (be32 a.request_session ++ (be32 a.request_id ++ (a.result ∷ a.state ∷ []))) ≡ ok a
unfolding decode_ack
decode_ack_bytes a body e = rw (be32_value a.request_session, be32_value a.request_id, e)

-- `decode_ack` gives back every acknowledgement that `encode_ack` accepts.
pub decode_ack-encode_ack :
    (a : CommandAckBody) (body : List ℕ) → encode_ack a ≡ ok body → decode_ack body ≡ ok a
decode_ack-encode_ack a body e = rw (encode_ack_lem a body e) (decode_ack_bytes a body e)

signed32-bits : (z : ℤ) → in_i32 z ≡ true → signed32 (bits32 z) ≡ z
signed32-bits (pos n) h = ground arith
signed32-bits (negsuc n) h = ground arith

decode_telemetry_bytes :
    (s : TelemetrySample)
    → in_i32 s.latitude_e7 ≡ true
    → in_i32 s.longitude_e7 ≡ true
    → decode_telemetry (telemetry_bytes s) ≡ ok s
unfolding telemetry_bytes decode_telemetry
decode_telemetry_bytes s h k = rw (
  be32_value s.uptime_ms,
  be32_value (bits32 s.latitude_e7),
  be32_value (bits32 s.longitude_e7),
  be16_value s.speed_mm_s,
  be16_value s.battery_mv,
  be16_value s.last_rtcm_transport_age_ms,
  be16_value s.status_flags,
  signed32-bits s.latitude_e7 h,
  signed32-bits s.longitude_e7 k,
)

encode_telemetry_lem :
    (s : TelemetrySample) (body : List ℕ)
    → encode_telemetry s ≡ ok body
    → (body ≡ telemetry_bytes s) × (fits_telemetry s ≡ true)
unfolding encode_telemetry
encode_telemetry_lem s body e = ground arith

&&-true : (a b : Bool) → (a && b) ≡ true → (a ≡ true) × (b ≡ true)
&&-true true b h = (refl, h)
&&-true false b h = cc

fits_positions :
    (s : TelemetrySample)
    → fits_telemetry s ≡ true
    → (in_i32 s.latitude_e7 ≡ true) × (in_i32 s.longitude_e7 ≡ true)
unfolding fits_telemetry
fits_positions s h =
    let (_, rest) = &&-true _ _ h in
    let (latitude, rest') = &&-true _ _ rest in (latitude, (&&-true _ _ rest').0)

-- `decode_telemetry` gives back every sample that `encode_telemetry` accepts, also one with a negative
-- latitude or longitude, and the body has 24 bytes.
pub decode_telemetry-encode_telemetry :
    (s : TelemetrySample) (body : List ℕ)
    → encode_telemetry s ≡ ok body
    → (decode_telemetry body ≡ ok s) × (length body ≡ 24)
unfolding telemetry_bytes
decode_telemetry-encode_telemetry s body e =
    let (written, fits) = encode_telemetry_lem s body e in
    let (latitude, longitude) = fits_positions s fits in
    (rw written (decode_telemetry_bytes s latitude longitude), ap length written)
