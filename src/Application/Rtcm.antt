-- ===== src/Application/Rtcm.antt =====
-- `valid_rtcm3`, `rtcm_type` and `fragment` of tools/lora_usb/application.py.
pub mod Validity
pub mod Fragments
mod Tests
use mowgli_lora_link.Prelude.{
  ℕ, zero, suc, ◌+◌, ◌-◌, ◌*◌, ◌/◌, ◌%◌, List, [], ◌∷◌, ◌++◌, length, get_or, take, drop, drop_last,
  Bool, true, false, not, ◌&&◌, ◌||◌, ◌==◌, ltb, leb, if◌then◌else◌, Result, ok, err,
  application_error, raise_if, ◌>>=◌, ◌>>◌,
}
use mowgli_lora_link.Crc.{crc24q}
use mowgli_lora_link.Wire.{be16, u16_at, u24_at}
use mowgli_lora_link.Application.Codec.{Frame}

abbrev pub rtcm_fragment : ℕ
rtcm_fragment = 0x30

abbrev pub fragment_data_size : ℕ
fragment_data_size = 174

abbrev pub max_rtcm_frame_size : ℕ
max_rtcm_frame_size = 1029

abbrev pub max_rtcm_fragments : ℕ
max_rtcm_fragments = 6

-- `raw[1] & 0xFC`, and `((raw[1] & 0x03) << 8) | raw[2]` of two bytes.
abbrev pub reserved_bits : List ℕ → ℕ
reserved_bits raw = get_or raw 1 0 / 4 % 64

abbrev pub payload_length : List ℕ → ℕ
payload_length raw = get_or raw 1 0 % 4 * 256 + get_or raw 2 0

unfoldable pub valid_rtcm3 : List ℕ → Bool
valid_rtcm3 raw =
    if ltb (length raw) 6 || (not (get_or raw 0 0 == 0xD3) || not (reserved_bits raw == 0))
    then false
    else length raw == payload_length raw + 6
      && crc24q (drop_last 3 raw) == u24_at raw (length raw - 3)

-- The value that `rtcm_type` returns on a valid frame.
abbrev pub type_field : List ℕ → ℕ
type_field raw = u16_at raw 3 / 16

pub rtcm_type : List ℕ → Result ℕ
rtcm_type raw = do
  raise_if (not (valid_rtcm3 raw)) (application_error "invalid RTCM3 frame")
  ok (type_field raw)

-- `raw[index * SIZE : (index + 1) * SIZE]`
abbrev pub fragment_data : List ℕ → ℕ → List ℕ
fragment_data raw index = take fragment_data_size (drop (index * fragment_data_size) raw)

-- The body of a fragment; `struct.pack(">HHBB", …)` stands in front of the data.
pub fragment_body : ℕ → List ℕ → ℕ → ℕ → List ℕ
fragment_body typ raw index count =
    be16 typ ++ (be16 (length raw) ++ (index ∷ count ∷ fragment_data raw index))

-- The loop over `range(count)`, from `index` on, for the rounds that are left.
pub fragments : ℕ → ℕ → ℕ → List ℕ → (List ℕ → Frame) → Result (List Frame)
unfolding fragment_body
fragments zero index count raw make = ok []
fragments (suc rounds) index count raw make = do
  typ ← rtcm_type raw
  rest ← fragments rounds (index + 1) count raw make
  ok (make (fragment_body typ raw index count) ∷ rest)

-- `(len(raw) + SIZE - 1) // SIZE`
abbrev pub fragment_count : ℕ → ℕ
fragment_count size = (size + 173) / fragment_data_size

pub fragment : List ℕ → ℕ → ℕ → ℕ → Result (List Frame)
unfolding fragments
fragment raw sender_session message_id age_ms = do
  raise_if (not (valid_rtcm3 raw) || ltb max_rtcm_frame_size (length raw))
      (application_error "RTCM frame")
  let count = fragment_count (length raw)
  raise_if (ltb max_rtcm_fragments count) (application_error "too many RTCM fragments")
  fragments count 0 count raw (λ body. record {
    typ = rtcm_fragment;
    sender_session = sender_session;
    message_id = message_id;
    source_age_ms = age_ms;
    body = body;
  })
