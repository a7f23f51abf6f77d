-- ===== src/Host/Recording.antt =====
-- The recordings of host/mowgli_lora/rtcm_tool.py: `_records`, `main_record` and `main_replay`, behind
-- their command lines. A file is its bytes. An exception of `_records` comes behind the records that
-- it has given before.
pub mod Files
pub mod Streams
pub mod Replays
mod Tests
use mowgli_lora_link.Prelude.{
  ℕ, zero, suc, ◌+◌, ◌-◌, ◌*◌, ◌/◌, ◌%◌, List, [], ◌∷◌, ◌++◌, length, take, drop, Bool, true, false,
  not, ◌&&◌, ◌||◌, ◌==◌, ltb, if◌then◌else◌, Option, none, some, Error, Result, ok, err,
  struct_error, value_error, out_of_fuel, raise_if, ◌>>=◌, ◌>>◌,
}
use mowgli_lora_link.Wire.{be16, be32, u16_at, u32_at}
use mowgli_lora_link.Host.Parser.{RtcmFrame, Parser, init, feed}

abbrev pub magic : List ℕ
magic = b'M' ∷ b'L' ∷ b'R' ∷ b'1' ∷ []

-- `source.read(4) != MAGIC`, negated.
pub starts_with_magic : List ℕ → Bool
starts_with_magic (a ∷ b ∷ c ∷ d ∷ bytes) = a == b'M' && (b == b'L' && (c == b'R' && d == b'1'))
starts_with_magic bytes = false

pub record Record : Type 0 where
  pub timestamp_ns : ℕ
  pub raw : List ℕ

-- The records that are given, and the exception that ends them, if one does.
pub record Listing : Type 0 where
  pub given : List Record
  pub ended : Option Error

abbrev pub ends_with : Option Error → Listing
ends_with ended = record { given = []; ended = ended }

-- `struct.unpack(">QH", header)`
abbrev pub timestamp_of : List ℕ → ℕ
timestamp_of header = u32_at header 0 * 4294967296 + u32_at header 4

-- The loop of `_records`.
pub read_records : ℕ → List ℕ → Listing
read_records zero bytes = ends_with (some out_of_fuel)
read_records (suc fuel) bytes =
    let header = take 10 bytes in
    let size = u16_at header 8 in
    let raw = take size (drop 10 bytes) in
    let rest = read_records fuel (drop size (drop 10 bytes)) in
    if length header == 0
    then ends_with none
    else (if not (length header == 10)
        then ends_with (some (value_error "truncated recording header"))
        else (if not (length raw == size)
            then ends_with (some (value_error "truncated recording frame"))
            else record rest {
              given = record { timestamp_ns = timestamp_of header; raw = raw } ∷ rest.given;
            }))

-- `_records`
pub records : List ℕ → Listing
unfolding starts_with_magic read_records
records bytes =
    if not (starts_with_magic bytes)
    then ends_with (some (value_error "not a Mowgli LoRa RTCM recording"))
    else read_records (suc (length bytes)) (drop 4 bytes)

abbrev pub be64 : ℕ → List ℕ
be64 n = be32 (n / 4294967296) ++ be32 (n % 4294967296)

-- `struct.pack(">QH", …) + frame.raw`
pub pack : Record → Result (List ℕ)
pack r = do
  raise_if (not (ltb r.timestamp_ns 18446744073709551616) || not (ltb (length r.raw) 65536))
      struct_error
  ok (be64 r.timestamp_ns ++ (be16 (length r.raw) ++ r.raw))

-- The writes for the frames of a chunk, whose times are the readings of the clock from `n` on.
pub write_frames : (ℕ → ℕ) → ℕ → List RtcmFrame → Result (List ℕ)
unfolding pack
write_frames clock n [] = ok []
write_frames clock n (frame ∷ frames) = do
  entry ← pack (record { timestamp_ns = clock n; raw = frame.raw })
  rest ← write_frames clock (n + 1) frames
  ok (entry ++ rest)

-- The loop of `main_record` over the chunks, each with the time that `feed` reads.
pub record_chunks : (ℕ → ℕ) → ℕ → Parser → List (List ℕ × ℕ) → Result (List ℕ)
unfolding write_frames
record_chunks clock n p [] = ok []
record_chunks clock n p ((chunk, now) ∷ chunks) = do
  fed ← feed p chunk now
  written ← write_frames clock n fed.1
  rest ← record_chunks clock (n + length fed.1) fed.0 chunks
  ok (written ++ rest)

-- `main_record`
pub record_stream : (ℕ → ℕ) → List (List ℕ × ℕ) → Result (List ℕ)
unfolding record_chunks
record_stream clock chunks = do written ← record_chunks clock 0 init chunks; ok (magic ++ written)

-- What `main_replay` does: a sleep, in nanoseconds before the division by the speed, and a write.
pub data Action : Type 0 where
  pause : ℕ → Action
  emit : List ℕ → Action

pub emission : ℕ → ℕ → Record → List Action
emission drop_every index r =
    if drop_every == 0 || not (index % drop_every == 0) then emit r.raw ∷ [] else []

-- The loop of `main_replay`.
pub replay_loop : ℕ → ℕ → Option ℕ → List Record → List Action
unfolding emission
replay_loop drop_every index previous [] = []
replay_loop drop_every index none (r ∷ rs) =
    emission drop_every index r ++ replay_loop drop_every (suc index) (some r.timestamp_ns) rs
replay_loop drop_every index (some previous) (r ∷ rs) =
    pause (r.timestamp_ns - previous)
    ∷ (emission drop_every index r ++ replay_loop drop_every (suc index) (some r.timestamp_ns) rs)

-- `main_replay`: an exception of `_records` comes after these actions.
pub replay : ℕ → List ℕ → List Action × Option Error
unfolding replay_loop records
replay drop_every bytes =
    let listing = records bytes in (replay_loop drop_every 1 none listing.given, listing.ended)
