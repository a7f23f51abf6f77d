-- ===== src/Host/Recording/Tests.antt =====
-- Concrete recordings.
use mowgli_lora_link.Prelude.{ℕ, ◌+◌, ◌≡◌, refl, arith, List, [], ◌∷◌, ◌++◌, take, none, some, ok}
use mowgli_lora_link.Host.Parser.{RtcmFrame, init}
use mowgli_lora_link.Host.Recording.Files.{entry, entries, cut_error, length-entry, records-entries}
use mowgli_lora_link.Host.Recording.Streams.{frames_of, stamped, records-record_stream}
use mowgli_lora_link.Host.Recording.Replays.{
  written, slept, surviving, first_time, last_time, set_back, replay_lem,
}
use mowgli_lora_link.Host.Recording.{
  magic, Record, records, record_stream, replay, starts_with_magic, read_records,
}

-- The frame with an empty body, behind a byte of noise.
abbrev noisy : List (List ℕ × ℕ)
noisy = (9 ∷ 0xD3 ∷ 0 ∷ [], 1) ∷ (0 ∷ 0x47 ∷ 0xEA ∷ 0x4B ∷ [], 2) ∷ []

records-record_stream_example :
    (frames : List RtcmFrame) × (bytes : List ℕ) × (frames_of init noisy ≡ ok frames)
    × (record_stream (λ n. 7) noisy ≡ ok bytes)
    × (records bytes ≡ record { given = stamped (λ n. 7) 0 frames; ended = none })
records-record_stream_example = records-record_stream (λ n. 7) noisy (λ n. omega arith)

abbrev early : Record
early = record { timestamp_ns = 5; raw = 1 ∷ 2 ∷ [] }

abbrev late : Record
late = record { timestamp_ns = 9; raw = 3 ∷ [] }

records-entries_example :
    (records (magic ++ entries (early ∷ [])) ≡ record { given = early ∷ []; ended = none })
    × (records (magic ++ (entries (early ∷ []) ++ take 10 (entry late)))
        ≡ record { given = early ∷ []; ended = some (cut_error 10) })
records-entries_example =
    records-entries (early ∷ []) late 10 (omega arith) (omega (arith, length-entry late))

abbrev file : List ℕ
file =
    magic
    ++ (0 ∷ 0 ∷ 0 ∷ 0 ∷ 0 ∷ 0 ∷ 0 ∷ 5 ∷ 0 ∷ 1 ∷ 8 ∷ 0 ∷ 0 ∷ 0 ∷ 0 ∷ 0 ∷ 0 ∷ 0 ∷ 9 ∷ 0 ∷ 1 ∷ 3 ∷ [])

abbrev first : Record
first = record { timestamp_ns = 5; raw = 8 ∷ [] }

file-records : (records file).given ≡ first ∷ late ∷ []
unfolding records starts_with_magic read_records
file-records = refl

-- The second record is dropped.
replay_lem_example :
    let (actions, ended) = replay 2 file in
    let given = (records file).given in
    (written actions ≡ surviving 2 1 given)
    × (first_time given + slept actions
        ≡ last_time (first_time given) given + set_back (first_time given) given)
    × (ended ≡ (records file).ended)
replay_lem_example = replay_lem 2 file
