-- ===== src/Host/Recording/Streams.antt =====
-- A recording holds what the parser has found in the stream.
use mowgli_lora_link.Prelude.{
  ℕ, ◌+◌, ◌<◌, ◌≡◌, refl, arith, List, [], ◌∷◌, ◌++◌, length, All, none, Result, ok, ◌>>=◌,
}
use mowgli_lora_link.Host.Parser.{RtcmFrame, Parser, init, feed}
use mowgli_lora_link.Host.Parser.Rounds.{Good}
use mowgli_lora_link.Host.Parser.Accounting.{Accounted, feed-Fed}
use mowgli_lora_link.Host.Recording.Files.{Fits, entries, entries-append, pack-ok, records-whole}
use mowgli_lora_link.Host.Recording.{
  magic, Record, records, write_frames, record_chunks, record_stream,
}

-- The frames that the parser finds in the chunks.
pub frames_of : Parser → List (List ℕ × ℕ) → Result (List RtcmFrame)
frames_of p [] = ok []
frames_of p ((chunk, now) ∷ chunks) = do
  fed ← feed p chunk now
  rest ← frames_of fed.0 chunks
  ok (fed.1 ++ rest)

-- Each frame with the reading of the clock at its turn.
pub stamped : (ℕ → ℕ) → ℕ → List RtcmFrame → List Record
stamped clock n [] = []
stamped clock n (f ∷ fs) = record { timestamp_ns = clock n; raw = f.raw } ∷ stamped clock (n + 1) fs

stamped-append :
    (clock : ℕ → ℕ) (n : ℕ) (fs gs : List RtcmFrame)
    → stamped clock n (fs ++ gs) ≡ stamped clock n fs ++ stamped clock (n + length fs) gs
unfolding stamped
stamped-append clock n [] gs = let e : n + 0 ≡ n = omega arith in rw e refl
stamped-append clock n (f ∷ fs) gs =
    let e : n + (length (f ∷ fs)) ≡ n + 1 + length fs = omega arith in
    rw (e, stamped-append clock (n + 1) fs gs) refl

write_frames-ok :
    (clock : ℕ → ℕ) (n now : ℕ) (fs : List RtcmFrame)
    → ((n : ℕ) → clock n < 18446744073709551616)
    → All (Good now) fs
    → write_frames clock n fs ≡ ok (entries (stamped clock n fs))
unfolding write_frames stamped entries
write_frames-ok clock n now [] early h = refl
write_frames-ok clock n now (f ∷ fs) early h =
    let fits : Fits (record { timestamp_ns = clock n; raw = f.raw }) = record {
      early = early n;
      short = omega (arith, h.0.small);
    } in
    rw (pack-ok _ fits, write_frames-ok clock (n + 1) now fs early h.1) refl

record_chunks-ok :
    (clock : ℕ → ℕ) (n : ℕ) (p : Parser) (chunks : List (List ℕ × ℕ))
    → ((n : ℕ) → clock n < 18446744073709551616)
    → Accounted p
    → (frames : List RtcmFrame) × (frames_of p chunks ≡ ok frames)
      × (record_chunks clock n p chunks ≡ ok (entries (stamped clock n frames)))
unfolding record_chunks frames_of
record_chunks-ok clock n p [] early h = ([], refl, unfold stamped entries in refl)
record_chunks-ok clock n p ((chunk, now) ∷ chunks) early h =
    let fed = feed-Fed p chunk now h in
    let (rest, found, written) =
      record_chunks-ok clock (n + length fed.frames) fed.last chunks early fed.accounted in
    (
      fed.frames ++ rest,
      rw (fed.result, found) refl,
      rw
          (
            fed.result,
            write_frames-ok clock n now fed.frames early fed.good,
            written,
            stamped-append clock n fed.frames rest,
            entries-append (stamped clock n fed.frames)
                (stamped clock (n + length fed.frames) rest),
          )
          refl,
    )

init-Accounted : Accounted init
init-Accounted = unfold init in record { balance = refl }

-- If the readings of the clock fit 64 bits, recording a stream succeeds, and the file gives exactly the
-- frames that the parser finds in the chunks, in order and byte for byte, each with the reading of the
-- clock when it was written, and no exception.
pub records-record_stream :
    (clock : ℕ → ℕ) (chunks : List (List ℕ × ℕ))
    → ((n : ℕ) → clock n < 18446744073709551616)
    → (frames : List RtcmFrame) × (bytes : List ℕ) × (frames_of init chunks ≡ ok frames)
      × (record_stream clock chunks ≡ ok bytes)
      × (records bytes ≡ record { given = stamped clock 0 frames; ended = none })
unfolding record_stream
records-record_stream clock chunks early =
    let (frames, found, written) = record_chunks-ok clock 0 init chunks early init-Accounted in
    (
      frames,
      magic ++ entries (stamped clock 0 frames),
      found,
      rw written refl,
      records-whole (stamped clock 0 frames),
    )
