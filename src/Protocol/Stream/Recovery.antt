-- ===== src/Protocol/Stream/Recovery.antt =====
-- The stream decoder behind a delimiter.
use mowgli_lora_link.Prelude.{
  ℕ, ◌+◌, ◌≤◌, ◌<◌, ◌≡◌, refl, sym, err, ap, ◌∙◌, arith, List, [], ◌∷◌, ◌++◌, append_assoc,
  append-nil, length, length-append, All, true, false, ltb, Result, ok, ◌>>=◌, lt→ltb,
}
use mowgli_lora_link.Protocol.Cobs.Blocks.{
  IsFrameByte, cobs_encode-IsFrameByte, cobs_encode_nonempty,
}
use mowgli_lora_link.Protocol.Frame.{Frame, frame_body, with_crc, encode_frame}
use mowgli_lora_link.Protocol.Frame.RoundTrip.{IsFrame, encode_frame-ok}
use mowgli_lora_link.Protocol.Frame.Bytes.{
  IsByteFrame, code_of, with_crc-IsByte, length-code_of, decode_frame-code_of,
}
use mowgli_lora_link.Protocol.Stream.{StreamDecoder, fresh, decoded, completed, feed_byte, feed}
use mowgli_lora_link.Protocol.Stream.Chunks.{feed-append}

max_encoded-feed : (s : StreamDecoder) (xs : List ℕ) → (feed s xs).0.max_encoded ≡ s.max_encoded
unfolding feed
max_encoded-feed s [] = refl
max_encoded-feed s (x ∷ xs) = max_encoded-feed (feed_byte s x).0 xs ∙ step
  where
    step : (feed_byte s x).0.max_encoded ≡ s.max_encoded
    step = ground arith

pub feed-zero : (s : StreamDecoder) → feed s (0 ∷ []) ≡ (fresh s.max_encoded, completed s)
unfolding feed
feed-zero s = rw (append-nil (completed s))

-- Behind a zero byte the decoder is as good as new.
feed_delimiter :
    (s : StreamDecoder) (xs : List ℕ) → (feed s (xs ++ (0 ∷ []))).0 ≡ fresh s.max_encoded
feed_delimiter s xs = rw (feed-append s xs (0 ∷ []), feed-zero (feed s xs).0, max_encoded-feed s xs)

feed_step :
    (s : StreamDecoder) (x : ℕ) (xs : List ℕ) {s' : StreamDecoder}
    → feed_byte s x ≡ (s', [])
    → feed s (x ∷ xs) ≡ feed s' xs
unfolding feed
feed_step s x xs e = ap (λ p. ((feed p.0 xs).0, p.1 ++ (feed p.0 xs).1)) e

feed_byte_nonzero :
    (s : StreamDecoder) (x : ℕ)
    → 0 < x
    → s.discarding ≡ false
    → length s.buffer < s.max_encoded
    → feed_byte s x ≡ (record s { buffer = s.buffer ++ (x ∷ []) }, [])
unfolding feed_byte
feed_byte_nonzero s x h kept fits = ground (arith, length-append s.buffer (x ∷ []))

feed_nonzero :
    (s : StreamDecoder) (xs : List ℕ)
    → All IsFrameByte xs
    → s.discarding ≡ false
    → length s.buffer + length xs ≤ s.max_encoded
    → feed s xs ≡ (record s { buffer = s.buffer ++ xs }, [])
feed_nonzero s [] h kept fits = unfold feed in rw (append-nil s.buffer)
feed_nonzero s (x ∷ xs) h kept fits =
    let s' : StreamDecoder = record s { buffer = s.buffer ++ (x ∷ []) } in
    let step : feed_byte s x ≡ (s', []) = feed_byte_nonzero s x h.0.0 kept (omega arith) in
    let rest = feed_nonzero s' xs h.1 kept (omega (arith, length-append s.buffer (x ∷ []))) in
    feed_step s x xs step ∙ rest ∙ rw (append_assoc s.buffer (x ∷ []) xs)

completed_frame :
    (f : Frame) (m : ℕ)
    → IsFrame f
    → completed (record { buffer = code_of f; discarding = false; max_encoded = m }) ≡ f ∷ []
unfolding completed decoded
completed_frame f m h =
    let some_code : ltb 0 (length (code_of f)) ≡ true =
      lt→ltb 0 _ (cobs_encode_nonempty (with_crc (frame_body f))) in
    rw (some_code, decode_frame-code_of f h)

feed_code :
    (f : Frame) (m : ℕ)
    → IsByteFrame f
    → 276 ≤ m
    → feed (fresh m) (code_of f ++ (0 ∷ [])) ≡ (fresh m, f ∷ [])
feed_code f m h room =
    let code =
      feed_nonzero (fresh m) (code_of f) (cobs_encode-IsFrameByte _ (with_crc-IsByte f h)) refl
        (omega (arith, length-code_of f h.frame, room)) in
    rw (
      feed-append (fresh m) (code_of f) (0 ∷ []),
      code,
      feed-zero (record { buffer = code_of f; discarding = false; max_encoded = m }),
      completed_frame f m h.frame,
    )

-- Whatever state the decoder is in and whatever bytes come before a delimiter, the frame in range
-- that follows it is decoded after the frames that came before, and the decoder is left as good as
-- new, if its buffer has room for 276 bytes.
pub feed_recovers :
    (s : StreamDecoder) (garbage : List ℕ) (f : Frame)
    → IsByteFrame f
    → 276 ≤ s.max_encoded
    → (wire : List ℕ) × (encode_frame f ≡ ok wire)
      × (feed s ((garbage ++ (0 ∷ [])) ++ wire)
          ≡ (fresh s.max_encoded, (feed s (garbage ++ (0 ∷ []))).1 ++ (f ∷ [])))
feed_recovers s garbage f h room = (
  code_of f ++ (0 ∷ []),
  encode_frame-ok f h.frame,
  rw (
    feed-append s (garbage ++ (0 ∷ [])) (code_of f ++ (0 ∷ [])),
    feed_delimiter s garbage,
    feed_code f s.max_encoded h room,
  ),
)

-- `encode_frame` of each frame, one after the other.
pub encode_all : List Frame → Result (List ℕ)
encode_all [] = ok []
encode_all (f ∷ fs) = do wire ← encode_frame f; rest ← encode_all fs; ok (wire ++ rest)

-- A stream of encoded frames in range is decoded to these frames, in order, with nothing left in
-- the buffer, if the buffer has room for 276 bytes.
pub feed-encode_all :
    (m : ℕ) (fs : List Frame)
    → All IsByteFrame fs
    → 276 ≤ m
    → (stream : List ℕ) × (encode_all fs ≡ ok stream) × (feed (fresh m) stream ≡ (fresh m, fs))
unfolding encode_all
feed-encode_all m [] h room = ([], refl, unfold feed in refl)
feed-encode_all m (f ∷ fs) h room =
    let (rest, encoded, decoded) = feed-encode_all m fs h.1 room in
    (
      (code_of f ++ (0 ∷ [])) ++ rest,
      rw (encode_frame-ok f h.0.frame, encoded),
      rw (feed-append (fresh m) (code_of f ++ (0 ∷ [])) rest, feed_code f m h.0 room, decoded),
    )

-- The bytes of one encoded frame in range are decoded to this frame.
pub feed-encode_frame :
    (m : ℕ) (f : Frame) (wire : List ℕ)
    → IsByteFrame f
    → 276 ≤ m
    → encode_frame f ≡ ok wire
    → feed (fresh m) wire ≡ (fresh m, f ∷ [])
feed-encode_frame m f wire h room encoded =
    let same : code_of f ++ (0 ∷ []) ≡ wire =
      ap (λ r. elim r [ ok bytes ↦ bytes | err e ↦ [] ])
        (sym (encode_frame-ok f h.frame) ∙ encoded) in
    sym (ap (feed (fresh m)) same) ∙ feed_code f m h room
