-- ===== src/Protocol/Stream/Chunks.antt =====
-- The stream decoder over chunks: how they are cut, and the buffer between them.
use mowgli_lora_link.Prelude.{
  ℕ, ◌≤◌, ◌≡◌, refl, arith, List, [], ◌∷◌, ◌++◌, append_assoc, length, length-append, true,
}
use mowgli_lora_link.Protocol.Stream.{StreamDecoder, feed_byte, feed}

-- Two calls of `feed` do what one call on both chunks does.
pub feed-append :
    (s : StreamDecoder) (xs ys : List ℕ)
    → feed s (xs ++ ys) ≡ ((feed (feed s xs).0 ys).0, (feed s xs).1 ++ (feed (feed s xs).0 ys).1)
unfolding feed
feed-append s [] ys = refl
feed-append s (x ∷ xs) ys = rw (feed-append (feed_byte s x).0 xs ys, append_assoc)

-- The buffer never passes its bound, and is empty while an oversized frame is discarded.
pub record IsBounded (s : StreamDecoder) : Type 0 where
  pub within : length s.buffer ≤ s.max_encoded
  pub empty : s.discarding ≡ true → length s.buffer ≡ 0

feed_byte-IsBounded : (s : StreamDecoder) (b : ℕ) → IsBounded s → IsBounded (feed_byte s b).0
unfolding feed_byte
feed_byte-IsBounded s b h = ground (arith, length-append s.buffer (b ∷ []))

-- If the buffer holds at most `max_encoded` bytes, and none while a frame is discarded, so it does
-- after `feed`, whatever arrives.
pub feed-IsBounded : (s : StreamDecoder) (xs : List ℕ) → IsBounded s → IsBounded (feed s xs).0
unfolding feed
feed-IsBounded s [] h = h
feed-IsBounded s (x ∷ xs) h = feed-IsBounded (feed_byte s x).0 xs (feed_byte-IsBounded s x h)
