-- ===== src/Host/Parser/Rounds.antt =====
-- What a round of the parser's loop does to the buffer and the counters.
use mowgli_lora_link.Prelude.{
  ℕ, suc, ◌+◌, ◌-◌, ◌≤◌, ◌<◌, ◌≡◌, inl, inr, refl, ◌∙◌, arith, List, [], ◌∷◌, ◌++◌, length, take,
  drop, Bool, true, false, not, ◌==◌, ltb, if◌then◌else◌, if_cases, Option, none, some,
  Option-cases, All, All-append, length-append, length-take, length-drop,
}
use mowgli_lora_link.Application.Rtcm.{valid_rtcm3, type_field, payload_length}
use mowgli_lora_link.Host.Parser.{
  RtcmFrame, Stats, Parser, find, Round, halted, continued, restore, accept, candidate,
  skip_garbage, round, shift, max_rtcm3_payload,
}

-- A frame that the parser may return.
pub record Good (now : ℕ) (f : RtcmFrame) : Type 0 where
  pub valid : valid_rtcm3 f.raw ≡ true
  pub typed : f.message_type ≡ type_field f.raw
  pub small : length f.raw ≤ 1029
  pub stamped : f.received_at ≡ now

-- The bytes that are no longer in the buffer: each was garbage, was dropped by a failed test, or is
-- part of a frame.
abbrev pub consumed : Stats → ℕ
consumed s =
    s.garbage_bytes + s.header_failures + s.length_failures + s.crc_failures + s.frame_bytes

-- From p to p' the parser returns `frames`, and loses no byte.
pub record Kept (now : ℕ) (p p' : Parser) (frames : List RtcmFrame) : Type 0 where
  pub balance : consumed p'.stats + length p'.buffer ≡ consumed p.stats + length p.buffer
  pub counted : p'.stats.frames ≡ p.stats.frames + length frames
  pub same_input : p'.stats.input_bytes ≡ p.stats.input_bytes
  pub good : All (Good now) frames

pub Kept-trans :
    {now : ℕ} {p q r : Parser} {fs gs : List RtcmFrame}
    → Kept now p q fs
    → Kept now q r gs
    → Kept now p r (fs ++ gs)
Kept-trans {fs} {gs} h k = record {
  balance = k.balance ∙ h.balance;
  counted = omega (arith, h.counted, k.counted, length-append fs gs);
  same_input = k.same_input ∙ h.same_input;
  good = All-append (Good _) fs gs h.good k.good;
}

pub Kept-refl : {now : ℕ} {p : Parser} → Kept now p p []
Kept-refl = record { balance = refl; counted = omega arith; same_input = refl; good = tt }

unfoldable pub Sound : ℕ → Parser → Round → Type 0
Sound now p (halted p') = Kept now p p' [] × (length p'.buffer < 1029)
Sound now p (continued p' frames) = Kept now p p' frames × (length p'.buffer < length p.buffer)

payload_length_small :
    (raw : List ℕ)
    → ltb max_rtcm3_payload (payload_length raw) ≡ false
    → payload_length raw + 6 ≤ 1029
payload_length_small raw h = ground arith

restore-Sound :
    (now n : ℕ) (p : Parser)
    → 3 ≤ length p.buffer
    → 1 ≤ n
    → n ≤ length p.buffer
    → Sound now p (continued (restore p (take n p.buffer) (drop n p.buffer)) [])
unfolding restore Sound
restore-Sound now n p long pos whole =
    let kept : length (drop 1 (take n p.buffer) ++ drop n p.buffer) + 1 ≡ length p.buffer = omega (
      arith,
      length-append (drop 1 (take n p.buffer)) (drop n p.buffer),
      length-drop 1 (take n p.buffer),
      length-take n p.buffer,
      length-drop n p.buffer,
    ) in
    (
      record { balance = omega (arith, kept); counted = omega arith; same_input = refl; good = tt },
      omega (arith, kept),
    )

accept-Sound :
    (now n : ℕ) (p : Parser)
    → 6 ≤ n
    → n ≤ 1029
    → n ≤ length p.buffer
    → valid_rtcm3 (take n p.buffer) ≡ true
    → Sound now p (accept now p (take n p.buffer) (drop n p.buffer))
unfolding accept Sound
accept-Sound now n p long small whole valid = (
  record {
    balance = omega (arith, length-take n p.buffer, length-drop n p.buffer);
    counted = omega arith;
    same_input = refl;
    good = (
      record {
        valid = valid;
        typed = refl;
        small = omega (arith, length-take n p.buffer);
        stamped = refl;
      },
      tt,
    );
  },
  omega (arith, length-drop n p.buffer),
)

-- A test fails, and the first byte of the buffer is dropped.
dropped-Sound :
    (now : ℕ) (p : Parser) (s : Stats)
    → ltb (length p.buffer) 3 ≡ false
    → consumed s ≡ consumed p.stats + 1
    → s.frames ≡ p.stats.frames
    → s.input_bytes ≡ p.stats.input_bytes
    → Sound now p (continued (record p { buffer = drop 1 p.buffer; stats = s }) [])
unfolding Sound
dropped-Sound now p s long more frames input =
    let three : 3 ≤ length p.buffer = ground arith in
    (
      record {
        balance = omega (arith, three, length-drop 1 p.buffer);
        counted = omega (arith, frames);
        same_input = input;
        good = tt;
      },
      omega (arith, three, length-drop 1 p.buffer),
    )

halted-Sound :
    {now : ℕ} {p : Parser} (p' : Parser)
    → Kept now p p' []
    → length p'.buffer < 1029
    → Sound now p (halted p')
unfolding Sound
halted-Sound p' kept short = (kept, short)

below : (a b : ℕ) → ltb a b ≡ true → a < b
below a b h = ground arith

at_least : (a b : ℕ) → ltb a b ≡ false → b ≤ a
at_least a b h = ground arith

not-false : (b : Bool) → not b ≡ false → b ≡ true
not-false b h = ground arith

candidate-Sound : (now : ℕ) (p : Parser) → Sound now p (candidate now p)
unfolding candidate
candidate-Sound now p =
    if_cases (Sound now p) _ (halted p) _
      (λ short. halted-Sound p Kept-refl (omega (arith, below _ 3 short)))
      (λ long.
        if_cases (Sound now p) _ _ _
          (λ t.
            dropped-Sound now p (record p.stats { header_failures = p.stats.header_failures + 1 })
              long (omega arith) refl refl)
          (λ t.
            if_cases (Sound now p) _ _ _
              (λ t.
                dropped-Sound now p
                  (record p.stats { length_failures = p.stats.length_failures + 1 }) long
                  (omega arith) refl refl)
              (λ fits.
                if_cases (Sound now p) _ (halted p) _
                  (λ part. halted-Sound p Kept-refl (
                    omega (
                      arith,
                      below _ (payload_length p.buffer + 6) part,
                      payload_length_small p.buffer fits,
                    )))
                  (λ whole.
                    if_cases (Sound now p) _ _ _
                      (λ bad.
                        restore-Sound now _ p (at_least _ 3 long) (omega arith)
                          (at_least _ (payload_length p.buffer + 6) whole))
                      (λ valid.
                        accept-Sound now _ p (omega arith) (payload_length_small p.buffer fits)
                          (at_least _ (payload_length p.buffer + 6) whole) (not-false _ valid))))))

shift_small :
    (later : Option ℕ) (here : Bool) (i n : ℕ)
    → (if here then some 0 else shift later) ≡ some i
    → ((j : ℕ) → later ≡ some j → j < n)
    → i < suc n
unfolding shift
shift_small none here i n h k = ground arith
shift_small (some j) here i n h k = ground (arith, k j refl)

find_small : (b : ℕ) (xs : List ℕ) (i : ℕ) → find b xs ≡ some i → i < length xs
unfolding find
find_small b [] i h = ground arith
find_small b (x ∷ xs) i h = shift_small (find b xs) (x == b) i (length xs) h (find_small b xs)

skip_garbage-Kept :
    (now n : ℕ) (p : Parser) → n ≤ length p.buffer → Kept now p (skip_garbage p n) []
unfolding skip_garbage
skip_garbage-Kept now n p h = record {
  balance = omega (arith, length-drop n p.buffer);
  counted = omega arith;
  same_input = refl;
  good = tt;
}

skip_garbage-length : (n : ℕ) (p : Parser) → length (skip_garbage p n).buffer ≡ length p.buffer - n
unfolding skip_garbage
skip_garbage-length n p = length-drop n p.buffer

Sound-behind :
    {now : ℕ} {p q : Parser} (r : Round)
    → Kept now p q []
    → length q.buffer ≤ length p.buffer
    → Sound now q r
    → Sound now p r
unfolding Sound
Sound-behind (halted p') k shorter h = (Kept-trans k h.0, h.1)
Sound-behind (continued p' fs) k shorter h = (Kept-trans k h.0, omega (arith, h.1, shorter))

pub round-Sound : (now : ℕ) (p : Parser) → Sound now p (round now p)
unfolding round
round-Sound now p = elim (Option-cases (find 0xD3 p.buffer)) [
  | inl nowhere ↦
      rw (nowhere, round)
        (halted-Sound _ (skip_garbage-Kept now (length p.buffer) p (omega arith))
          (omega (arith, skip_garbage-length (length p.buffer) p)))
  | inr (start, found) ↦
      rw (found, round)
        (Sound-behind (candidate now (skip_garbage p start))
          (skip_garbage-Kept now start p (omega (arith, find_small 0xD3 p.buffer start found)))
          (omega (arith, skip_garbage-length start p)) (candidate-Sound now (skip_garbage p start)))
]
