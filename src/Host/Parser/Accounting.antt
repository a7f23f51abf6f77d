-- ===== src/Host/Parser/Accounting.antt =====
-- What `feed` returns, and where the bytes of the stream go.
use mowgli_lora_link.Prelude.{
  ℕ, zero, suc, ◌+◌, ◌<◌, ◌≡◌, ◌∙◌, arith, List, [], ◌++◌, length, ◌==◌, if_cases, Result, ok, All,
  length-append, append-nil, append_assoc,
}
use mowgli_lora_link.Host.Parser.{RtcmFrame, Parser, Round, halted, continued, round, loop, feed}
use mowgli_lora_link.Host.Parser.Rounds.{
  Good, consumed, Kept, Kept-trans, Kept-refl, Sound, round-Sound,
}

-- The result of a loop that starts at p with `output`.
record Ended (now : ℕ) (p : Parser) (output : List RtcmFrame) (r : Result (Parser × List RtcmFrame))
    : Type 0 where
  last : Parser
  frames : List RtcmFrame
  result : r ≡ ok (last, output ++ frames)
  kept : Kept now p last frames
  short : length last.buffer < 1029

-- The loop behind its first test, and behind a round.
behind_round :
    (fuel now : ℕ) (p : Parser) (output : List RtcmFrame) (r : Round)
    → Sound now p r
    → length p.buffer < suc fuel
    → ((q : Parser) (out : List RtcmFrame)
        → length q.buffer < fuel
        → Ended now q out (loop fuel now q out))
    → Ended now p output (elim r [
      | halted p' ↦ ok (p', output)
      | continued p' frames ↦ loop fuel now p' (output ++ frames)
    ])
unfolding Sound
behind_round fuel now p output (halted p') (kept, short) h ih = record {
  last = p';
  frames = [];
  result = rw (append-nil output);
  kept = kept;
  short = short;
}
behind_round fuel now p output (continued p' frames) (kept, shorter) h ih =
    let e = ih p' (output ++ frames) (omega arith) in
    record {
      last = e.last;
      frames = frames ++ e.frames;
      result = e.result ∙ rw (append_assoc output frames e.frames);
      kept = Kept-trans kept e.kept;
      short = e.short;
    }

loop-Ended :
    (fuel now : ℕ) (p : Parser) (output : List RtcmFrame)
    → length p.buffer < fuel
    → Ended now p output (loop fuel now p output)
unfolding loop
loop-Ended zero now p output h = absurd (omega arith)
loop-Ended (suc fuel) now p output h =
    if_cases (Ended now p output) (length p.buffer == 0) _ _
      (λ e. record {
        last = p;
        frames = [];
        result = rw (append-nil output);
        kept = Kept-refl;
        short = ground arith;
      })
      (λ more.
        behind_round fuel now p output (round now p) (round-Sound now p) h (loop-Ended fuel now))

-- The bytes of the stream so far: each is in the buffer, or consumed.
pub record Accounted (p : Parser) : Type 0 where
  pub balance : consumed p.stats + length p.buffer ≡ p.stats.input_bytes

-- What a call of `feed` does.
pub record Fed (now : ℕ) (p : Parser) (chunk : List ℕ) (r : Result (Parser × List RtcmFrame))
    : Type 0 where
  pub last : Parser
  pub frames : List RtcmFrame
  pub result : r ≡ ok (last, frames)
  pub good : All (Good now) frames
  pub counted : last.stats.frames ≡ p.stats.frames + length frames
  pub received : last.stats.input_bytes ≡ p.stats.input_bytes + length chunk
  pub accounted : Accounted last
  pub short : length last.buffer < 1029

-- If every byte so far is in the buffer or counted once, `feed` returns, and every byte is still
-- in the buffer or counted once: as garbage, as dropped by a failed test, or as part of a frame.
-- The frames that it returns are valid, at most 1029 bytes long, carry their type and the time of
-- the call, and are counted; fewer than 1029 bytes wait.
pub feed-Fed :
    (p : Parser) (chunk : List ℕ) (now : ℕ) → Accounted p → Fed now p chunk (feed p chunk now)
unfolding feed
feed-Fed p chunk now h =
    let start : Parser = record p {
      buffer = p.buffer ++ chunk;
      stats = record p.stats { input_bytes = p.stats.input_bytes + length chunk };
    } in
    let e = loop-Ended (suc (length start.buffer)) now start [] (omega arith) in
    record {
      last = e.last;
      frames = e.frames;
      result = e.result;
      good = e.kept.good;
      counted = e.kept.counted;
      received = e.kept.same_input;
      accounted = record {
        balance =
            omega
              (arith, e.kept.balance, e.kept.same_input, h.balance, length-append p.buffer chunk);
      };
      short = e.short;
    }
