-- ===== src/Bench/Client/Requests/Answers.antt =====
-- How a request of the bench's client ends.
use mowgli_lora_link.Prelude.{
  ℕ, zero, suc, ◌+◌, ◌≤◌, ◌<◌, ◌≡◌, ◌≢◌, refl, arith, List, ◌∷◌, ◌++◌, All, All_right, ltb, subst,
  ltb→lt, elim_cases, ◌∙◌,
}
use mowgli_lora_link.Protocol.Frame.{Frame}
use mowgli_lora_link.Host.Modem.{radio_rx, error}
use mowgli_lora_link.Bench.Client.Accounting.{IsSound, Kept, receive-Kept, removed-IsSound}
use mowgli_lora_link.Bench.Client.Requests.Scanning.{
  scan-Scanned, Scanned, no_answer, response, erred,
}
use mowgli_lora_link.Bench.Client.Requests.{
  returned, refused, timed_out, Ran, Scan, absent, found, refusal, wait_response,
}
use mowgli_lora_link.Bench.Client.{ModemClient, Port, poll, receive}

module _ {W : Type 0} (port : Port W) where
  -- Between two readings of the clock it does not go back, and it goes on while the client sleeps.
  pub record Passes : Type 0 where
    pub reading : (w : W) → (port.clock w).0 ≤ (port.clock (port.clock w).1).0
    pub writing :
        (wire : List ℕ) (w : W)
        → (port.clock w).0 ≤ (port.clock (port.write wire (port.clock w).1)).0
    pub sleeping :
        (n : ℕ) (w : W)
        → (port.clock w).0 + 1 ≤ (port.clock (port.sleep 1 (port.read n (port.clock w).1).1)).0

  -- What a wait that began at `c` ends with, by its reply; it is never `stuck`.
  pub data Waited (msg_type seq deadline : ℕ) (c : ModemClient) : Ran W → Type 0 where
    answered :
        (c' : ModemClient) (w : W) (f : Frame)
        → f.msg_type ≡ msg_type
        → f.sequence ≡ seq
        → f.session ≡ c.session
        → Waited msg_type seq deadline c (record { client = c'; world = w; reply = returned f })
    failed :
        (c' : ModemClient) (w : W) (f : Frame)
        → f.msg_type ≡ error
        → f.sequence ≡ seq
        → f.session ≡ c.session
        → Waited msg_type seq deadline c
            (record { client = c'; world = w; reply = refused f.payload })
    expired :
        (c' : ModemClient) (w : W)
        → deadline ≤ (port.clock w).0
        → Waited msg_type seq deadline c
            (record { client = c'; world = (port.clock w).1; reply = timed_out })

  -- What is proved of a wait.
  abbrev pub Ends : ℕ → ℕ → ℕ → ℕ → ModemClient → Ran W → Type 0
  Ends given msg_type seq deadline c ran =
      Waited msg_type seq deadline c ran × Kept given c ran.client

  own_frame :
      (given : ℕ) (c : ModemClient) (before : List Frame) (f : Frame) (rest : List Frame)
      → c.inbox ≡ before ++ (f ∷ rest)
      → IsSound given c
      → f.session ≡ c.session
  own_frame given c before f rest split h =
      (All_right _ before (f ∷ rest) (subst (All (λ g. g.session ≡ c.session)) split h.own)).0

  respond-Ends :
      (given msg_type seq deadline : ℕ) (c polled : ModemClient) (w : W) (rest : Ran W) (r : Scan)
      → msg_type ≢ radio_rx
      → Kept given c polled
      → Scanned msg_type seq polled.inbox r
      → (Kept given c polled → Ends given msg_type seq deadline c rest)
      → Ends given msg_type seq deadline c (elim r [
        | absent ↦ rest
        | found frame left ↦ record {
          client = record polled { inbox = left };
          world = w;
          reply = returned frame;
        }
        | refusal payload ↦ record { client = polled; world = w; reply = refused payload }
      ])
  respond-Ends given msg_type seq deadline c polled w rest absent other k (no_answer h) continued =
      continued k
  respond-Ends given msg_type seq deadline c polled w rest (found f left) other k
        (response before g after split h typ number) continued =
      (
        answered _ _ g typ number (own_frame given polled before g after split k.sound ∙ k.session),
        record {
          sound = removed-IsSound given polled before g after split (rw typ other) k.sound;
          session = k.session;
          sequence = k.sequence;
        },
      )
  respond-Ends given msg_type seq deadline c polled w rest (refusal p) other k
        (erred before g after split h typ number) continued =
      (failed _ _ g typ number (own_frame given polled before g after split k.sound ∙ k.session), k)

  later-Ends :
      (given msg_type seq deadline : ℕ) (c c' : ModemClient) (ran : Ran W)
      → Kept given c c'
      → Ends given msg_type seq deadline c' ran
      → Ends given msg_type seq deadline c ran
  later-Ends given msg_type seq deadline c c' ran k (waited, kept) = (
    later_waited ran waited,
    record {
      sound = kept.sound;
      session = kept.session ∙ k.session;
      sequence = kept.sequence ∙ k.sequence;
    },
  )
    where
      later_waited :
          (ran : Ran W) → Waited msg_type seq deadline c' ran → Waited msg_type seq deadline c ran
      later_waited ran (answered d v f typ number own) = answered d v f typ number (own ∙ k.session)
      later_waited ran (failed d v f typ number own) = failed d v f typ number (own ∙ k.session)
      later_waited ran (expired d v late) = expired d v late

  pub wait_response-Ends :
      (given fuel msg_type seq deadline : ℕ) (c : ModemClient) (w : W)
      → Passes
      → msg_type ≢ radio_rx
      → IsSound given c
      → 0 < fuel
      → deadline + 1 ≤ (port.clock w).0 + fuel
      → Ends given msg_type seq deadline c (wait_response port fuel msg_type seq deadline c w)
  unfolding wait_response poll
  wait_response-Ends given zero msg_type seq deadline c w passes other h positive enough =
      absurd (omega arith)
  wait_response-Ends given (suc fuel) msg_type seq deadline c w passes other h positive enough =
      let read_at = (port.clock w).1 in
      let (bytes, w') = port.read 512 read_at in
      let polled = receive bytes c in
      let kept = receive-Kept given bytes c h in
      elim_cases (Ends given msg_type seq deadline c) (ltb (port.clock w).0 deadline) _ _
        (λ early.
          respond-Ends given msg_type seq deadline c polled w'
            (wait_response port fuel msg_type seq deadline polled (port.sleep 1 w')) _ other kept
            (scan-Scanned msg_type seq polled.inbox)
            (λ k. later-Ends given msg_type seq deadline c polled _ k (
              wait_response-Ends given fuel msg_type seq deadline polled (port.sleep 1 w') passes
                other k.sound (omega (arith, ltb→lt _ _ early, enough))
                (omega (arith, passes.sleeping 512 w, enough)))))
        (λ late.
          (expired c w (ground arith), record { sound = h; session = refl; sequence = refl }))
