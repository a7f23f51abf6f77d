-- ===== src/Bench/Client/Accounting.antt =====
-- What the counters and the inbox of the bench's client say together, whatever it is asked to do.
use mowgli_lora_link.Prelude.{
  ℕ, ◌+◌, ◌≡◌, refl, arith, List, [], ◌∷◌, ◌++◌, length, All, All-append, All_left, All_right,
  subst, ◌∙◌, ◌≢◌, Bool, not, ◌==◌, Option, none, some, if_cases, if◌then◌else◌,
}
use mowgli_lora_link.Protocol.Frame.{Frame}
use mowgli_lora_link.Host.Modem.{radio_rx}
use mowgli_lora_link.Bench.Client.{
  ModemClient, receive, take_frame, take_frames, select, is_radio, take_popped,
}

-- The number of RADIO_RX frames.
unfoldable pub radio_count : List Frame → ℕ
radio_count [] = 0
radio_count (frame ∷ frames) =
    let rest = radio_count frames in if is_radio frame then rest + 1 else rest

radio_count-append : (xs ys : List Frame) → radio_count (xs ++ ys) ≡ radio_count xs + radio_count ys
unfolding radio_count
radio_count-append [] ys = omega arith
radio_count-append (x ∷ xs) ys = ground (arith, radio_count-append xs ys)

-- Each decoded frame is one of a wrong session, a response or a radio event; each radio event has
-- been taken by `take_radio_event`, or given by `events`, or is in the inbox; and the inbox holds
-- frames of the client's session only.
pub record IsSound (given : ℕ) (c : ModemClient) : Type 0 where
  pub sorted :
      c.counters.frames_decoded
      ≡ c.counters.wrong_session + c.counters.responses + c.counters.radio_rx_events
  pub radio :
      c.counters.radio_rx_events ≡ c.counters.radio_rx_events_matched + given + radio_count c.inbox
  pub own : All (λ f. f.session ≡ c.session) c.inbox

take_frame-IsSound :
    (given : ℕ) (f : Frame) (c : ModemClient) → IsSound given c → IsSound given (take_frame f c)
unfolding take_frame radio_count
take_frame-IsSound given f c h =
    if_cases (IsSound given) (not (f.session == c.session)) _ _
      (λ other. record { sorted = omega (arith, h.sorted); radio = h.radio; own = h.own })
      (λ own.
        let all_own : All (λ g. g.session ≡ c.session) (c.inbox ++ (f ∷ [])) =
          All-append (λ g. g.session ≡ c.session) c.inbox (f ∷ []) h.own (ground arith, tt) in
        if_cases (IsSound given) (is_radio f) _ _
          (λ radio. record {
            sorted = omega (arith, h.sorted);
            radio = rw (radio_count-append c.inbox (f ∷ []), radio) (omega (arith, h.radio));
            own = all_own;
          })
          (λ response. record {
            sorted = omega (arith, h.sorted);
            radio = rw (radio_count-append c.inbox (f ∷ []), response) (omega (arith, h.radio));
            own = all_own;
          }))

pub take_frames-IsSound :
    (given : ℕ) (frames : List Frame) (c : ModemClient)
    → IsSound given c
    → IsSound given (take_frames frames c)
unfolding take_frames
take_frames-IsSound given [] c h = h
take_frames-IsSound given (f ∷ frames) c h =
    take_frames-IsSound given frames (take_frame f c) (take_frame-IsSound given f c h)

pub receive-IsSound :
    (given : ℕ) (bytes : List ℕ) (c : ModemClient)
    → IsSound given c
    → IsSound given (receive bytes c)
unfolding receive
receive-IsSound given bytes c h =
    take_frames-IsSound given _ _ (record { sorted = h.sorted; radio = h.radio; own = h.own })

pub All-select :
    (P : Frame → Type 0) (test : Frame → Bool) (frames : List Frame)
    → All P frames
    → All P (select test frames)
unfolding select
All-select P test [] h = tt
All-select P test (f ∷ frames) h =
    if_cases (All P) (test f) _ _ (λ e. (h.0, All-select P test frames h.1))
      (λ e. All-select P test frames h.1)

pub select_radio : (frames : List Frame) → length (select is_radio frames) ≡ radio_count frames
unfolding select radio_count
select_radio [] = refl
select_radio (f ∷ frames) = ground (arith, select_radio frames)

pub select_others : (frames : List Frame) → radio_count (select (λ f. not (is_radio f)) frames) ≡ 0
unfolding select radio_count
select_others [] = refl
select_others (f ∷ frames) = ground (arith, select_others frames)

-- A frame that is no radio event leaves the inbox.
pub removed-IsSound :
    (given : ℕ) (c : ModemClient) (before : List Frame) (f : Frame) (rest : List Frame)
    → c.inbox ≡ before ++ (f ∷ rest)
    → f.msg_type ≢ radio_rx
    → IsSound given c
    → IsSound given (record c { inbox = before ++ rest })
unfolding radio_count
removed-IsSound given c before f rest split other h =
    let own = subst (All (λ g. g.session ≡ c.session)) split h.own in
    let counts : radio_count c.inbox ≡ radio_count (before ++ rest) =
      rw (split, radio_count-append before (f ∷ rest), radio_count-append before rest)
        (ground arith) in
    record {
      sorted = h.sorted;
      radio = omega (arith, h.radio, counts);
      own =
          All-append _ before rest (All_left _ before (f ∷ rest) own)
            (All_right _ before (f ∷ rest) own).1;
    }

-- The client is sound and has kept its session and its sequence number.
pub record Kept (given : ℕ) (c c' : ModemClient) : Type 0 where
  pub sound : IsSound given c'
  pub session : c'.session ≡ c.session
  pub sequence : c'.sequence ≡ c.sequence

take_frames_keeps :
    (frames : List Frame) (c : ModemClient)
    → ((take_frames frames c).session ≡ c.session) × ((take_frames frames c).sequence ≡ c.sequence)
unfolding take_frames take_frame
take_frames_keeps [] c = (refl, refl)
take_frames_keeps (f ∷ frames) c =
    let (session, sequence) = take_frames_keeps frames (take_frame f c) in
    (session ∙ ground arith, sequence ∙ ground arith)

pub receive-Kept :
    (given : ℕ) (bytes : List ℕ) (c : ModemClient)
    → IsSound given c
    → Kept given c (receive bytes c)
receive-Kept given bytes c h = record {
  sound = receive-IsSound given bytes c h;
  session = unfold receive in (take_frames_keeps _ _).0;
  sequence = unfold receive in (take_frames_keeps _ _).1;
}

-- A radio event that leaves the inbox is counted.
pub event_taken-IsSound :
    (given : ℕ) (c : ModemClient) (before : List Frame) (f : Frame) (rest : List Frame)
    → c.inbox ≡ before ++ (f ∷ rest)
    → f.msg_type ≡ radio_rx
    → IsSound given c
    → IsSound given (record c {
      inbox = before ++ rest;
      counters = record c.counters {
        radio_rx_events_matched = c.counters.radio_rx_events_matched + 1;
      };
    })
unfolding radio_count
event_taken-IsSound given c before f rest split radio h =
    let own = subst (All (λ g. g.session ≡ c.session)) split h.own in
    let counts : radio_count c.inbox ≡ radio_count (before ++ rest) + 1 =
      rw (split, radio_count-append before (f ∷ rest), radio_count-append before rest)
        (ground arith) in
    record {
      sorted = h.sorted;
      radio = omega (arith, h.radio, counts);
      own =
          All-append _ before rest (All_left _ before (f ∷ rest) own)
            (All_right _ before (f ∷ rest) own).1;
    }

pub take_popped_keeps :
    (c : ModemClient) (r : Option (Frame × List Frame))
    → let c' = (take_popped c r).0 in (c'.session ≡ c.session) × (c'.sequence ≡ c.sequence)
unfolding take_popped
take_popped_keeps c none = (refl, refl)
take_popped_keeps c (some (f, left)) = (refl, refl)
