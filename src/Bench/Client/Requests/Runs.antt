-- ===== src/Bench/Client/Requests/Runs.antt =====
-- Any sequence of operations of the bench's client.
use mowgli_lora_link.Prelude.{
  ℕ, ◌+◌, ◌≤◌, ◌≡◌, refl, ◌∙◌, arith, List, [], ◌∷◌, length, Bool, ◌&&◌, Option, none, some,
}
use mowgli_lora_link.Protocol.Frame.{Frame}
use mowgli_lora_link.Host.Modem.{get_diagnostics, diagnostics}
use mowgli_lora_link.Bench.Client.Accounting.{
  IsSound, receive-Kept, event_taken-IsSound, take_popped_keeps, All-select, select_radio,
  select_others,
}
use mowgli_lora_link.Bench.Client.Events.{one, Popped, pop_match-Popped}
use mowgli_lora_link.Bench.Client.Requests.{Ran, greet, send, ask_link_status, ask_diagnostics}
use mowgli_lora_link.Bench.Client.Requests.Answers.{Passes}
use mowgli_lora_link.Bench.Client.Requests.Outcomes.{Asked, request-Asked, greet-Asked, send-Asked}
use mowgli_lora_link.Bench.Client.{
  ModemClient, Port, poll, receive, pop_match, is_radio, take_popped, take_radio_event, events,
  get_link_status, link_status,
}

pub data Operation : Type 0 where
  give_events : Operation
  take_event : (Frame → Bool) → Operation
  say_hello : ℕ → Operation
  send_payload : List ℕ → ℕ → Operation
  query_status : ℕ → Operation
  query_diagnostics : ℕ → Operation

-- The client, the outside, and how many radio events `events` has given so far.
pub record State (W : Type 0) : Type 0 where
  pub client : ModemClient
  pub world : W
  pub given : ℕ

-- A request leaves its exception or its frame to the caller, who goes on.
pub after : {W : Type 0} → ℕ → Ran W → State W
after given ran = record { client = ran.client; world = ran.world; given = given }

module _ {W : Type 0} (port : Port W) where
  pub perform : Operation → State W → State W
  unfolding events take_radio_event greet send ask_link_status ask_diagnostics after
  perform give_events s =
      let (c, w, frames) = events port s.client s.world in
      record { client = c; world = w; given = s.given + length frames }
  perform (take_event predicate) s =
      let (c, w, taken) = take_radio_event port predicate s.client s.world in
      record { client = c; world = w; given = s.given }
  perform (say_hello deadline) s = after s.given (greet port deadline s.client s.world)
  perform (send_payload payload deadline) s =
      after s.given (send port payload deadline s.client s.world)
  perform (query_status deadline) s = after s.given (ask_link_status port deadline s.client s.world)
  perform (query_diagnostics deadline) s =
      after s.given (ask_diagnostics port deadline s.client s.world)

  pub run : List Operation → State W → State W
  unfolding perform
  run [] s = s
  run (operation ∷ operations) s = run operations (perform operation s)

  -- The client keeps its session and never goes back in its sequence numbers.
  pub record Continues (s s' : State W) : Type 0 where
    pub sound : IsSound s'.given s'.client
    pub session : s'.client.session ≡ s.client.session
    pub sequence : s.client.sequence ≤ s'.client.sequence

  after-Continues :
      (s : State W) (response : ℕ) (asked : Frame) (late : W → Type 0) (ran : Ran W)
      → asked.session ≡ s.client.session
      → asked.sequence ≡ s.client.sequence + 1
      → Asked s.given response asked late ran
      → Continues s (after s.given ran)
  unfolding after
  after-Continues s response asked late ran session sequence h = record {
    sound = h.sound;
    session = h.session ∙ session;
    sequence = omega (arith, h.sequence, sequence);
  }

  events-Continues : (s : State W) → IsSound s.given s.client → Continues s (perform give_events s)
  unfolding perform events poll
  events-Continues s h =
      let k = receive-Kept s.given (port.read 512 s.world).0 s.client h in
      let polled = receive (port.read 512 s.world).0 s.client in
      record {
        sound = record {
          sorted = k.sound.sorted;
          radio =
              omega (arith, k.sound.radio, select_radio polled.inbox, select_others polled.inbox);
          own = All-select _ _ polled.inbox k.sound.own;
        };
        session = k.session;
        sequence = omega (arith, k.sequence);
      }

  taken-IsSound :
      (given : ℕ) (c : ModemClient) (predicate : Frame → Bool) (r : Option (Frame × List Frame))
      → Popped (λ f. is_radio f && predicate f) c.inbox r
      → IsSound given c
      → IsSound given (take_popped c r).0
  unfolding take_popped
  taken-IsSound given c predicate none popped h = h
  taken-IsSound given c predicate (some (f, left)) (one before g rest split unlike like) h =
      event_taken-IsSound given c before g rest split (ground arith) h

  take_event-Continues :
      (predicate : Frame → Bool) (s : State W)
      → IsSound s.given s.client
      → Continues s (perform (take_event predicate) s)
  unfolding perform take_radio_event poll
  take_event-Continues predicate s h =
      let k = receive-Kept s.given (port.read 512 s.world).0 s.client h in
      let polled = receive (port.read 512 s.world).0 s.client in
      let r = pop_match (λ f. is_radio f && predicate f) polled.inbox in
      let (session, sequence) = take_popped_keeps polled r in
      record {
        sound = taken-IsSound s.given polled predicate r (pop_match-Popped _ polled.inbox) k.sound;
        session = session ∙ k.session;
        sequence = omega (arith, k.sequence, sequence);
      }

  perform-Continues :
      (operation : Operation) (s : State W)
      → Passes port
      → IsSound s.given s.client
      → Continues s (perform operation s)
  unfolding perform ask_link_status ask_diagnostics
  perform-Continues give_events s passes h = events-Continues s h
  perform-Continues (take_event predicate) s passes h = take_event-Continues predicate s h
  perform-Continues (say_hello deadline) s passes h =
      after-Continues s _ _ _ _ refl refl
        (greet-Asked port s.given deadline s.client s.world passes h)
  perform-Continues (send_payload payload deadline) s passes h =
      after-Continues s _ _ _ _ refl refl
        (send-Asked port s.given deadline payload s.client s.world passes h)
  perform-Continues (query_status deadline) s passes h = after-Continues s _ _ _ _ refl refl (
      request-Asked port s.given get_link_status link_status deadline s.client s.world passes
        (λ e. ground arith) h)
  perform-Continues (query_diagnostics deadline) s passes h = after-Continues s _ _ _ _ refl refl (
      request-Asked port s.given get_diagnostics diagnostics deadline s.client s.world passes
        (λ e. ground arith) h)

  -- Whatever the client is asked to do, with a clock that goes on while it sleeps: each frame that it
  -- has decoded is counted once, as one of a foreign session, a response or a radio event; each radio
  -- event has been taken or given once, or is still in the inbox; the inbox holds frames of the
  -- client's session only; and the session stays and the sequence numbers do not go back.
  pub run-Continues :
      (operations : List Operation) (s : State W)
      → Passes port
      → IsSound s.given s.client
      → Continues s (run operations s)
  unfolding run
  run-Continues [] s passes h = record { sound = h; session = refl; sequence = omega arith }
  run-Continues (operation ∷ operations) s passes h =
      let first = perform-Continues operation s passes h in
      let rest = run-Continues operations (perform operation s) passes first.sound in
      record {
        sound = rest.sound;
        session = rest.session ∙ first.session;
        sequence = omega (arith, first.sequence, rest.sequence);
      }
