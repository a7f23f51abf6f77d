-- ===== src/Host/Pump/Exchange/Reader.antt =====
-- What the reader of the source does to the stretches.
use mowgli_lora_link.Prelude.{
  ℕ, ◌+◌, ◌≤◌, ◌≡◌, inl, inr, refl, sym, ◌∙◌, ap, arith, List, [], ◌∷◌, ◌++◌, length, append_assoc,
  true, false, ◌==◌, ltb, if◌then◌else◌, Bool-cases, some, subst,
}
use mowgli_lora_link.Host.Pump.{
  Pump, Item, dropped_chunks, chunk, session_started, next_generation, discard_queued_input,
  start_input_session, put_fresh, receive, Consumer, max_queue,
}
use mowgli_lora_link.Host.Pump.Exchange.{session, received, System, begin_stretch, sent, step}
use mowgli_lora_link.Host.Pump.Splicing.{
  fed, FromOne, Whole, Whole-later, payloads, payloads-append, NotNewer, NotNewer-payloads,
  NotNewer-append,
}

-- What the loop has ingested of generation g since its last reset.
unfoldable pub ingested : ℕ → Consumer → List (List ℕ)
ingested g c = if c.active_generation == g then fed c.log else []

-- Each call of `ingest` so far has continued the beginning of one stretch. Of the latest stretch
-- nothing is lost: its chunks are ingested, or taken, or in the queue, in this order.
pub record IsLinked (s : System) : Type 0 where
  pub whole : Whole (s.stretch ∷ s.past) s.consumer.log
  pub active : s.consumer.active_generation ≤ s.pump.generation
  pub single : length s.held ≤ 1
  pub queued : NotNewer s.pump.generation s.pump.queue
  pub handled : NotNewer s.pump.generation s.held
  pub linked :
      ingested s.pump.generation s.consumer
        ++ (payloads s.pump.generation s.held ++ payloads s.pump.generation s.pump.queue)
      ≡ s.stretch

-- A new generation goes with a new stretch.
begin_stretch-IsLinked :
    (chunks : List (List ℕ)) (s : System) (p : Pump)
    → IsLinked s
    → p.generation ≡ s.pump.generation + 1
    → payloads p.generation p.queue ≡ chunks
    → NotNewer p.generation p.queue
    → IsLinked (record (begin_stretch chunks s) { pump = p })
unfolding begin_stretch ingested
begin_stretch-IsLinked chunks s p h e same queued =
    let (none_held, held) = NotNewer-payloads s.pump.generation s.held h.handled in
    let older : (s.consumer.active_generation == s.pump.generation + 1) ≡ false =
      ground (arith, h.active) in
    record {
      whole =
          Whole-later (s.stretch ∷ s.past) (chunks ∷ s.stretch ∷ s.past) s.consumer.log
            (λ xs o. unfold FromOne in inr o) h.whole;
      active = omega (arith, h.active, e);
      single = h.single;
      queued = queued;
      handled = rw e held;
      linked = rw (same, e, older, none_held) refl;
    }

start_input_session-queue :
    (p : Pump)
    → ((start_input_session p).generation ≡ p.generation + 1)
      × ((start_input_session p).queue ≡ session_started (p.generation + 1) ∷ [])
unfolding start_input_session next_generation discard_queued_input
start_input_session-queue p = elim (Bool-cases (dropped_chunks p.queue == 0)) [
  | inl e ↦ rw e (refl, refl)
  | inr e ↦ rw e (refl, refl)
]

pub session-IsLinked : (s : System) → IsLinked s → IsLinked (step session s)
unfolding step
session-IsLinked s h =
    let (e, queue) = start_input_session-queue s.pump in
    begin_stretch-IsLinked [] s (start_input_session s.pump) h e
      (rw queue (unfold payloads in refl)) (rw queue (unfold NotNewer in tt))

-- `put_fresh` in a queue with room, and in a full one.
put_fresh-room :
    (raw : List ℕ) (at : ℕ) (p : Pump)
    → ltb (length p.queue) max_queue ≡ true
    → ((put_fresh raw at p).generation ≡ p.generation)
      × ((put_fresh raw at p).queue
          ≡ p.queue
            ++ (chunk (record { raw = raw; received_at = at; generation = p.generation }) ∷ []))
unfolding put_fresh
put_fresh-room raw at p e = rw e (refl, refl)

put_fresh-full :
    (raw : List ℕ) (at : ℕ) (p : Pump)
    → ltb (length p.queue) max_queue ≡ false
    → let g = p.generation + 1 in
      ((put_fresh raw at p).generation ≡ g)
      × ((put_fresh raw at p).queue
          ≡ session_started g ∷ chunk (record { raw = raw; received_at = at; generation = g }) ∷ [])
unfolding put_fresh next_generation discard_queued_input
put_fresh-full raw at p e = elim (Bool-cases (dropped_chunks p.queue == 0)) [
  | inl e' ↦ rw (e, e') (refl, refl)
  | inr e' ↦ rw (e, e') (refl, refl)
]

own_payload :
    (raw : List ℕ) (at g : ℕ)
    → payloads g (chunk (record { raw = raw; received_at = at; generation = g }) ∷ []) ≡ raw ∷ []
unfolding payloads
own_payload raw at g = let same : (g == g) ≡ true = ground arith in rw same refl

FromOne-longer :
    (stretch more : List (List ℕ)) (past : List (List (List ℕ))) (xs : List (List ℕ))
    → FromOne xs (stretch ∷ past)
    → FromOne xs ((stretch ++ more) ∷ past)
unfolding FromOne
FromOne-longer stretch more past xs (inl (rest, e)) =
    inl (rest ++ more, rw e (append_assoc xs rest more))
FromOne-longer stretch more past xs (inr o) = inr o

longer-IsLinked :
    (raw : List ℕ) (at : ℕ) (s : System) (p : Pump)
    → IsLinked s
    → p.generation ≡ s.pump.generation
    → p.queue
      ≡ s.pump.queue
        ++ (chunk (record { raw = raw; received_at = at; generation = s.pump.generation }) ∷ [])
    → IsLinked (record s { stretch = s.stretch ++ (raw ∷ []); pump = p })
longer-IsLinked raw at s p h e queue =
    let g = s.pump.generation in
    let new : List Item = chunk (record { raw = raw; received_at = at; generation = g }) ∷ [] in
    record {
      whole =
          Whole-later (s.stretch ∷ s.past) ((s.stretch ++ (raw ∷ [])) ∷ s.past) s.consumer.log
            (FromOne-longer s.stretch (raw ∷ []) s.past) h.whole;
      active = rw e h.active;
      single = h.single;
      queued =
          rw (e, queue)
            (NotNewer-append g s.pump.queue new h.queued (unfold NotNewer in (omega arith, tt)));
      handled = rw e h.handled;
      linked =
          rw (e, queue, payloads-append g s.pump.queue new, own_payload raw at g)
            (sym (
                append_assoc (ingested g s.consumer) (payloads g s.held ++ payloads g s.pump.queue)
                  (raw ∷ [])
                ∙ ap (λ xs. ingested g s.consumer ++ xs)
                    (append_assoc (payloads g s.held) (payloads g s.pump.queue) (raw ∷ [])))
              ∙ ap (λ xs. xs ++ (raw ∷ [])) h.linked);
    }

sent_room :
    (raw : List ℕ) (s : System)
    → ltb (length s.pump.queue) max_queue ≡ true
    → sent raw s ≡ record s { stretch = s.stretch ++ (raw ∷ []) }
unfolding sent
sent_room raw s e = rw e refl

sent_full :
    (raw : List ℕ) (s : System)
    → ltb (length s.pump.queue) max_queue ≡ false
    → sent raw s ≡ begin_stretch (raw ∷ []) s
unfolding sent
sent_full raw s e = rw e refl

pub received-IsLinked :
    (raw : List ℕ) (at : ℕ) (s : System) → IsLinked s → IsLinked (step (received raw at) s)
unfolding step receive
received-IsLinked raw at s h =
    let p : Pump = record s.pump { last_data_at = some at } in
    let received_at : System → System = λ t. record t { pump = put_fresh raw at p } in
    elim (Bool-cases (ltb (length s.pump.queue) max_queue)) [
      | inl room ↦
          let (e, queue) = put_fresh-room raw at p room in
          subst IsLinked (ap received_at (sym (sent_room raw s room)))
            (longer-IsLinked raw at s (put_fresh raw at p) h e queue)
      | inr full ↦
          let (e, queue) = put_fresh-full raw at p full in
          subst IsLinked (ap received_at (sym (sent_full raw s full))) (
            begin_stretch-IsLinked (raw ∷ []) s (put_fresh raw at p) h e
              (rw (e, queue) (unfold payloads in own_payload raw at (s.pump.generation + 1)))
              (rw (e, queue) (unfold NotNewer in (omega arith, tt))))
    ]
