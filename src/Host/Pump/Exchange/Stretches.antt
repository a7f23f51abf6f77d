-- ===== src/Host/Pump/Exchange/Stretches.antt =====
-- No bytes of two stretches of the source are parsed as one stream.
use mowgli_lora_link.Prelude.{
  ℕ, ◌≤◌, ◌≡◌, inl, inr, refl, sym, ◌∙◌, ap, arith, List, [], ◌∷◌, ◌++◌, length, append_assoc,
  append-nil, true, false, ◌==◌, if_elim, if_cases, Bool-cases, subst,
}
use mowgli_lora_link.Host.Pump.{
  Item, chunk, session_started, failure, finished, Consumer, adopt, route, consume,
}
use mowgli_lora_link.Host.Pump.Exchange.{
  Event, session, received, taken, finished_round, System, take_next, take_first, handle, step, run,
}
use mowgli_lora_link.Host.Pump.Splicing.{fed, FromOne, Whole, payloads, payloads-append, NotNewer}
use mowgli_lora_link.Host.Pump.Exchange.Reader.{
  ingested, IsLinked, session-IsLinked, received-IsLinked,
}

NotNewer-cons :
    (g : ℕ) (item : Item) (items : List Item)
    → NotNewer g (item ∷ items)
    → NotNewer g (item ∷ []) × NotNewer g items
unfolding NotNewer
NotNewer-cons g (chunk c) items h = ((h.0, tt), h.1)
NotNewer-cons g (session_started k) items h = (tt, h)
NotNewer-cons g (failure text) items h = (tt, h)
NotNewer-cons g finished items h = (tt, h)

taken_next-IsLinked :
    (s : System) (queue : List Item)
    → s.pump.queue ≡ queue
    → s.held ≡ []
    → IsLinked s
    → let t = take_next s.pump queue in IsLinked (record s { pump = t.0; held = t.1 })
unfolding take_next payloads
taken_next-IsLinked s [] e none_held h = record {
  whole = h.whole;
  active = h.active;
  single = omega arith;
  queued = h.queued;
  handled = unfold NotNewer in tt;
  linked =
      subst
        (λ held.
          ingested s.pump.generation s.consumer
            ++ (payloads s.pump.generation held ++ payloads s.pump.generation s.pump.queue)
          ≡ s.stretch)
        none_held h.linked;
}
taken_next-IsLinked s (item ∷ items) e none_held h =
    let g = s.pump.generation in
    let (first, others) = NotNewer-cons g item items (subst (NotNewer g) e h.queued) in
    record {
      whole = h.whole;
      active = h.active;
      single = omega arith;
      queued = others;
      handled = first;
      linked =
          ap (λ xs. ingested g s.consumer ++ xs) (sym (payloads-append g (item ∷ []) items))
          ∙ subst
              (λ (held : List Item).
                ingested g s.consumer ++ (payloads g held ++ payloads g (item ∷ items)) ≡ s.stretch)
              none_held
              (subst
                (λ queue.
                  ingested g s.consumer ++ (payloads g s.held ++ payloads g queue) ≡ s.stretch)
                e h.linked);
    }

taken_from-IsLinked :
    (s : System) (held : List Item)
    → s.held ≡ held
    → IsLinked s
    → let t = take_first s.pump held in IsLinked (record s { pump = t.0; held = t.1 })
unfolding take_first
taken_from-IsLinked s [] e h = taken_next-IsLinked s s.pump.queue refl e h
taken_from-IsLinked s (item ∷ held) e h = subst (λ held. IsLinked (record s { held = held })) e h

taken-IsLinked : (s : System) → IsLinked s → IsLinked (step taken s)
unfolding step
taken-IsLinked s h = taken_from-IsLinked s s.held refl h

-- The loop adopts the generation: what is ingested of it stays, and of another one it is forgotten.
record Adopted (g : ℕ) (stretches : List (List (List ℕ))) (c c' : Consumer) : Type 0 where
  active : c'.active_generation ≡ g
  same : fed c'.log ≡ ingested g c
  whole : Whole stretches c'.log

adopt-Adopted :
    (g : ℕ) (stretches : List (List (List ℕ))) (c : Consumer)
    → Whole stretches c.log
    → Adopted g stretches c (adopt g c)
unfolding adopt ingested
adopt-Adopted g stretches c h =
    if_cases (Adopted g stretches c) (g == c.active_generation) _ _
      (λ e.
        let same : (c.active_generation == g) ≡ true = ground arith in
        record { active = ground arith; same = rw same refl; whole = h })
      (λ e.
        let other : (c.active_generation == g) ≡ false = ground arith in
        record { active = refl; same = unfold fed in rw other refl; whole = unfold Whole in h })

-- What the loop does with the item that it has taken.
record Routed (g : ℕ) (item : Item) (stretches : List (List (List ℕ))) (c c' : Consumer)
    : Type 0 where
  active : c'.active_generation ≡ c.active_generation
  grown : fed c'.log ≡ fed c.log ++ payloads g (item ∷ [])
  whole : Whole stretches c'.log

route-Routed :
    (g : ℕ) (item : Item) (stretch rest : List (List ℕ)) (past : List (List (List ℕ)))
    (c : Consumer)
    → Whole (stretch ∷ past) c.log
    → stretch ≡ (fed c.log ++ payloads g (item ∷ [])) ++ rest
    → Routed g item (stretch ∷ past) c (route g item c)
unfolding route payloads
route-Routed g (chunk item) stretch rest past c h e = elim (Bool-cases (item.generation == g)) [
  | inl own ↦ rw own (record {
    active = refl;
    grown = rw own (unfold fed in refl);
    whole = unfold Whole FromOne in (inl (rest, rw own at e), h);
  })
  | inr other ↦
      rw other
        (record { active = refl; grown = rw other (sym (append-nil (fed c.log))); whole = h })
]
route-Routed g (session_started k) stretch rest past c h e =
    if_elim (Routed g (session_started k) (stretch ∷ past) c) (k == g) _ _
      (record { active = refl; grown = sym (append-nil (fed c.log)); whole = h })
      (record { active = refl; grown = sym (append-nil (fed c.log)); whole = h })
route-Routed g (failure text) stretch rest past c h e = record {
  active = refl;
  grown = sym (append-nil (fed c.log));
  whole = h;
}
route-Routed g finished stretch rest past c h e = record {
  active = refl;
  grown = sym (append-nil (fed c.log));
  whole = h;
}

-- The chunks of the generation that the loop has adopted are those it has been fed since the reset.
ingested_own : (g : ℕ) (c : Consumer) → c.active_generation ≡ g → ingested g c ≡ fed c.log
unfolding ingested
ingested_own g c e = let same : (c.active_generation == g) ≡ true = ground arith in rw same refl

handled-IsLinked :
    (s : System) (held : List Item)
    → length held ≤ 1
    → ingested s.pump.generation s.consumer
        ++ (payloads s.pump.generation held ++ payloads s.pump.generation s.pump.queue)
      ≡ s.stretch
    → NotNewer s.pump.generation s.pump.queue
    → Adopted s.pump.generation (s.stretch ∷ s.past) s.consumer (adopt s.pump.generation s.consumer)
    → IsLinked (record s { consumer = handle s.pump held s.consumer; held = [] })
unfolding handle consume payloads
handled-IsLinked s [] single linked queued adopted =
    let g = s.pump.generation in
    let c = adopt g s.consumer in
    record {
      whole = adopted.whole;
      active = omega (arith, adopted.active);
      single = omega arith;
      queued = queued;
      handled = unfold NotNewer in tt;
      linked =
          ap (λ xs. xs ++ payloads g s.pump.queue) (ingested_own g c adopted.active ∙ adopted.same)
          ∙ linked;
    }
handled-IsLinked s (item ∷ []) single linked queued adopted =
    let g = s.pump.generation in
    let c = adopt g s.consumer in
    let chunks = payloads g (item ∷ []) in
    let queue = payloads g s.pump.queue in
    let split : (fed c.log ++ chunks) ++ queue ≡ s.stretch =
      ap (λ xs. (xs ++ chunks) ++ queue) adopted.same
      ∙ append_assoc (ingested g s.consumer) chunks queue
      ∙ linked in
    let routed = route-Routed g item s.stretch queue s.past c adopted.whole (sym split) in
    record {
      whole = routed.whole;
      active = omega (arith, routed.active, adopted.active);
      single = omega arith;
      queued = queued;
      handled = unfold NotNewer in tt;
      linked =
          ap (λ xs. xs ++ queue)
            (ingested_own g (route g item c) (routed.active ∙ adopted.active) ∙ routed.grown)
          ∙ split;
    }
handled-IsLinked s (item ∷ other ∷ held) single linked queued adopted =
    absurd (omega (arith, single))

finished_round-IsLinked : (s : System) → IsLinked s → IsLinked (step finished_round s)
unfolding step
finished_round-IsLinked s h = handled s.held refl
  where
    g : ℕ
    g = s.pump.generation

    stretches : List (List (List ℕ))
    stretches = s.stretch ∷ s.past

    adopted : Adopted g stretches s.consumer (adopt g s.consumer)
    adopted = adopt-Adopted g stretches s.consumer h.whole

    handled :
        (held : List Item)
        → s.held ≡ held
        → IsLinked (record s { consumer = handle s.pump held s.consumer; held = [] })
    handled held e =
        handled-IsLinked s held (subst (λ xs. length xs ≤ 1) e h.single)
          (subst
            (λ xs. ingested g s.consumer ++ (payloads g xs ++ payloads g s.pump.queue) ≡ s.stretch)
            e h.linked)
          h.queued adopted

-- However the reader and the loop alternate and whatever the source sends: each time the loop ingests a
-- chunk, what the parser has been given since its last reset is the beginning of one stretch, and so
-- of one session of the source and without a gap; and of the latest stretch all is ingested, taken or
-- in the queue, in its order, if this holds before.
pub run-IsLinked : (events : List Event) (s : System) → IsLinked s → IsLinked (run events s)
unfolding run
run-IsLinked [] s h = h
run-IsLinked (session ∷ events) s h = run-IsLinked events (step session s) (session-IsLinked s h)
run-IsLinked (received raw at ∷ events) s h =
    run-IsLinked events (step (received raw at) s) (received-IsLinked raw at s h)
run-IsLinked (taken ∷ events) s h = run-IsLinked events (step taken s) (taken-IsLinked s h)
run-IsLinked (finished_round ∷ events) s h =
    run-IsLinked events (step finished_round s) (finished_round-IsLinked s h)
