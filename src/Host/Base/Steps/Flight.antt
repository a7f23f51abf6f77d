-- ===== src/Host/Base/Steps/Flight.antt =====
-- The send that the base service waits for, and those that the transport owes an outcome.
use mowgli_lora_link.Prelude.{
  ℕ, ◌-◌, ◌≤◌, ◌≡◌, ◌⊎◌, refl, sym, ◌∙◌, ap, arith, List, [], ◌∷◌, ◌++◌, length, true, false, not,
  ◌&&◌, ◌==◌, if_cases, if_elim, Option, none, some, Result, ok, err, inl, inr, leb, subst,
}
use mowgli_lora_link.Application.Codec.{Frame, encode}
use mowgli_lora_link.Application.Reassembler.{transport_ttl}
use mowgli_lora_link.Application.Rtcm.{fragment}
use mowgli_lora_link.Host.Parser.{RtcmFrame}
use mowgli_lora_link.Host.Modem.{
  Port, Transport, Tx, sent, not_sent, uncertain, Outcome, returned, raised,
}
use mowgli_lora_link.Host.Modem.Session.{ready_for_send, send_air, take_tx_outcomes}
use mowgli_lora_link.Host.Modem.Tick.{tick}
use mowgli_lora_link.Host.Modem.Ledger.{sends, numbers, ledger, Kept}
use mowgli_lora_link.Host.Modem.Openings.{IsOpened, Kept-IsOpened, tick-Kept}
use mowgli_lora_link.Host.Modem.Sends.{Sent, send_air-Sent}
use mowgli_lora_link.Host.Base.{
  BaseService, Waiting, flying, is_idle, update_rates, update_queue_metrics,
}
use mowgli_lora_link.Host.Base.Steps.{
  settle, is_flying, settle_all, adopt_session, drop_stale, refill, enter_fragments,
  next_message_id, after_send, after_encode, send_first, send_next, finish, proceed, after_outcomes,
  after_tick, step,
}

-- The number that the service waits for, if there is one.
abbrev pub flight : Option ℕ → List ℕ
flight none = []
flight (some n) = n ∷ []

module _ {W : Type 0} where
  -- The service waits exactly for the send that is in the window or whose outcome is reported; a host
  -- session that it does not know has no send in the window.
  pub record IsTracked (t : Transport W) (session : ℕ) (f : Option ℕ) : Type 0 where
    pub window : length t.pending ≤ 1
    pub opened : IsOpened t
    pub tracked : ledger t ≡ flight f
    pub session_known : (t.session ≡ session) ⊎ (sends t.pending ≡ [])

  abbrev pub Tracks : BaseService W → Type 0
  Tracks s = IsTracked s.transport s.session s.in_flight

  Kept-IsTracked :
      (t t' : Transport W) (session : ℕ) (f : Option ℕ)
      → Kept t t'
      → IsTracked t session f
      → IsTracked t' session f
  Kept-IsTracked t t' session f h k = record {
    window = h.window;
    opened = Kept-IsOpened t t' h k.opened;
    tracked = h.same_ledger ∙ k.tracked;
    session_known = known h.continues k.session_known;
  }
    where
      known :
          ((t'.session ≡ t.session) × (sends t'.pending ≡ sends t.pending))
            ⊎ (sends t'.pending ≡ [])
          → (t.session ≡ session) ⊎ (sends t.pending ≡ [])
          → (t'.session ≡ session) ⊎ (sends t'.pending ≡ [])
      known (inr e) k = inr e
      known (inl (same, in_window)) (inl k) = inl (same ∙ k)
      known (inl (same, in_window)) (inr k) = inr (in_window ∙ k)

-- Every outcome is that of the send which is waited for.
pub AllExpected : List (ℕ × Tx) → Option ℕ → Type 0
AllExpected [] f = Unit
AllExpected ((sequence, verdict) ∷ outcomes) f =
    (is_flying sequence f ≡ true) × AllExpected outcomes none

module _ {W : Type 0} where
  -- What the loop over the outcomes leaves alone, and what is waited for behind it.
  record Settled (s s' : BaseService W) (open_sends : List ℕ) : Type 0 where
    transport : s'.transport ≡ s.transport
    session : s'.session ≡ s.session
    waits : flight s'.in_flight ≡ open_sends

  settle-same :
      (verdict : Tx) (s : BaseService W)
      → ((settle verdict s).transport ≡ s.transport)
        × ((settle verdict s).session ≡ s.session)
        × ((settle verdict s).in_flight ≡ s.in_flight)
  unfolding settle
  settle-same sent s = (refl, refl, refl)
  settle-same not_sent s = (refl, refl, refl)
  settle-same uncertain s = (refl, refl, refl)

  settle_all-Settled :
      (outcomes : List (ℕ × Tx)) (s : BaseService W) (open_sends : List ℕ)
      → numbers outcomes ++ open_sends ≡ flight s.in_flight
      → Settled s (settle_all outcomes s) open_sends × AllExpected outcomes s.in_flight
  unfolding settle_all AllExpected is_flying
  settle_all-Settled [] s open_sends e =
      (record { transport = refl; session = refl; waits = sym e }, tt)
  settle_all-Settled ((sequence, verdict) ∷ outcomes) s open_sends e =
      let (expected, others) = first_expected s.in_flight e in
      let landed : BaseService W = record s { in_flight = none } in
      let (transport, session, in_flight) = settle-same verdict landed in
      let (settled, rest) =
        settle_all-Settled outcomes (settle verdict landed) open_sends
          (others ∙ sym (ap flight in_flight)) in
      (
        rw expected (record {
          transport = settled.transport ∙ transport;
          session = settled.session ∙ session;
          waits = settled.waits;
        }),
        (expected, subst (AllExpected outcomes) in_flight rest),
      )
    where
      first_expected :
          (f : Option ℕ)
          → sequence ∷ (numbers outcomes ++ open_sends) ≡ flight f
          → (is_flying sequence f ≡ true) × (numbers outcomes ++ open_sends ≡ [])
      first_expected none e = cc
      first_expected (some n) e = let same : sequence ≡ n = cc in (ground arith, cc)

  -- The service knows the session of the transport, and no outcome waits to be taken.
  record IsAdopted (s : BaseService W) : Type 0 where
    tracks : Tracks s
    known : s.transport.session ≡ s.session
    taken : s.transport.tx_outcomes ≡ []

  adopt_session-IsAdopted :
      (s : BaseService W) → Tracks s → s.transport.tx_outcomes ≡ [] → IsAdopted (adopt_session s)
  unfolding adopt_session
  adopt_session-IsAdopted s h e =
      if_cases IsAdopted (s.transport.session == s.session) _ _
        (λ same. record { tracks = h; known = ground arith; taken = e })
        (λ other. record {
          tracks = record {
            window = h.window;
            opened = h.opened;
            tracked = rw (e, no_send h.session_known (λ k. not_same other k)) refl;
            session_known = inl refl;
          };
          known = refl;
          taken = e;
        })
    where
      no_send : {P Q : Type 0} → P ⊎ Q → ¬ P → Q
      no_send (inl p) k = absurd (k p)
      no_send (inr q) k = q

      not_same : (s.transport.session == s.session) ≡ false → ¬ (s.transport.session ≡ s.session)
      not_same other k = ground arith

  drop_stale-IsAdopted : (now : ℕ) (s : BaseService W) → IsAdopted s → IsAdopted (drop_stale now s)
  unfolding drop_stale
  drop_stale-IsAdopted now s h = record { tracks = h.tracks; known = h.known; taken = h.taken }

  enter_fragments-IsAdopted :
      (at : ℕ) (r : Result (List Frame)) (s : BaseService W)
      → IsAdopted s
      → IsAdopted (enter_fragments at r s)
  unfolding enter_fragments
  enter_fragments-IsAdopted at (err e) s h = record {
    tracks = h.tracks;
    known = h.known;
    taken = h.taken;
  }
  enter_fragments-IsAdopted at (ok frames) s h = record {
    tracks = h.tracks;
    known = h.known;
    taken = h.taken;
  }

  refill-IsAdopted :
      (queue : List RtcmFrame) (s : BaseService W) → IsAdopted s → IsAdopted (refill queue s)
  unfolding refill
  refill-IsAdopted [] s h = h
  refill-IsAdopted (frame ∷ queue) s h =
      let id = next_message_id s.message_id in
      if_elim IsAdopted (length s.fragments == 0) _ _
        (enter_fragments-IsAdopted frame.received_at (fragment frame.raw s.session id 0)
          (record s { queue = queue; message_id = id })
          (record { tracks = h.tracks; known = h.known; taken = h.taken }))
        h

  measured-Tracks : (now : ℕ) (s : BaseService W) → Tracks s → Tracks (update_queue_metrics now s)
  unfolding update_queue_metrics
  measured-Tracks now s h = h

  rated-Tracks : (now : ℕ) (s : BaseService W) → Tracks s → Tracks (update_rates now s)
  unfolding update_rates
  rated-Tracks now s h = h

module _ {W : Type 0} (port : Port W) where
  after_send-Tracks :
      (now size : ℕ) (waiting : Waiting) (s : BaseService W) (r : Transport W × Outcome (Option ℕ))
      → IsAdopted s
      → s.in_flight ≡ none
      → Sent s.transport r
      → Tracks (after_send port now size waiting r s).0
  unfolding after_send Sent
  after_send-Tracks now size waiting s (t, raised e) h f k =
      Kept-IsTracked s.transport t s.session s.in_flight k h.tracks
  after_send-Tracks now size waiting s (t, returned none) h f k =
      Kept-IsTracked s.transport t s.session s.in_flight k h.tracks
  after_send-Tracks now size waiting s (t, returned (some n)) h f k = record {
    window = k.window;
    opened = inl k.connected;
    tracked = k.entered ∙ ap (λ xs. xs ++ (n ∷ [])) (h.tracks.tracked ∙ ap flight f);
    session_known = inl (k.session ∙ h.known);
  }

  after_encode-Tracks :
      (now : ℕ) (waiting : Waiting) (r : Result (List ℕ)) (s : BaseService W)
      → IsAdopted s
      → s.in_flight ≡ none
      → Tracks (after_encode port now waiting r s).0
  unfolding after_encode
  after_encode-Tracks now waiting (err e) s h f = h.tracks
  after_encode-Tracks now waiting (ok raw) s h f =
      after_send-Tracks now (length raw) waiting s (send_air port raw s.transport) h f
        (send_air-Sent port raw s.transport h.tracks.window)

  send_first-Tracks :
      (now : ℕ) (fragments : List Waiting) (s : BaseService W)
      → IsAdopted s
      → s.in_flight ≡ none
      → Tracks (send_first port now fragments s).0
  unfolding send_first
  send_first-Tracks now [] s h f = h.tracks
  send_first-Tracks now ((fr, at) ∷ fragments) s h f =
      if_elim (λ (x : BaseService W × Outcome (Unit {0})). Tracks x.0)
        (leb transport_ttl (now - at)) _ _ h.tracks
        (after_encode-Tracks now (fr, at) (encode (record fr { source_age_ms = now - at }))
          (record s { fragments = fragments })
          (record { tracks = h.tracks; known = h.known; taken = h.taken }) f)

  landed : (f : Option ℕ) → (flying f == 0) ≡ true → f ≡ none
  unfolding flying
  landed none e = refl
  landed (some n) e = ground arith

  send_next-Tracks : (now : ℕ) (s : BaseService W) → IsAdopted s → Tracks (send_next port now s).0
  unfolding send_next
  send_next-Tracks now s h =
      if_cases (λ (x : BaseService W × Outcome (Unit {0})). Tracks x.0)
        (flying s.in_flight == 0 && ready_for_send s.transport) _ _
        (λ free. send_first-Tracks now s.fragments s h (landed s.in_flight (ground arith)))
        (λ busy. h.tracks)

  finish-Tracks :
      (now : ℕ) (r : BaseService W × Outcome (Unit {0})) → Tracks r.0 → Tracks (finish port now r).0
  unfolding finish
  finish-Tracks now (s, raised e) h = h
  finish-Tracks now (s, returned u) h =
      measured-Tracks now (update_rates now s) (rated-Tracks now s h)

  proceed-Tracks :
      (now : ℕ) (s : BaseService W)
      → Tracks s
      → s.transport.tx_outcomes ≡ []
      → Tracks (proceed port now s).0
  unfolding proceed
  proceed-Tracks now s h e =
      let fresh = drop_stale now (adopt_session s) in
      let adopted = drop_stale-IsAdopted now (adopt_session s) (adopt_session-IsAdopted s h e) in
      if_elim (λ (x : BaseService W × Outcome (Unit {0})). Tracks x.0)
        (not fresh.transport.connected) _ _ (measured-Tracks now fresh adopted.tracks)
        (finish-Tracks now (send_next port now (refill fresh.queue fresh)) (
          send_next-Tracks now (refill fresh.queue fresh)
            (refill-IsAdopted fresh.queue fresh adopted)))

  -- The outcomes have been taken.
  taken : Transport W → Transport W
  taken t = record t { tx_outcomes = [] }

  after_tick-Tracks :
      (now : ℕ) (r : Transport W × Outcome (List (List ℕ))) (s : BaseService W)
      → IsTracked r.0 s.session s.in_flight
      → Tracks (after_tick port now r s).0
  unfolding after_tick after_outcomes take_tx_outcomes taken
  after_tick-Tracks now (t, raised e) s h = h
  after_tick-Tracks now (t, returned payloads) s h =
      let (settled, expected) =
        settle_all-Settled t.tx_outcomes (record s { transport = taken t }) (sends t.pending)
          h.tracked in
      let behind = settle_all t.tx_outcomes (record s { transport = taken t }) in
      proceed-Tracks now behind
        (rw (settled.transport, settled.session)
          (record {
            window = h.window;
            opened = h.opened;
            tracked = sym settled.waits;
            session_known = h.session_known;
          }))
        (ap (λ (x : Transport W). x.tx_outcomes) settled.transport)

  -- If the service waits exactly for the send that the transport owes an outcome, it does so after
  -- `step`, whatever the port and the modem do and also when the call raises: no send is forgotten over
  -- a disconnect, a new session or a failed write, and at most one is in flight. The outcomes that the
  -- transport has reported after its `tick` are all of the send that the service waits for.
  pub step-Tracks :
      (now : ℕ) (s : BaseService W)
      → IsTracked s.transport s.session s.in_flight
      → IsTracked
          (step port now s).0.transport
          (step port now s).0.session
          (step port now s).0.in_flight
        × AllExpected (tick port (is_idle s) s.transport).0.tx_outcomes s.in_flight
  unfolding step
  step-Tracks now s h =
      let ticked = tick port (is_idle s) s.transport in
      let kept = tick-Kept port (is_idle s) s.transport h.window h.opened in
      let tracked = Kept-IsTracked s.transport ticked.0 s.session s.in_flight kept h in
      (
        after_tick-Tracks now ticked s tracked,
        (settle_all-Settled ticked.0.tx_outcomes s (sends ticked.0.pending) tracked.tracked).1,
      )
