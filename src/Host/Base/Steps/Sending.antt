-- ===== src/Host/Base/Steps/Sending.antt =====
-- What the base service puts on the air, and how many frames it keeps over a step.
use mowgli_lora_link.Prelude.{
  ℕ, ◌+◌, ◌-◌, ◌<◌, ◌≡◌, refl, arith, List, [], ◌∷◌, length, true, ◌&&◌, ◌==◌, if_cases, Option,
  none, some, Result, ok, err, leb,
}
use mowgli_lora_link.Application.Codec.{Frame, encode, decode}
use mowgli_lora_link.Application.Codec.RoundTrip.{decode-encode}
use mowgli_lora_link.Application.Reassembler.{transport_ttl}
use mowgli_lora_link.Host.Modem.{Port, Transport, Outcome, returned, raised}
use mowgli_lora_link.Host.Modem.Session.{ready_for_send, send_air}
use mowgli_lora_link.Host.Base.{BaseService, Waiting, flying}
use mowgli_lora_link.Host.Base.Steps.{after_send, after_encode, send_first, send_next}

module _ {W : Type 0} (port : Port W) where
  -- The packet `raw` is the fragment at the head of the queue, stamped with its age.
  pub record Aired (now : ℕ) (s s' : BaseService W) : Type 0 where
    pub fragment : Frame
    pub received_at : ℕ
    pub others : List Waiting
    pub raw : List ℕ
    pub head : s.fragments ≡ (fragment, received_at) ∷ others
    pub fresh : now < received_at + transport_ttl
    pub readable : decode raw ≡ ok (record fragment { source_age_ms = now - received_at })
    pub sent : s'.transport ≡ (send_air port raw s.transport).0

  -- Nothing is sent, or the fragment at the head is.
  pub data Sends (now : ℕ) (s s' : BaseService W) : Type 0 where
    silent : s'.transport ≡ s.transport → Sends now s s'
    aired : ready_for_send s.transport ≡ true → s.in_flight ≡ none → Aired now s s' → Sends now s s'

  after_send-transport :
      (now size : ℕ) (waiting : Waiting) (r : Transport W × Outcome (Option ℕ)) (s : BaseService W)
      → (after_send port now size waiting r s).0.transport ≡ r.0
  unfolding after_send
  after_send-transport now size waiting (t, raised e) s = refl
  after_send-transport now size waiting (t, returned none) s = refl
  after_send-transport now size waiting (t, returned (some n)) s = refl

  after_encode-Sends :
      (now : ℕ) (f : Frame) (at : ℕ) (others : List Waiting) (r : Result (List ℕ))
      (s : BaseService W)
      → s.fragments ≡ (f, at) ∷ others
      → now < at + transport_ttl
      → encode (record f { source_age_ms = now - at }) ≡ r
      → ready_for_send s.transport ≡ true
      → s.in_flight ≡ none
      → Sends now s (after_encode port now (f, at) r (record s { fragments = others })).0
  unfolding after_encode
  after_encode-Sends now f at others (err e) s h fresh k ready free = silent refl
  after_encode-Sends now f at others (ok raw) s h fresh k ready free = aired ready free (record {
    fragment = f;
    received_at = at;
    others = others;
    raw = raw;
    head = h;
    fresh = fresh;
    readable = (decode-encode (record f { source_age_ms = now - at }) raw k).0;
    sent =
        after_send-transport now (length raw) (f, at) (send_air port raw s.transport)
          (record s { fragments = others });
  })

  send_first-Sends :
      (now : ℕ) (waiting : List Waiting) (s : BaseService W)
      → s.fragments ≡ waiting
      → ready_for_send s.transport ≡ true
      → s.in_flight ≡ none
      → Sends now s (send_first port now waiting s).0
  unfolding send_first
  send_first-Sends now [] s h ready free = silent refl
  send_first-Sends now ((f, at) ∷ others) s h ready free =
      if_cases (λ (x : BaseService W × Outcome (Unit {0})). Sends now s x.0)
        (leb transport_ttl (now - at)) _ _ (λ stale. silent refl)
        (λ fresh.
          after_encode-Sends now f at others (encode (record f { source_age_ms = now - at })) s h
            (ground arith) refl ready free)

  no_flight : (f : Option ℕ) → (flying f == 0) ≡ true → f ≡ none
  unfolding flying
  no_flight none e = refl
  no_flight (some n) e = ground arith

  -- A call of the last part of `step` touches the transport only if it is ready for a send and nothing
  -- is in flight. Then it hands over exactly one packet, which decodes to the fragment at the head of
  -- the queue with its age, and the age is below 1000 ms.
  pub send_next-Sends : (now : ℕ) (s : BaseService W) → Sends now s (send_next port now s).0
  unfolding send_next
  send_next-Sends now s =
      if_cases (λ (x : BaseService W × Outcome (Unit {0})). Sends now s x.0)
        (flying s.in_flight == 0 && ready_for_send s.transport) _ _
        (λ free.
          send_first-Sends now s.fragments s refl (ground arith)
            (no_flight s.in_flight (ground arith)))
        (λ busy. silent refl)
