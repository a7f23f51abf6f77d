-- ===== src/Application/StopCache/Safety.antt =====
-- When the mock state stops, and what frames do to it.
use mowgli_lora_link.Prelude.{
  same_bytes, ◌+◌, ◌≤◌, ◌<◌, ◌≡◌, ◌⊎◌, inl, inr, refl, arith, List, [], ◌∷◌, length, true, false,
  ◌==◌, none, some, Error, ok, err, if◌then◌else◌, if_elim, Bool-cases, Result-cases, Option-cases,
}
use mowgli_lora_link.Dict.{num_key, pair_key, lookup, insert_last}
use mowgli_lora_link.Dict.Laws.{length-trim}
use mowgli_lora_link.Application.Codec.{Frame}
use mowgli_lora_link.Application.Bodies.{StopRequestBody, decode_stop}
use mowgli_lora_link.Application.StopCache.{
  StopCache, StopDecision, Cached, State, running, stopped, Ack, applied, already_stopped, expired,
  wrong_target_session, stale_id, unsupported_command, stop_request, stop_command, key_of, remember,
  high_water_of, apply_fresh, apply_request, apply_new, apply_cached, decide, apply,
}

pub apply_new_err :
    (c : StopCache) (f : Frame) {e : Error}
    → decode_stop f.body ≡ err e
    → apply_new c f ≡ remember c f unsupported_command
unfolding apply_new
apply_new_err c f h = rw (h, apply_new)

pub apply_new_ok :
    (c : StopCache) (f : Frame) {r : StopRequestBody}
    → decode_stop f.body ≡ ok r
    → apply_new c f ≡ apply_request c f r
unfolding apply_new
apply_new_ok c f h = rw (h, apply_new)

pub decide_new :
    (c : StopCache) (f : Frame) → lookup (key_of f) c.cache ≡ none → decide c f ≡ apply_new c f
unfolding decide
decide_new c f h = rw (h, decide)

pub decide_cached :
    (c : StopCache) (f : Frame) {entry : Cached}
    → lookup (key_of f) c.cache ≡ some entry
    → decide c f ≡ apply_cached c f entry
unfolding decide
decide_cached c f h = rw (h, decide)

-- A predicate of the state before, the state after and the decision that holds on every path.
pub decide_induction {ℓ} :
    (P : StopCache × StopDecision → Type ℓ) (c : StopCache) (f : Frame)
    → ((entry : Cached) → lookup (key_of f) c.cache ≡ some entry → P (apply_cached c f entry))
    → (lookup (key_of f) c.cache ≡ none
        → (e : Error) → decode_stop f.body ≡ err e
        → P (remember c f unsupported_command))
    → (lookup (key_of f) c.cache ≡ none
        → (r : StopRequestBody) → decode_stop f.body ≡ ok r
        → P (apply_request c f r))
    → P (decide c f)
decide_induction P c f cached bad request = elim (Option-cases (lookup (key_of f) c.cache)) [
  | inr (entry, old) ↦ rw (decide_cached c f old) (cached entry old)
  | inl new ↦ elim (Result-cases (decode_stop f.body)) [
    | inr (e, failed) ↦ rw (decide_new c f new, apply_new_err c f failed) (bad new e failed)
    | inl (r, decoded) ↦ rw (decide_new c f new, apply_new_ok c f decoded) (request new r decoded)
  ]
]

-- The conditions under which a frame stops the mock.
pub record Authorised (c : StopCache) (f : Frame) : Type 0 where
  pub request : StopRequestBody
  pub decoded : decode_stop f.body ≡ ok request
  pub addressed : request.target_session ≡ c.local_session
  pub is_stop : request.command ≡ stop_command
  pub in_time : f.source_age_ms ≤ c.ttl_ms
  pub new_id : high_water_of c f.sender_session < f.message_id
  pub was_running : c.state ≡ running

apply_request_authorised :
    (c : StopCache) (f : Frame) (r : StopRequestBody)
    → (apply_request c f r).1.applied_now ≡ true
    → (r.target_session ≡ c.local_session)
      × (r.command ≡ stop_command)
      × (f.source_age_ms ≤ c.ttl_ms)
      × (high_water_of c f.sender_session < f.message_id)
      × (c.state ≡ running)
unfolding apply_request
apply_request_authorised c f r h = ground arith

apply_cached-applied_now :
    (c : StopCache) (f : Frame) (entry : Cached) → (apply_cached c f entry).1.applied_now ≡ false
unfolding apply_cached
apply_cached-applied_now c f entry = ground arith

remember-applied_now :
    (c : StopCache) (f : Frame) (a : Ack) → (remember c f a).1.applied_now ≡ false
unfolding remember
remember-applied_now c f a = refl

-- What one frame may do: it stops the mock and is counted, or it leaves both as they are.
pub record Effect (c : StopCache) (p : StopCache × StopDecision) : Type 0 where
  pub counted : p.0.apply_count ≡ c.apply_count + (if p.1.applied_now then 1 else 0)
  pub latched : p.0.state ≡ (if p.1.applied_now then stopped else c.state)
  pub was_running : c.state ≡ (if p.1.applied_now then running else c.state)
  pub bounded : length c.cache ≤ 64 → length p.0.cache ≤ 64
  pub same_session : p.0.local_session ≡ c.local_session

remember-Effect : (c : StopCache) (f : Frame) (a : Ack) → Effect c (remember c f a)
unfolding remember
remember-Effect c f a =
    let entry : Cached = record { body = f.body; result = a; state = c.state } in
    ground (arith, length-trim 64 (insert_last (key_of f) entry c.cache))

apply_cached-Effect :
    (c : StopCache) (f : Frame) (entry : Cached) → Effect c (apply_cached c f entry)
unfolding apply_cached
apply_cached-Effect c f entry =
    if_elim (λ d. Effect c (c, d)) (same_bytes entry.body f.body) _ _ (ground arith) (ground arith)

apply_fresh-Effect : (c : StopCache) (f : Frame) → Effect c (apply_fresh c f)
unfolding apply_fresh
apply_fresh-Effect c f = by_state c.state refl
  where
    entry : Ack → State → Cached
    entry a s = record { body = f.body; result = a; state = s }

    by_state : (s : State) → c.state ≡ s → Effect c (apply_fresh c f)
    by_state running e =
        ground (arith, length-trim 64 (insert_last (key_of f) (entry applied stopped) c.cache))
    by_state stopped e =
        ground
          (arith, length-trim 64 (insert_last (key_of f) (entry already_stopped c.state) c.cache))

stale-Effect :
    (c : StopCache)
    → Effect c (c, record { result = stale_id; state = c.state; applied_now = false })
stale-Effect c = ground arith

apply_request-Effect :
    (c : StopCache) (f : Frame) (r : StopRequestBody) → Effect c (apply_request c f r)
unfolding apply_request
apply_request-Effect c f r = if_elim (Effect c) _ _ _ (remember-Effect c f wrong_target_session) (
    if_elim (Effect c) _ _ _ (remember-Effect c f unsupported_command) (
      if_elim (Effect c) _ _ _ (remember-Effect c f expired)
        (if_elim (Effect c) _ _ _ (stale-Effect c) (apply_fresh-Effect c f))))

decide-Effect : (c : StopCache) (f : Frame) → Effect c (decide c f)
decide-Effect c f =
    decide_induction (λ p. Effect c p) c f (λ entry old. apply_cached-Effect c f entry)
      (λ new e failed. remember-Effect c f unsupported_command)
      (λ new r decoded. apply_request-Effect c f r)

applied_now-Authorised :
    (c : StopCache) (f : Frame) → (decide c f).1.applied_now ≡ true → Authorised c f
applied_now-Authorised c f =
    decide_induction (λ p. p.1.applied_now ≡ true → Authorised c f) c f
      (λ entry old h. cc (apply_cached-applied_now c f entry))
      (λ new e failed h. cc (remember-applied_now c f unsupported_command))
      (λ new r decoded h.
        let (addressed, is_stop, in_time, new_id, was_running) = apply_request_authorised c f r h in
        record {
          request = r;
          decoded = decoded;
          addressed = addressed;
          is_stop = is_stop;
          in_time = in_time;
          new_id = new_id;
          was_running = was_running;
        })

-- What a frame leaves that stops the mock: the stop is noted in the decision and counted.
pub record Stopped (c : StopCache) (p : StopCache × StopDecision) : Type 0 where
  pub noted : p.1.applied_now ≡ true
  pub now_stopped : p.0.state ≡ stopped
  pub counted : p.0.apply_count ≡ c.apply_count + 1

Effect-Stopped :
    (c : StopCache) (p : StopCache × StopDecision)
    → Effect c p
    → (p.1.applied_now ≡ true) ⊎ ((c.state ≡ running) × (p.0.state ≡ stopped))
    → Stopped c p
Effect-Stopped c p e (inl noted) = ground arith
Effect-Stopped c p e (inr (was, is)) = ground arith

-- If a frame takes the mock from running to stopped, or its decision says that it has been applied
-- now, both are so and the stop is counted, and the frame's request decodes, is addressed to this
-- session, is the STOP command, is in time and has a message id above the high water mark of its
-- sender, and the mock was running.
pub decide-Authorised :
    (c : StopCache) (f : Frame)
    → ((decide c f).1.applied_now ≡ true) ⊎ ((c.state ≡ running) × ((decide c f).0.state ≡ stopped))
    → Authorised c f × Stopped c (decide c f)
decide-Authorised c f h =
    let stops = Effect-Stopped c (decide c f) (decide-Effect c f) h in
    (applied_now-Authorised c f stops.noted, stops)

apply-Effect :
    (c : StopCache) (f : Frame)
    → ((apply c f).0 ≡ c) ⊎ ((d : StopDecision) × Effect c ((apply c f).0, d))
unfolding apply
apply-Effect c f = elim (Bool-cases (f.typ == stop_request)) [
  | inl stop ↦ inr ((decide c f).1, rw (stop, apply) (decide-Effect c f))
  | inr other ↦ inl (rw (other, apply))
]

-- The frames that arrive, one after the other; exceptions leave the state as it is.
unfoldable pub run : StopCache → List Frame → StopCache
run c [] = c
run c (f ∷ fs) = run (apply c f).0 fs

-- What any number of frames may do: stop the mock at most once.
pub record Latched (c c' : StopCache) : Type 0 where
  pub stays_stopped : c.state ≡ stopped → (c'.state ≡ stopped) × (c'.apply_count ≡ c.apply_count)
  pub at_most_once : (c.apply_count ≤ c'.apply_count) × (c'.apply_count ≤ c.apply_count + 1)
  pub counted : c'.state ≡ running → c'.apply_count ≡ c.apply_count
  pub counts_the_stop : c.state ≡ running → c'.state ≡ stopped → c'.apply_count ≡ c.apply_count + 1
  pub bounded : length c.cache ≤ 64 → length c'.cache ≤ 64
  pub same_session : c'.local_session ≡ c.local_session

Latched-refl : (c : StopCache) → Latched c c
Latched-refl c = ground arith

Latched-Effect : (c c' : StopCache) (d : StopDecision) → Effect c (c', d) → Latched c c'
Latched-Effect c c' d e = ground arith

apply-Latched : (c : StopCache) (f : Frame) → Latched c (apply c f).0
apply-Latched c f = elim (apply-Effect c f) [
  | inl same ↦ rw same (Latched-refl c)
  | inr (d, e) ↦ Latched-Effect c (apply c f).0 d e
]

Latched-trans : (a b c : StopCache) → Latched a b → Latched b c → Latched a c
Latched-trans a b c h k = ground arith

-- Whatever frames arrive, a stopped mock stays stopped, a running one is stopped at most once and
-- each stop is counted, the session stays as it is, and a reply cache of at most 64 entries keeps
-- to them.
pub run-Latched : (c : StopCache) (fs : List Frame) → Latched c (run c fs)
unfolding run
run-Latched c [] = Latched-refl c
run-Latched c (f ∷ fs) =
    Latched-trans c (apply c f).0 (run (apply c f).0 fs) (apply-Latched c f)
      (run-Latched (apply c f).0 fs)
