-- ===== src/Application/StopCache/Retransmissions.antt =====
-- The answer to a request that is repeated behind other frames.
use mowgli_lora_link.Prelude.{
  ℕ, ◌+◌, ◌≤◌, ◌≡◌, ◌≢◌, refl, sym, ◌∙◌, arith, List, [], ◌∷◌, length, false, ◌==◌, none, some,
  same_bytes_self, if_elim, not, ltb, leb,
}
use mowgli_lora_link.Dict.{num_key, pair_key, PairKey, Dict, lookup, insert, insert_last, trim}
use mowgli_lora_link.Dict.Recent.{Recent, Recent-lookup, insert_last-Recent, Recent-insert_last}
use mowgli_lora_link.Application.Codec.{Frame}
use mowgli_lora_link.Application.Bodies.{StopRequestBody}
use mowgli_lora_link.Application.StopCache.{
  stop_command, high_water_of, StopCache, StopDecision, Cached, State, running, stopped, Ack,
  already_stopped, expired, wrong_target_session, unsupported_command, stale_id, stop_request,
  key_of, remember, apply_fresh, apply_request, apply_cached, decide, apply,
}
use mowgli_lora_link.Application.StopCache.Safety.{decide_induction, decide_cached, run}

-- The cache is as it was, or has got an entry under a key that it did not have.
pub data Grows (d : Dict PairKey Cached) : Dict PairKey Cached → Type 0 where
  same : Grows d d
  grown :
      (key : PairKey) (entry : Cached)
      → lookup key d ≡ none
      → Grows d (trim 64 (insert_last key entry d))

-- A frame that is new grows the cache, unless it is stale, by what was answered.
pub data Noted (f : Frame) (d : Dict PairKey Cached) (p : StopCache × StopDecision) : Type 0 where
  stale : p.1.result ≡ stale_id → p.0.cache ≡ d → Noted f d p
  noted :
      p.0.cache
        ≡ trim 64 (
            insert_last
              (key_of f)
              (record { body = f.body; result = p.1.result; state = p.1.state })
              d)
      → Noted f d p

remember-Noted : (c : StopCache) (f : Frame) (a : Ack) → Noted f c.cache (remember c f a)
unfolding remember
remember-Noted c f a = noted refl

apply_fresh-Noted : (c : StopCache) (f : Frame) → Noted f c.cache (apply_fresh c f)
apply_fresh-Noted c f = by_state c.state refl
  where
    c' : StopCache
    c' = record c { high_water = insert f.sender_session f.message_id c.high_water }

    by_state : (s : State) → c.state ≡ s → Noted f c.cache (apply_fresh c f)
    by_state running e = unfold apply_fresh remember in rw e (noted refl)
    by_state stopped e =
        let same : apply_fresh c f ≡ remember c' f already_stopped =
          unfold apply_fresh remember in ground arith in
        rw same (remember-Noted c' f already_stopped)

apply_request-Noted :
    (c : StopCache) (f : Frame) (r : StopRequestBody) → Noted f c.cache (apply_request c f r)
unfolding apply_request
apply_request-Noted c f r =
    if_elim (Noted f c.cache) (not (r.target_session == c.local_session)) _ _
      (remember-Noted c f wrong_target_session)
      (if_elim (Noted f c.cache) (not (r.command == stop_command)) _ _
        (remember-Noted c f unsupported_command)
        (if_elim (Noted f c.cache) (ltb c.ttl_ms f.source_age_ms) _ _ (remember-Noted c f expired) (
          if_elim (Noted f c.cache) (leb f.message_id (high_water_of c f.sender_session))
            (c, record { result = stale_id; state = c.state; applied_now = false }) _
            (stale refl refl) (apply_fresh-Noted c f))))

Noted-Grows :
    (f : Frame) (d : Dict PairKey Cached) (p : StopCache × StopDecision)
    → lookup (key_of f) d ≡ none
    → Noted f d p
    → Grows d p.0.cache
Noted-Grows f d p new (stale e same_cache) = rw same_cache same
Noted-Grows f d p new (noted e) = rw e (grown (key_of f) _ new)

decide-Grows : (c : StopCache) (f : Frame) → Grows c.cache (decide c f).0.cache
decide-Grows c f =
    decide_induction (λ p. Grows c.cache p.0.cache) c f (λ entry old. unfold apply_cached in same)
      (λ new e failed. Noted-Grows f c.cache _ new (remember-Noted c f unsupported_command))
      (λ new r decoded. Noted-Grows f c.cache _ new (apply_request-Noted c f r))

apply-Grows : (c : StopCache) (f : Frame) → Grows c.cache (apply c f).0.cache
unfolding apply
apply-Grows c f =
    if_elim (λ (p : StopCache × _). Grows c.cache p.0.cache) (f.typ == stop_request) _ _
      (decide-Grows c f) same

Grows-Recent :
    (n : ℕ) (key : PairKey) (v : Cached) (d d' : Dict PairKey Cached)
    → n ≤ 62
    → Grows d d'
    → Recent n key v d
    → Recent (n + 1) key v d'
Grows-Recent n key v d d' few same h = record {
  before = h.before;
  after = h.after;
  split = h.split;
  first = h.first;
  newer = omega (arith, h.newer);
}
Grows-Recent n key v d d' few (grown j w new) h =
    Recent-insert_last 64 n key v j w d h new (omega arith)

run-Recent :
    (n : ℕ) (key : PairKey) (v : Cached) (c : StopCache) (fs : List Frame)
    → n + length fs ≤ 63
    → Recent n key v c.cache
    → lookup key (run c fs).cache ≡ some v
unfolding run
run-Recent n key v c [] few h = Recent-lookup n key v c.cache h
run-Recent n key v c (f ∷ fs) few h =
    run-Recent (n + 1) key v (apply c f).0 fs (omega (arith, few))
      (Grows-Recent n key v c.cache (apply c f).0.cache (omega (arith, few)) (apply-Grows c f) h)

decide-Noted :
    (c : StopCache) (f : Frame) → lookup (key_of f) c.cache ≡ none → Noted f c.cache (decide c f)
decide-Noted c f new =
    decide_induction (Noted f c.cache) c f (λ entry old. absurd (some_none (sym new ∙ old)))
      (λ new e failed. remember-Noted c f unsupported_command)
      (λ new r decoded. apply_request-Noted c f r)
  where
    some_none : {entry : Cached} → none ≡ some entry → ⊥
    some_none h = cc

Noted-Recent :
    (f : Frame) (d : Dict PairKey Cached) (p : StopCache × StopDecision)
    → lookup (key_of f) d ≡ none
    → p.1.result ≢ stale_id
    → Noted f d p
    → Recent 0
        (key_of f)
        (record { body = f.body; result = p.1.result; state = p.1.state })
        p.0.cache
Noted-Recent f d p new answered (stale e same_cache) = absurd (answered e)
Noted-Recent f d p new answered (noted e) =
    rw e (insert_last-Recent 64 (key_of f) _ d new (omega arith))

-- If a new request gets another answer than that its id is stale, and comes again behind at most 63
-- other frames, whatever these are, it gets the same result and the same state again, nothing is
-- applied, and the mock is left as it is.
pub decide-run :
    (c : StopCache) (f : Frame) (fs : List Frame)
    → lookup (key_of f) c.cache ≡ none
    → (decide c f).1.result ≢ stale_id
    → length fs ≤ 63
    → let later = run (decide c f).0 fs in
      decide later f ≡ (later, record (decide c f).1 { applied_now = false })
decide-run c f fs new answered few =
    let first = decide c f in
    let later = run first.0 fs in
    decide_cached later f (
      run-Recent 0 (key_of f) _ first.0 fs (omega (arith, few))
        (Noted-Recent f c.cache first new answered (decide-Noted c f new)))
    ∙ unfold apply_cached in rw (same_bytes_self f.body)
