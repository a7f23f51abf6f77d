-- ===== src/Application/StopCache/Replies.antt =====
-- The answer to a repeated request.
use mowgli_lora_link.Prelude.{
  same_bytes_self, ◌+◌, ◌≡◌, refl, arith, true, false, not, ◌==◌, ltb, leb, none, some, ok,
  if_cases, ◌∙◌,
}
use mowgli_lora_link.Dict.{num_key, pair_key, lookup, insert, insert_last, trim}
use mowgli_lora_link.Dict.Laws.{lookup-trim_last}
use mowgli_lora_link.Application.Codec.{Frame}
use mowgli_lora_link.Application.Bodies.{StopRequestBody, decode_stop}
use mowgli_lora_link.Application.StopCache.{
  StopCache, StopDecision, Cached, State, running, stopped, Ack, applied, already_stopped, expired,
  wrong_target_session, unsupported_command, stale_id, stop_command, key_of, remember,
  high_water_of, apply_fresh, apply_request, apply_cached, decide,
}
use mowgli_lora_link.Application.StopCache.Safety.{
  decide_induction, decide_cached, decide_new, apply_new_ok,
}

-- The decision that a retransmission of the same request gets.
abbrev again : StopDecision → StopDecision
again d = record d { applied_now = false }

-- The state is left alone and the decision is the same, but for the note that it applied now.
abbrev pub Repeats : Frame → StopCache × StopDecision → Type 0
Repeats f p = decide p.0 f ≡ (p.0, again p.1)

remember-Repeats :
    (c : StopCache) (f : Frame) (a : Ack)
    → lookup (key_of f) c.cache ≡ none
    → Repeats f (remember c f a)
unfolding remember
remember-Repeats c f a new =
    let entry : Cached = record { body = f.body; result = a; state = c.state } in
    let c' : StopCache = record c { cache = trim 64 (insert_last (key_of f) entry c.cache) } in
    decide_cached c' f (lookup-trim_last (key_of f) entry c.cache 63 new)
    ∙ unfold apply_cached in rw (same_bytes_self f.body)

apply_fresh-Repeats :
    (c : StopCache) (f : Frame) → lookup (key_of f) c.cache ≡ none → Repeats f (apply_fresh c f)
apply_fresh-Repeats c f new = by_state c.state refl
  where
    c' : StopCache
    c' = record c { high_water = insert f.sender_session f.message_id c.high_water }

    c'' : StopCache
    c'' = record c' { state = stopped; apply_count = c.apply_count + 1 }

    by_state : (s : State) → c.state ≡ s → Repeats f (apply_fresh c f)
    by_state stopped e =
        let same : apply_fresh c f ≡ remember c' f already_stopped =
          unfold apply_fresh remember in ground arith in
        rw same (remember-Repeats c' f already_stopped new)
    by_state running e =
        let first = remember c'' f applied in
        let same : apply_fresh c f ≡ (first.0, record first.1 { applied_now = true }) =
          unfold apply_fresh in rw (e, apply_fresh) in
        rw same (remember-Repeats c'' f applied new)

-- A stale request is answered so again.
stale-Repeats :
    (c : StopCache) (f : Frame) (r : StopRequestBody)
    → lookup (key_of f) c.cache ≡ none
    → decode_stop f.body ≡ ok r
    → not (r.target_session == c.local_session) ≡ false
    → not (r.command == stop_command) ≡ false
    → ltb c.ttl_ms f.source_age_ms ≡ false
    → leb f.message_id (high_water_of c f.sender_session) ≡ true
    → Repeats f (c, record { result = stale_id; state = c.state; applied_now = false })
stale-Repeats c f r new decoded addressed is_stop in_time stale =
    decide_new c f new
    ∙ apply_new_ok c f decoded
    ∙ unfold apply_request in rw (addressed, is_stop, in_time, stale)

apply_request-Repeats :
    (c : StopCache) (f : Frame) (r : StopRequestBody)
    → lookup (key_of f) c.cache ≡ none
    → decode_stop f.body ≡ ok r
    → Repeats f (apply_request c f r)
unfolding apply_request
apply_request-Repeats c f r new decoded =
    if_cases (Repeats f) _ _ _ (λ t. remember-Repeats c f wrong_target_session new)
      (λ addressed.
        if_cases (Repeats f) _ _ _ (λ t. remember-Repeats c f unsupported_command new)
          (λ is_stop.
            if_cases (Repeats f) _ _ _ (λ t. remember-Repeats c f expired new)
              (λ in_time.
                if_cases (Repeats f) _ _ _
                  (λ stale. stale-Repeats c f r new decoded addressed is_stop in_time stale)
                  (λ t. apply_fresh-Repeats c f new))))

apply_cached-Repeats :
    (c : StopCache) (f : Frame) (entry : Cached)
    → lookup (key_of f) c.cache ≡ some entry
    → Repeats f (apply_cached c f entry)
apply_cached-Repeats c f entry old = unfold apply_cached in decide_cached c f old ∙ ground arith

-- If a request arrives a second time with no other frame in between, the cache is left as it is and
-- the result and the state of the first answer are sent again, and nothing is applied, whatever the
-- first answer was.
pub decide-repeat :
    (c : StopCache) (f : Frame)
    → decide (decide c f).0 f ≡ ((decide c f).0, record (decide c f).1 { applied_now = false })
decide-repeat c f =
    decide_induction (Repeats f) c f (apply_cached-Repeats c f)
      (λ new e failed. remember-Repeats c f unsupported_command new)
      (λ new r decoded. apply_request-Repeats c f r new decoded)
