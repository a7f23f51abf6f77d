-- ===== src/Application/StopCache/Tests.antt =====
-- Concrete runs for the STOP replies.
use mowgli_lora_link.Prelude.{[], ◌∷◌, ◌≡◌, ◌≢◌, refl, sym, ◌∙◌, arith, none, true, false, inl}
use mowgli_lora_link.Dict.{num_key, pair_key, lookup, insert, insert_last, remove, trim}
use mowgli_lora_link.Application.Codec.{Frame}
use mowgli_lora_link.Application.Bodies.{decode_stop}
use mowgli_lora_link.Application.StopCache.{StopCache, running, decide, applied, stale_id, key_of}
use mowgli_lora_link.Application.StopCache.Safety.{
  Authorised, Stopped, decide-Authorised, run, Latched, run-Latched,
}
use mowgli_lora_link.Application.StopCache.Retransmissions.{decide-run}

abbrev waiting : StopCache
waiting = record {
  local_session = 9;
  ttl_ms = 1000;
  state = running;
  high_water = [];
  cache = [];
  apply_count = 0;
}

abbrev request : Frame
request = record {
  typ = 0x10;
  sender_session = 5;
  message_id = 1;
  source_age_ms = 100;
  body = 0 ∷ 0 ∷ 0 ∷ 9 ∷ 1 ∷ 3 ∷ [];
}

applies : (decide waiting request).1.applied_now ≡ true
unfolding decide decode_stop lookup insert insert_last remove trim
applies = refl

decide-Authorised_example : Authorised waiting request × Stopped waiting (decide waiting request)
decide-Authorised_example = decide-Authorised waiting request (inl applies)

run-Latched_example : Latched waiting (run waiting (request ∷ request ∷ []))
run-Latched_example = run-Latched waiting (request ∷ request ∷ [])

-- Another request of the same sender.
abbrev other : Frame
other = record request { message_id = 2 }

is_new : lookup (key_of request) waiting.cache ≡ none
unfolding lookup
is_new = refl

is_answered : (decide waiting request).1.result ≡ applied
unfolding decide decode_stop lookup insert insert_last remove trim
is_answered = refl

is_not_stale : (decide waiting request).1.result ≢ stale_id
is_not_stale e = applied_stale (sym is_answered ∙ e)
  where
    applied_stale : applied ≢ stale_id
    applied_stale h = cc

decide-run_example :
    let later = run (decide waiting request).0 (other ∷ request ∷ []) in
    decide later request ≡ (later, record (decide waiting request).1 { applied_now = false })
decide-run_example =
    decide-run waiting request (other ∷ request ∷ []) is_new is_not_stale (omega arith)
