-- ===== src/Application/Reassembler/Delivery.antt =====
-- What `add` returns, and what becomes of its message.
use mowgli_lora_link.Prelude.{
  ℕ, ◌+◌, ◌≤◌, ◌<◌, ◌≡◌, arith, List, length, true, false, ltb, if_elim, none, some, ok, err,
  Option-cases, inl, inr, Result-cases, same_bytes, application_error, Bool-cases,
}
use mowgli_lora_link.Dict.{num_key, pair_key, PairKey, lookup, contains, insert}
use mowgli_lora_link.Dict.Laws.{contains-trim_last}
use mowgli_lora_link.Application.Codec.{Frame}
use mowgli_lora_link.Application.Rtcm.{valid_rtcm3, type_field, max_rtcm_frame_size}
use mowgli_lora_link.Application.Reassembler.{
  Assembly, Reassembler, Fragment, block, expire, parse_fragment, bad_shape, close, conflict, join,
  deliver, complete, take_part, repeated_part, add_part, add_to, add_new, add_fragment, add,
  transport_ttl, same_metadata,
}
use mowgli_lora_link.Application.Reassembler.Bounds.{Outcome, add_live_induction}

-- What holds of a returned frame, at the identity and the fragment that completed it.
pub record Delivered (key : PairKey) (p : Fragment) (r : Reassembler) (raw : List ℕ) : Type 0 where
  pub valid : valid_rtcm3 raw ≡ true
  pub whole : length raw ≡ p.total_length
  pub typed : type_field raw ≡ p.message_type
  pub blocked : contains key r.blocked_until ≡ true

abbrev Delivers : PairKey → Fragment → Outcome → Type 0
Delivers key p x = (raw : List ℕ) → x.1 ≡ ok (some raw) → Delivered key p x.0 raw

close-blocked :
    (key : PairKey) (a : Assembly) (r : Reassembler)
    → contains key (close key a r).blocked_until ≡ true
unfolding close block
close-blocked key a r = contains-trim_last key (a.started_at + transport_ttl) r.blocked_until 63

complete-Delivers :
    (key : PairKey) (p : Fragment) (a : Assembly) (r : Reassembler)
    → Delivers key p (complete key p a r)
complete-Delivers key p a r = elim (Result-cases (join p.count 0 a.parts)) [
  | inr (e, missing) ↦ unfold complete in rw (missing, complete) (λ raw h. cc)
  | inl (raw, joined) ↦
      unfold complete deliver in
      rw (joined, complete) (λ raw' h. ground (arith, close-blocked key a r))
]

take_part-Delivers :
    (key : PairKey) (p : Fragment) (a : Assembly) (r : Reassembler)
    → Delivers key p (take_part key p a r)
unfolding take_part
take_part-Delivers key p a r =
    let a' : Assembly = record a { parts = insert p.index p.content a.parts } in
    let r' : Reassembler = record r { items = insert key a' r.items } in
    if_elim (Delivers key p) (ltb (length a'.parts) p.count) (r', ok none) (complete key p a' r')
      (λ raw h. cc) (complete-Delivers key p a' r')

add_part-Delivers :
    (key : PairKey) (p : Fragment) (a : Assembly) (r : Reassembler)
    → Delivers key p (add_part key p a r)
add_part-Delivers key p a r = elim (Option-cases (lookup p.index a.parts)) [
  | inl new ↦ unfold add_part in rw (new, add_part) (take_part-Delivers key p a r)
  | inr (part, old) ↦
      unfold add_part repeated_part in
      rw (old, add_part)
        (if_elim (Delivers key p) (same_bytes part p.content)
          (record r { duplicate_count = r.duplicate_count + 1 }, ok none)
          (conflict key a r, err (application_error "RTCM fragment data conflict")) (λ raw h. cc)
          (λ raw h. cc))
]

add_to-Delivers :
    (key : PairKey) (p : Fragment) (a : Assembly) (r : Reassembler)
    → Delivers key p (add_to key p a r)
unfolding add_to
add_to-Delivers key p a r =
    if_elim (Delivers key p) (same_metadata p a) (add_part key p a r)
      (conflict key a r, err (application_error "RTCM fragment metadata conflict"))
      (add_part-Delivers key p a r) (λ raw h. cc)

add_fragment-Delivers :
    (key : PairKey) (p : Fragment) (now : ℕ) (r : Reassembler)
    → Delivers key p (add_fragment key p now r)
add_fragment-Delivers key p now r = elim (Bool-cases (contains key r.blocked_until)) [
  | inl held ↦ unfold add_fragment in rw (held, add_fragment) (λ raw h. cc)
  | inr free ↦ elim (Option-cases (lookup key r.items)) [
    | inl new ↦
        unfold add_fragment add_new in rw (free, new, add_fragment) (add_to-Delivers key p _ _)
    | inr (a, old) ↦ unfold add_fragment in rw (free, old, add_fragment) (add_to-Delivers key p a r)
  ]
]

total_small :
    {key : PairKey} {r : Reassembler} {raw : List ℕ} (p : Fragment)
    → Delivered key p r raw
    → bad_shape p ≡ false
    → length raw ≤ max_rtcm_frame_size
unfolding bad_shape
total_small p d good = ground arith

-- Whenever `add` returns a frame, the frame is a valid RTCM3 frame of at most 1029 bytes, of the
-- length and the type that the last fragment states, that fragment is fresh, and the identity of
-- the message is blocked from then on.
pub add-Delivered :
    (r : Reassembler) (f : Frame) (now : ℕ) (raw : List ℕ)
    → (add r f now).1 ≡ ok (some raw)
    → Delivered (f.sender_session, f.message_id) (parse_fragment f.body) (add r f now).0 raw
      × (length raw ≤ max_rtcm_frame_size)
      × (f.source_age_ms < transport_ttl)
unfolding add
add-Delivered r f now =
    add_live_induction
      (λ x.
        (raw : List ℕ)
        → x.1 ≡ ok (some raw)
        → Delivered (f.sender_session, f.message_id) (parse_fragment f.body) x.0 raw
          × (length raw ≤ max_rtcm_frame_size)
          × (f.source_age_ms < transport_ttl))
      (expire r now).0 f now (λ e raw h. cc)
      (λ fresh good raw h.
        let d =
          add_fragment-Delivers (f.sender_session, f.message_id) (parse_fragment f.body) now _ raw
            h in
        (d, total_small (parse_fragment f.body) d good, ground arith))
