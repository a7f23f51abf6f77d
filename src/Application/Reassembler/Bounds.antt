-- ===== src/Application/Reassembler/Bounds.antt =====
-- How many messages are in reassembly, and how many are blocked.
use mowgli_lora_link.Prelude.{
  ℕ, suc, ◌+◌, ◌≤◌, ◌<◌, ◌≡◌, refl, arith, List, [], ◌∷◌, length, false, not, ◌||◌, ◌==◌, ltb, leb,
  if_elim, if_cases, Option, some, Result, Error, err, Option-cases, inl, inr, Result-cases,
  same_bytes, application_error,
}
use mowgli_lora_link.Dict.{
  num_key, pair_key, PairKey, Dict, lookup, contains, insert, remove, insert_last,
}
use mowgli_lora_link.Dict.Laws.{
  length-trim, length-remove-le, length-insert_le, length-insert_found, lookup-insert_self,
}
use mowgli_lora_link.Application.Codec.{Frame}
use mowgli_lora_link.Application.Rtcm.{rtcm_fragment}
use mowgli_lora_link.Application.Reassembler.{
  Assembly, Reassembler, Fragment, block, expired_items, expire_items, still_blocked, expire,
  parse_fragment, bad_shape, evict, close, conflict, join, complete, take_part, repeated_part,
  add_part, add_to, add_new, add_fragment, add_live, add, max_reassemblies, transport_ttl,
  same_metadata,
}

pub record IsBounded (r : Reassembler) : Type 0 where
  pub items : length r.items ≤ max_reassemblies
  pub blocked : length r.blocked_until ≤ 64

block-IsBounded :
    (key : PairKey) (until : ℕ) (r : Reassembler)
    → length r.items ≤ max_reassemblies
    → IsBounded (block key until r)
unfolding block
block-IsBounded key until r h = record {
  items = h;
  blocked = length-trim 64 (insert_last key until r.blocked_until);
}

expire_items-IsBounded :
    (expired : Dict PairKey Assembly) (r : Reassembler)
    → IsBounded r
    → IsBounded (expire_items expired r)
unfolding expire_items
expire_items-IsBounded [] r h = h
expire_items-IsBounded ((key, item) ∷ expired) r h =
    let popped : Reassembler = record r { items = remove key r.items } in
    let blocked =
      block-IsBounded key (item.started_at + transport_ttl) popped
        (omega (arith, length-remove-le key r.items, h.items)) in
    expire_items-IsBounded expired _ (record { items = blocked.items; blocked = blocked.blocked })

length-still_blocked-le :
    (now : ℕ) (blocked : Dict PairKey ℕ) → length (still_blocked now blocked) ≤ length blocked
unfolding still_blocked
length-still_blocked-le now [] = omega arith
length-still_blocked-le now ((key, until) ∷ blocked) =
    ground (arith, length-still_blocked-le now blocked)

pub expire-IsBounded : (r : Reassembler) (now : ℕ) → IsBounded r → IsBounded (expire r now).0
unfolding expire
expire-IsBounded r now h =
    let expired = expire_items-IsBounded (expired_items now r.items) r h in
    let r' = expire_items (expired_items now r.items) r in
    record {
      items = expired.items;
      blocked = omega (arith, length-still_blocked-le now r'.blocked_until, expired.blocked);
    }

close-IsBounded :
    (key : PairKey) (a : Assembly) (r : Reassembler) → IsBounded r → IsBounded (close key a r)
unfolding close
close-IsBounded key a r h =
    block-IsBounded key (a.started_at + transport_ttl) (record r { items = remove key r.items })
      (omega (arith, length-remove-le key r.items, h.items))

conflict-IsBounded :
    (key : PairKey) (a : Assembly) (r : Reassembler) → IsBounded r → IsBounded (conflict key a r)
unfolding conflict
conflict-IsBounded key a r h =
    let closed = close-IsBounded key a r h in
    record { items = closed.items; blocked = closed.blocked }

-- The eviction makes room for one more message.
evict_room :
    (r : Reassembler)
    → IsBounded r
    → IsBounded (evict r) × (length (evict r).items < max_reassemblies)
evict_room r h = by_items r.items refl
  where
    by_items :
        (items : Dict PairKey Assembly)
        → r.items ≡ items
        → IsBounded (evict r) × (length (evict r).items < max_reassemblies)
    by_items [] e = unfold evict in ground arith
    by_items ((key, item) ∷ rest) e =
        let until = item.started_at + transport_ttl in
        let size : length r.items ≡ suc (length rest) = rw e in
        let evicted =
          block-IsBounded key until (record r { items = rest }) (omega (arith, size, h.items)) in
        unfold evict block in ground (arith, size, evicted.blocked)

complete-IsBounded :
    (key : PairKey) (p : Fragment) (a : Assembly) (r : Reassembler)
    → IsBounded r
    → IsBounded (complete key p a r).0
complete-IsBounded key p a r h = elim (Result-cases (join p.count 0 a.parts)) [
  | inr (e, missing) ↦ unfold complete in rw (missing, complete) h
  | inl (raw, joined) ↦ unfold complete in rw (joined, complete) (close-IsBounded key a r h)
]

abbrev pub Outcome : Type 0
Outcome = Reassembler × Result (Option (List ℕ))

abbrev LeavesBounded : Outcome → Type 0
LeavesBounded x = IsBounded x.0

take_part-IsBounded :
    (key : PairKey) (p : Fragment) (a b : Assembly) (r : Reassembler)
    → IsBounded r
    → lookup key r.items ≡ some b
    → IsBounded (take_part key p a r).0
unfolding take_part
take_part-IsBounded key p a b r h found =
    let a' : Assembly = record a { parts = insert p.index p.content a.parts } in
    let r' : Reassembler = record r { items = insert key a' r.items } in
    let kept : IsBounded r' = record {
      items = omega (arith, length-insert_found key a' b r.items found, h.items);
      blocked = h.blocked;
    } in
    if_elim LeavesBounded (ltb (length a'.parts) p.count) _ _ kept
      (complete-IsBounded key p a' r' kept)

repeated_part-IsBounded :
    (key : PairKey) (p : Fragment) (a : Assembly) (part : List ℕ) (r : Reassembler)
    → IsBounded r
    → IsBounded (repeated_part key p a part r).0
unfolding repeated_part
repeated_part-IsBounded key p a part r h =
    if_elim LeavesBounded (same_bytes part p.content) _ _
      (record { items = h.items; blocked = h.blocked }) (conflict-IsBounded key a r h)

add_part-IsBounded :
    (key : PairKey) (p : Fragment) (a : Assembly) (r : Reassembler)
    → IsBounded r
    → lookup key r.items ≡ some a
    → IsBounded (add_part key p a r).0
add_part-IsBounded key p a r h found = elim (Option-cases (lookup p.index a.parts)) [
  | inl new ↦ unfold add_part in rw (new, add_part) (take_part-IsBounded key p a a r h found)
  | inr (part, old) ↦
      unfold add_part in rw (old, add_part) (repeated_part-IsBounded key p a part r h)
]

add_to-IsBounded :
    (key : PairKey) (p : Fragment) (a : Assembly) (r : Reassembler)
    → IsBounded r
    → lookup key r.items ≡ some a
    → IsBounded (add_to key p a r).0
unfolding add_to
add_to-IsBounded key p a r h found =
    if_elim LeavesBounded (same_metadata p a) _ _ (add_part-IsBounded key p a r h found)
      (conflict-IsBounded key a r h)

add_new-IsBounded :
    (key : PairKey) (p : Fragment) (now : ℕ) (r : Reassembler)
    → IsBounded r
    → IsBounded (add_new key p now r).0
unfolding add_new
add_new-IsBounded key p now r h =
    let a : Assembly = record {
      started_at = now;
      rtcm_type = p.message_type;
      total_length = p.total_length;
      fragment_count = p.count;
      parts = [];
    } in
    let (kept, room) = evict_room r h in
    let r' : Reassembler = record (evict r) { items = insert key a (evict r).items } in
    add_to-IsBounded key p a r'
      (record {
        items = omega (arith, length-insert_le key a (evict r).items, room);
        blocked = kept.blocked;
      })
      (lookup-insert_self key a (evict r).items)

add_fragment-IsBounded :
    (key : PairKey) (p : Fragment) (now : ℕ) (r : Reassembler)
    → IsBounded r
    → IsBounded (add_fragment key p now r).0
unfolding add_fragment
add_fragment-IsBounded key p now r h =
    if_elim LeavesBounded (contains key r.blocked_until) _ _ h
      (elim (Option-cases (lookup key r.items)) [
        | inl new ↦ rw new (add_new-IsBounded key p now r h)
        | inr (a, old) ↦ rw old (add_to-IsBounded key p a r h old)
      ])

-- A fragment that is not looked at leaves the state as it is and raises.
pub add_live_induction {ℓ} :
    (P : Outcome → Type ℓ) (r : Reassembler) (f : Frame) (now : ℕ)
    → ((e : Error) → P (r, err e))
    → (leb transport_ttl f.source_age_ms ≡ false
        → bad_shape (parse_fragment f.body) ≡ false
        → P (add_fragment (f.sender_session, f.message_id) (parse_fragment f.body) now r))
    → P (add_live r f now)
unfolding add_live
add_live_induction P r f now refused looked_at =
    if_elim P (not (f.typ == rtcm_fragment) || ltb (length f.body) 6)
      (r, err (application_error "RTCM fragment body")) _ (refused _)
      (if_cases P (leb transport_ttl f.source_age_ms)
        (r, err (application_error "stale RTCM fragment")) _ (λ _. refused _)
        (λ fresh.
          if_cases P (bad_shape (parse_fragment f.body))
            (r, err (application_error "RTCM fragment shape")) _ (λ _. refused _)
            (λ good. looked_at fresh good)))

-- If at most eight messages are in reassembly and at most 64 are blocked, so they are after `add`,
-- whatever frame arrives and whenever, also when the call raises.
pub add-IsBounded :
    (r : Reassembler) (f : Frame) (now : ℕ) → IsBounded r → IsBounded (add r f now).0
unfolding add
add-IsBounded r f now h =
    let h' = expire-IsBounded r now h in
    add_live_induction LeavesBounded (expire r now).0 f now (λ e. h')
      (λ fresh good.
        add_fragment-IsBounded (f.sender_session, f.message_id) (parse_fragment f.body) now _ h')
