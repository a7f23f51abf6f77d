-- ===== src/Application/Reassembler.antt =====
-- `_Assembly` and `Reassembler` of tools/lora_usb/application.py. Times are milliseconds of the
-- monotonic clock: REASSEMBLY_TIMEOUT_S is 600 and RTCM_TRANSPORT_TTL_MS / 1000 is 1000.
pub mod Bounds
pub mod Delivery
mod Tests
use mowgli_lora_link.Prelude.{
  ℕ, zero, suc, ◌+◌, ◌-◌, ◌*◌, ◌/◌, List, [], ◌∷◌, ◌++◌, length, get_or, drop, Bool, true, false,
  not, ◌&&◌, ◌||◌, ◌==◌, ltb, leb, if◌then◌else◌, Option, none, some, Result, ok, err, Error,
  application_error, key_error, ◌>>=◌, same_bytes,
}
use mowgli_lora_link.Wire.{u16_at}
use mowgli_lora_link.Dict.{
  num_key, pair_key, PairKey, Dict, lookup, contains, insert, remove, insert_last, trim,
}
use mowgli_lora_link.Application.Codec.{Frame}
use mowgli_lora_link.Application.Rtcm.{
  valid_rtcm3, type_field, rtcm_fragment, fragment_data_size, fragment_count, max_rtcm_frame_size,
  max_rtcm_fragments,
}

abbrev pub reassembly_timeout : ℕ
reassembly_timeout = 600

abbrev pub transport_ttl : ℕ
transport_ttl = 1000

abbrev pub max_reassemblies : ℕ
max_reassemblies = 8

pub record Assembly : Type 0 where
  pub started_at : ℕ
  pub rtcm_type : ℕ
  pub total_length : ℕ
  pub fragment_count : ℕ
  pub parts : Dict ℕ (List ℕ)

pub record Reassembler : Type 0 where
  pub items : Dict PairKey Assembly
  pub blocked_until : Dict PairKey ℕ
  pub timeout_count : ℕ
  pub conflict_count : ℕ
  pub eviction_count : ℕ
  pub duplicate_count : ℕ

abbrev pub init : Reassembler
init = record {
  items = [];
  blocked_until = [];
  timeout_count = 0;
  conflict_count = 0;
  eviction_count = 0;
  duplicate_count = 0;
}

-- `_block`
pub block : PairKey → ℕ → Reassembler → Reassembler
block key until r = record r { blocked_until = trim 64 (insert_last key until r.blocked_until) }

abbrev pub timed_out : ℕ → Assembly → Bool
timed_out now item = leb (item.started_at + reassembly_timeout) now

-- The items that the list comprehension of `expire` finds.
pub expired_items : ℕ → Dict PairKey Assembly → Dict PairKey Assembly
expired_items now [] = []
expired_items now ((key, item) ∷ items) =
    let rest = expired_items now items in if timed_out now item then (key, item) ∷ rest else rest

-- The loop of `expire` over these items: `pop`, `_block`, count.
pub expire_items : Dict PairKey Assembly → Reassembler → Reassembler
unfolding block
expire_items [] r = r
expire_items ((key, item) ∷ expired) r =
    let popped : Reassembler = record r { items = remove key r.items } in
    let blocked = block key (item.started_at + transport_ttl) popped in
    expire_items expired (record blocked { timeout_count = blocked.timeout_count + 1 })

-- The keys whose block has not run out.
pub still_blocked : ℕ → Dict PairKey ℕ → Dict PairKey ℕ
still_blocked now [] = []
still_blocked now ((key, until) ∷ blocked) =
    let rest = still_blocked now blocked in if leb until now then rest else (key, until) ∷ rest

-- `expire`: the state, and the number of items that timed out.
pub expire : Reassembler → ℕ → Reassembler × ℕ
unfolding expired_items expire_items still_blocked
expire r now =
    let expired = expired_items now r.items in
    let r' = expire_items expired r in
    (record r' { blocked_until = still_blocked now r'.blocked_until }, length expired)

-- The header and the data of a fragment body.
pub record Fragment : Type 0 where
  pub message_type : ℕ
  pub total_length : ℕ
  pub index : ℕ
  pub count : ℕ
  pub content : List ℕ

pub parse_fragment : List ℕ → Fragment
parse_fragment body = record {
  message_type = u16_at body 0;
  total_length = u16_at body 2;
  index = get_or body 4 0;
  count = get_or body 5 0;
  content = drop 6 body;
}

-- `len(data) != expected_length`. The expected length of the last fragment is
-- `total_length - 174 * (count - 1)`, an integer that may be negative.
pub wrong_length : Fragment → Bool
wrong_length p =
    if ltb (p.index + 1) p.count
    then not (length p.content == fragment_data_size)
    else not
        (length p.content + fragment_data_size * p.count == p.total_length + fragment_data_size)

pub bad_shape : Fragment → Bool
unfolding wrong_length
bad_shape p =
    p.total_length == 0
    || (ltb max_rtcm_frame_size p.total_length
        || (not (p.count == fragment_count p.total_length)
            || (not (leb 1 p.count && leb p.count max_rtcm_fragments)
                || (leb p.count p.index || wrong_length p))))

-- `if len(self.items) == MAX_REASSEMBLIES`: the oldest item is evicted and blocked.
pub evict : Reassembler → Reassembler
unfolding block
evict r = elim r.items [
  | [] ↦ r
  | (key, item) ∷ rest ↦
      if length r.items == max_reassemblies
      then (let blocked = block key (item.started_at + transport_ttl) (record r { items = rest }) in
          record blocked { eviction_count = blocked.eviction_count + 1 })
      else r
]

-- `del self.items[key]`, `_block`
pub close : PairKey → Assembly → Reassembler → Reassembler
unfolding block
close key assembly r =
    block key (assembly.started_at + transport_ttl) (record r { items = remove key r.items })

pub conflict : PairKey → Assembly → Reassembler → Reassembler
unfolding close
conflict key assembly r =
    let closed = close key assembly r in
    record closed { conflict_count = closed.conflict_count + 1 }

-- `b"".join(assembly.parts[i] for i in range(count))`, from an index on.
pub join : ℕ → ℕ → Dict ℕ (List ℕ) → Result (List ℕ)
join zero index parts = ok []
join (suc n) index parts = elim (lookup index parts) [
  | none ↦ err key_error
  | some part ↦ do rest ← join n (index + 1) parts; ok (part ++ rest)
]

-- The last lines of `add`: every part is there.
pub deliver : Fragment → List ℕ → Result (Option (List ℕ))
deliver p raw =
    if not (length raw == p.total_length)
      || (not (valid_rtcm3 raw) || not (type_field raw == p.message_type))
    then err (application_error "assembled RTCM frame")
    else ok (some raw)

pub complete : PairKey → Fragment → Assembly → Reassembler → Reassembler × Result (Option (List ℕ))
unfolding join close deliver
complete key p assembly r = elim (join p.count 0 assembly.parts) [
  | err e ↦ (r, err e)
  | ok raw ↦ (close key assembly r, deliver p raw)
]

-- The assembly takes a part at an index that it does not have.
pub take_part : PairKey → Fragment → Assembly → Reassembler → Reassembler × Result (Option (List ℕ))
unfolding complete
take_part key p assembly r =
    let assembly' : Assembly = record assembly {
      parts = insert p.index p.content assembly.parts;
    } in
    let r' : Reassembler = record r { items = insert key assembly' r.items } in
    if ltb (length assembly'.parts) p.count then (r', ok none) else complete key p assembly' r'

pub repeated_part :
    PairKey → Fragment → Assembly → List ℕ → Reassembler → Reassembler × Result (Option (List ℕ))
unfolding conflict
repeated_part key p assembly part r =
    if same_bytes part p.content
    then (record r { duplicate_count = r.duplicate_count + 1 }, ok none)
    else (conflict key assembly r, err (application_error "RTCM fragment data conflict"))

-- `assembly.parts` already has the index, or not.
pub add_part : PairKey → Fragment → Assembly → Reassembler → Reassembler × Result (Option (List ℕ))
unfolding take_part repeated_part
add_part key p assembly r = elim (lookup p.index assembly.parts) [
  | none ↦ take_part key p assembly r
  | some part ↦ repeated_part key p assembly part r
]

pub same_metadata : Fragment → Assembly → Bool
same_metadata p a =
    a.rtcm_type == p.message_type
    && (a.total_length == p.total_length && a.fragment_count == p.count)

-- The assembly of the key is there.
pub add_to : PairKey → Fragment → Assembly → Reassembler → Reassembler × Result (Option (List ℕ))
unfolding add_part same_metadata conflict
add_to key p assembly r =
    if same_metadata p assembly
    then add_part key p assembly r
    else (conflict key assembly r, err (application_error "RTCM fragment metadata conflict"))

-- `if key not in self.items`
pub add_new : PairKey → Fragment → ℕ → Reassembler → Reassembler × Result (Option (List ℕ))
unfolding evict add_to
add_new key p now r =
    let assembly : Assembly = record {
      started_at = now;
      rtcm_type = p.message_type;
      total_length = p.total_length;
      fragment_count = p.count;
      parts = [];
    } in
    let r' = evict r in add_to key p assembly (record r' { items = insert key assembly r'.items })

-- A fragment of the right shape.
pub add_fragment : PairKey → Fragment → ℕ → Reassembler → Reassembler × Result (Option (List ℕ))
unfolding add_new add_to
add_fragment key p now r =
    if contains key r.blocked_until
    then (r, err (application_error "expired or completed RTCM message"))
    else elim (lookup key r.items) [
      | none ↦ add_new key p now r
      | some assembly ↦ add_to key p assembly r
    ]

-- `add` behind its call of `expire`.
pub add_live : Reassembler → Frame → ℕ → Reassembler × Result (Option (List ℕ))
unfolding parse_fragment bad_shape add_fragment
add_live r f now =
    if not (f.typ == rtcm_fragment) || ltb (length f.body) 6
    then (r, err (application_error "RTCM fragment body"))
    else if leb transport_ttl f.source_age_ms
    then (r, err (application_error "stale RTCM fragment"))
    else (let p = parse_fragment f.body in
        if bad_shape p
        then (r, err (application_error "RTCM fragment shape"))
        else add_fragment (f.sender_session, f.message_id) p now r)

pub add : Reassembler → Frame → ℕ → Reassembler × Result (Option (List ℕ))
unfolding expire add_live
add r f now = add_live (expire r now).0 f now
