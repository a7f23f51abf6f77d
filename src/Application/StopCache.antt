-- ===== src/Application/StopCache.antt =====
-- `StopCache` of tools/lora_usb/application.py: the mock STOP state and its replies.
pub mod Safety
pub mod Replies
pub mod Retransmissions
mod Tests
use mowgli_lora_link.Prelude.{
  ℕ, suc, ◌+◌, List, [], ◌∷◌, ◌++◌, length, Bool, true, false, not, ◌&&◌, ◌==◌, ltb, leb,
  if◌then◌else◌, Option, none, some, Result, ok, err, application_error, raise_if, ◌>>=◌, ◌>>◌,
  same_bytes,
}
use mowgli_lora_link.Dict.{num_key, pair_key, PairKey, Dict, lookup, insert, insert_last, trim}
use mowgli_lora_link.Application.Codec.{Frame}
use mowgli_lora_link.Application.Bodies.{StopRequestBody, decode_stop}

abbrev pub stop_request : ℕ
stop_request = 0x10

abbrev pub stop_command : ℕ
stop_command = 1

-- The codes ACK_APPLIED to ACK_STALE_ID, in the order of their values.
pub data Ack : Type 0 where
  applied already_stopped expired wrong_target_session unsupported_command id_conflict stale_id :
      Ack

-- STATE_RUNNING and STATE_STOPPED; the cache is never in STATE_UNKNOWN.
pub data State : Type 0 where
  running stopped : State

pub record StopDecision : Type 0 where
  pub result : Ack
  pub state : State
  pub applied_now : Bool

-- An entry of the cache: the request body, the result and the state that were answered.
pub record Cached : Type 0 where
  pub body : List ℕ
  pub result : Ack
  pub state : State

pub record StopCache : Type 0 where
  pub local_session : ℕ
  pub ttl_ms : ℕ
  pub state : State
  pub high_water : Dict ℕ ℕ
  pub cache : Dict PairKey Cached
  pub apply_count : ℕ

pub init : ℕ → ℕ → Result StopCache
init local_session ttl_ms = do
  raise_if (not (ltb 0 local_session && leb local_session 0xFFFFFFFF))
      (application_error "local session")
  ok (record {
    local_session = local_session;
    ttl_ms = ttl_ms;
    state = running;
    high_water = [];
    cache = [];
    apply_count = 0;
  })

abbrev pub key_of : Frame → PairKey
key_of f = (f.sender_session, f.message_id)

-- `_remember`
pub remember : StopCache → Frame → Ack → StopCache × StopDecision
remember c f result =
    let entry : Cached = record { body = f.body; result = result; state = c.state } in
    (
      record c { cache = trim 64 (insert_last (key_of f) entry c.cache) },
      record { result = result; state = c.state; applied_now = false },
    )

-- `self.high_water.get(session, 0)`
pub high_water_of : StopCache → ℕ → ℕ
high_water_of c session = elim (lookup session c.high_water) [ none ↦ 0 | some id ↦ id ]

-- The last lines of `apply`: the identity is fresh, and the high water mark moves.
pub apply_fresh : StopCache → Frame → StopCache × StopDecision
unfolding remember
apply_fresh c f =
    let c' : StopCache = record c {
      high_water = insert f.sender_session f.message_id c.high_water;
    } in
    elim c.state [
      | stopped ↦ remember c' f already_stopped
      | running ↦
          let c'' : StopCache = record c' { state = stopped; apply_count = c.apply_count + 1 } in
          let (c''', decision) = remember c'' f applied in
          (c''', record decision { applied_now = true })
    ]

-- A request that is not in the cache.
pub apply_request : StopCache → Frame → StopRequestBody → StopCache × StopDecision
unfolding remember high_water_of apply_fresh
apply_request c f request =
    if not (request.target_session == c.local_session)
    then remember c f wrong_target_session
    else if not (request.command == stop_command)
    then remember c f unsupported_command
    else if ltb c.ttl_ms f.source_age_ms
    then remember c f expired
    else if leb f.message_id (high_water_of c f.sender_session)
    then (c, record { result = stale_id; state = c.state; applied_now = false })
    else apply_fresh c f

-- `except ApplicationError` after `decode_stop`.
pub apply_new : StopCache → Frame → StopCache × StopDecision
unfolding remember apply_request
apply_new c f = elim (decode_stop f.body) [
  | err e ↦ remember c f unsupported_command
  | ok request ↦ apply_request c f request
]

-- A request whose identity is in the cache.
pub apply_cached : StopCache → Frame → Cached → StopCache × StopDecision
apply_cached c f entry = (
  c,
  if same_bytes entry.body f.body
      then record { result = entry.result; state = entry.state; applied_now = false }
      else record { result = id_conflict; state = c.state; applied_now = false },
)

-- The state after a frame of type STOP_REQUEST, and the decision.
pub decide : StopCache → Frame → StopCache × StopDecision
unfolding apply_new apply_cached
decide c f = elim (lookup (key_of f) c.cache) [
  | none ↦ apply_new c f
  | some entry ↦ apply_cached c f entry
]

-- `apply`: the state comes back beside the decision or the exception.
pub apply : StopCache → Frame → StopCache × Result StopDecision
unfolding decide
apply c f =
    if f.typ == stop_request
    then (let (c', decision) = decide c f in (c', ok decision))
    else (c, err (application_error "not a STOP request"))

-- `reset_mock_state`, for tests only.
pub reset_mock_state : StopCache → StopCache
reset_mock_state c = record c { state = running }
