-- ===== src/Host/Modem.antt =====
-- `ModemTransport` of host/mowgli_lora/modem.py: its state, and the statements that its methods are
-- written with. Times are milliseconds.
pub mod Session
pub mod Handlers
pub mod Tick
pub mod Ledger
pub mod Window
pub mod Tombstones
pub mod Calm
pub mod Requests
pub mod Restarts
pub mod Answers
pub mod Frames
pub mod Errors
pub mod Ticks
pub mod Openings
pub mod Sends
mod Tests
use mowgli_lora_link.Prelude.{
  ℕ, ◌+◌, List, [], ◌∷◌, ◌++◌, Bool, true, false, if◌then◌else◌, Option, String,
}
use mowgli_lora_link.Dict.{Dict}
use mowgli_lora_link.Protocol.Stream.{StreamDecoder, fresh, default_max}

-- HELLO, RADIO_SEND and GET_DIAGNOSTICS; INFO, RADIO_TX_RESULT, DIAGNOSTICS, RADIO_RX and ERROR.
abbrev pub hello : ℕ
hello = 0x01

abbrev pub radio_send : ℕ
radio_send = 0x02

abbrev pub get_diagnostics : ℕ
get_diagnostics = 0x04

abbrev pub info : ℕ
info = 0x81

abbrev pub radio_tx_result : ℕ
radio_tx_result = 0x82

abbrev pub diagnostics : ℕ
diagnostics = 0x84

abbrev pub radio_rx : ℕ
radio_rx = 0x90

abbrev pub error : ℕ
error = 0xFF

abbrev pub wrong_session_code : ℕ
wrong_session_code = 4

abbrev pub max_late_radio_results : ℕ
max_late_radio_results = 32

abbrev pub late_radio_result_ttl : ℕ
late_radio_result_ttl = 30000

-- The serial port, the clock and the random source, over the states W of the world. The port opens
-- or raises; a write returns the number of bytes taken or raises OSError, as does a read.
pub record Port (W : Type 0) : Type 0 where
  pub open_serial : W → W × Bool
  pub close_serial : W → W
  pub write : W → List ℕ → W × Option ℕ
  pub read : W → W × Option (List ℕ)
  pub clock : W → W × ℕ
  pub random : W → W × ℕ

-- `metrics.add` and `metrics.set`; `add_numbered` is an `add` whose name ends in a number, as
-- `f"rtcm_type_{frame.message_type}"` does.
pub data Update : Type 0 where
  add : String → ℕ → Update
  add_numbered : String → ℕ → ℕ → Update
  put : String → ℕ → Update

-- The values True, False and None of an outcome.
pub data Tx : Type 0 where
  sent not_sent uncertain : Tx

pub record Request : Type 0 where
  pub typ : ℕ
  pub started : ℕ

-- `connected` is `serial is not None`; `metrics` lists the updates in order.
pub record Transport (W : Type 0) : Type 0 where
  pub world : W
  pub connected : Bool
  pub reconnect_ms : ℕ
  pub decoder : StreamDecoder
  pub session : ℕ
  pub sequence : ℕ
  pub boot_id : Option ℕ
  pub handshake_complete : Bool
  pub radio_ready : Bool
  pub pending : Dict ℕ Request
  pub received : List (List ℕ)
  pub tx_outcomes : List (ℕ × Tx)
  pub timed_out_radio : Dict ℕ ℕ
  pub next_attempt : ℕ
  pub last_diagnostics : ℕ
  pub last_radio_rx : ℕ
  pub metrics : List Update

-- The exceptions. `stuck` marks a loop of the model that was given too little fuel.
pub data Raised : Type 0 where
  os_error runtime_error protocol_failure application_failure key_failure stuck : Raised

pub data Outcome (A : Type 0) : Type 0 where
  returned : A → Outcome A
  raised : Raised → Outcome A

-- A method: the state comes back beside the value or the exception.
abbrev pub M : Type 0 → Type 0 → Type 0
M W A = Transport W → Transport W × Outcome A

-- The rest of a method after a statement.
abbrev pub continue :
    {W A B : Type 0} → (A → M W B) → Transport W × Outcome A → Transport W × Outcome B
continue next (t, returned a) = next a t
continue next (t, raised e) = (t, raised e)

infixl 5 ◌>>=◌ ◌>>◌
pub ◌>>=◌ : {W A B : Type 0} → M W A → (A → M W B) → M W B
(first >>= next) t = continue next (first t)

pub ◌>>◌ : {W B : Type 0} → M W (Unit {0}) → M W B → M W B
(first >> next) t = continue (λ _. next) (first t)

pub pure : {W A : Type 0} → A → M W A
pure a t = (t, returned a)

pub raise : {W A : Type 0} → Raised → M W A
raise e t = (t, raised e)

pub get : {W : Type 0} → M W (Transport W)
get t = (t, returned t)

pub modify : {W : Type 0} → (Transport W → Transport W) → M W (Unit {0})
modify change t = (change t, returned tt)

abbrev pub recover :
    {W A : Type 0} → (Raised → Bool) → M W A → Transport W × Outcome A → Transport W × Outcome A
recover caught handler (t, returned a) = (t, returned a)
recover caught handler (t, raised e) = if caught e then handler t else (t, raised e)

-- `try: body except …: handler`
pub attempt : {W A : Type 0} → M W A → (Raised → Bool) → M W A → M W A
attempt body caught handler t = recover caught handler (body t)

abbrev pub is_os_error : Raised → Bool
is_os_error os_error = true
is_os_error runtime_error = false
is_os_error protocol_failure = false
is_os_error application_failure = false
is_os_error key_failure = false
is_os_error stuck = false

abbrev pub is_os_or_runtime_error : Raised → Bool
is_os_or_runtime_error os_error = true
is_os_or_runtime_error runtime_error = true
is_os_or_runtime_error protocol_failure = false
is_os_or_runtime_error application_failure = false
is_os_or_runtime_error key_failure = false
is_os_or_runtime_error stuck = false

pub metric : {W : Type 0} → Update → M W (Unit {0})
metric update = modify (λ t. record t { metrics = t.metrics ++ (update ∷ []) })

pub count : {W : Type 0} → String → M W (Unit {0})
count name = metric (add name 1)
