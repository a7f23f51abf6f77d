-- ===== src/Bench/Client/Requests/Outcomes.antt =====
-- What a request of the bench's client ends with, and what it leaves.
use mowgli_lora_link.Prelude.{
  ℕ, suc, ◌+◌, ◌≤◌, ◌≡◌, ◌≢◌, refl, ◌∙◌, arith, List, [], ◌==◌, Result, ok, err, elim_cases,
}
use mowgli_lora_link.Protocol.Frame.{Frame, encode_frame}
use mowgli_lora_link.Host.Modem.{hello, info, radio_send, radio_tx_result, radio_rx, error}
use mowgli_lora_link.Bench.Client.Accounting.{IsSound}
use mowgli_lora_link.Bench.Client.Requests.Answers.{
  Passes, Waited, answered, failed, expired, Ends, wait_response-Ends,
}
use mowgli_lora_link.Bench.Client.Requests.{
  Reply, returned, refused, exhausted, rejected, timed_out, stuck, Ran, wait_response, with_next,
  with_frame, request, keep_info, greet, send, write_and_wait, send_from,
}
use mowgli_lora_link.Bench.Client.{ModemClient, Port}

-- The frame of a request.
abbrev pub request_frame : ℕ → ModemClient → List ℕ → Frame
request_frame msg_type c payload = record {
  msg_type = msg_type;
  session = c.session;
  sequence = c.sequence + 1;
  payload = payload;
}

-- A frame of the awaited type answers the request: its number and its session are those of the
-- request. An ERROR frame does so too. The wait is over only if `late` holds. The loop never lacks fuel.
abbrev pub Replies : Frame → ℕ → Type 0 → Reply → Type 0
Replies asked response late (returned f) =
    (f.msg_type ≡ response) × (f.sequence ≡ asked.sequence) × (f.session ≡ asked.session)
Replies asked response late (refused payload) =
    (f : Frame) × (f.payload ≡ payload)
    × (f.msg_type ≡ error)
    × (f.sequence ≡ asked.sequence)
    × (f.session ≡ asked.session)
Replies asked response late exhausted = asked.sequence ≡ 0xFFFFFFFF
Replies asked response late (rejected e) = encode_frame asked ≡ err e
Replies asked response late timed_out = late
Replies asked response late stuck = ⊥

-- The next number is used, and the client is sound.
pub record Asked {W : Type 0} (given response : ℕ) (asked : Frame) (late : W → Type 0) (ran : Ran W)
    : Type 0 where
  pub replies : Replies asked response (late ran.world) ran.reply
  pub session : ran.client.session ≡ asked.session
  pub sequence : ran.client.sequence ≡ asked.sequence
  pub sound : IsSound given ran.client

keep_info_keeps :
    (given : ℕ) (reply : Reply) (c : ModemClient)
    → IsSound given c
    → let c' = keep_info reply c in
      (c'.session ≡ c.session) × (c'.sequence ≡ c.sequence) × IsSound given c'
unfolding keep_info
keep_info_keeps given (returned f) c h =
    (refl, refl, record { sorted = h.sorted; radio = h.radio; own = h.own })
keep_info_keeps given (refused payload) c h = (refl, refl, h)
keep_info_keeps given exhausted c h = (refl, refl, h)
keep_info_keeps given (rejected e) c h = (refl, refl, h)
keep_info_keeps given timed_out c h = (refl, refl, h)
keep_info_keeps given stuck c h = (refl, refl, h)

-- The world is that behind a reading of the clock that is not before the deadline.
abbrev pub IsLate : {W : Type 0} → Port W → ℕ → W → Type 0
IsLate {W} port deadline world =
    (before : W) × (deadline ≤ (port.clock before).0) × (world ≡ (port.clock before).1)

module _ {W : Type 0} (port : Port W) where
  waited-Asked :
      (given response deadline : ℕ) (asked : Frame) (late : W → Type 0) (c : ModemClient)
      (ran : Ran W)
      → ((world : W) → IsLate port deadline world → late world)
      → c.session ≡ asked.session
      → c.sequence ≡ asked.sequence
      → Ends port given response asked.sequence deadline c ran
      → Asked given response asked late ran
  waited-Asked given response deadline asked late c ran is_late session sequence (waited, kept) =
      record {
        replies = replied ran waited;
        session = kept.session ∙ session;
        sequence = kept.sequence ∙ sequence;
        sound = kept.sound;
      }
    where
      replied :
          (ran : Ran W)
          → Waited port response asked.sequence deadline c ran
          → Replies asked response (late ran.world) ran.reply
      replied ran (answered d v f typ number own) = (typ, number, own ∙ session)
      replied ran (failed d v f typ number own) = (f, refl, typ, number, own ∙ session)
      replied ran (expired d v passed) = is_late _ (v, passed, refl)

  -- Whatever follows the number and the encoding has to be shown only where both succeed.
  next-Asked :
      (given msg_type response : ℕ) (payload : List ℕ) (continue : ℕ → ModemClient → W → Ran W)
      (late : W → Type 0) (c : ModemClient) (w : W)
      → let asked = request_frame msg_type c payload in
        let c' = record c { sequence = c.sequence + 1 } in
        IsSound given c
        → (IsSound given c' → Asked given response asked late (continue (c.sequence + 1) c' w))
        → Asked given response asked late (with_next port continue c w)
  unfolding with_next
  next-Asked given msg_type response payload continue late c w h continued =
      let here : IsSound given (record c { sequence = c.sequence + 1 }) = record {
        sorted = h.sorted;
        radio = h.radio;
        own = h.own;
      } in
      elim_cases (Asked given response (request_frame msg_type c payload) late)
        (c.sequence + 1 == 0xFFFFFFFF) _ _
        (λ e. record { replies = ground arith; session = refl; sequence = refl; sound = here })
        (λ e. continued here)

  framed-Asked :
      (given msg_type response : ℕ) (payload : List ℕ) (continue : List ℕ → ModemClient → W → Ran W)
      (late : W → Type 0) (c : ModemClient) (w : W)
      → let asked : Frame = record {
        msg_type = msg_type;
        session = c.session;
        sequence = c.sequence;
        payload = payload;
      } in
        IsSound given c
        → ((wire : List ℕ)
            → encode_frame asked ≡ ok wire
            → Asked given response asked late (continue wire c w))
        → Asked given response asked late (with_frame port msg_type c.sequence payload continue c w)
  unfolding with_frame
  framed-Asked given msg_type response payload continue late c w h continued =
      encoded (encode_frame asked) refl
    where
      asked : Frame
      asked = record {
        msg_type = msg_type;
        session = c.session;
        sequence = c.sequence;
        payload = payload;
      }

      encoded :
          (r : Result (List ℕ))
          → encode_frame asked ≡ r
          → Asked given response asked late (elim r [
            | err e ↦ record { client = c; world = w; reply = rejected e }
            | ok wire ↦ continue wire c w
          ])
      encoded (err e) k = record { replies = k; session = refl; sequence = refl; sound = h }
      encoded (ok wire) k = continued wire k

  -- The deadline counts from the first reading of the clock behind the write.
  abbrev pub LateRequest : Frame → ℕ → W → W → Type 0
  LateRequest asked deadline w world =
      (wire : List ℕ) × (encode_frame asked ≡ ok wire)
      × IsLate port ((port.clock (port.write wire w)).0 + deadline) world

  -- A status or a diagnostics request ends with the first frame of the awaited type, number and
  -- session, or with an ERROR frame of that number, or when the deadline is over, or at once if the
  -- numbers are used up or the frame cannot be encoded. It does end: the loop has enough fuel.
  pub request-Asked :
      (given msg_type response deadline : ℕ) (c : ModemClient) (w : W)
      → Passes port
      → response ≢ radio_rx
      → IsSound given c
      → Asked given response
          (request_frame msg_type c [])
          (LateRequest (request_frame msg_type c []) deadline w)
          (request port msg_type response deadline c w)
  unfolding request write_and_wait
  request-Asked given msg_type response deadline c w passes other h =
      let asked = request_frame msg_type c [] in
      let late = LateRequest asked deadline w in
      let c' = record c { sequence = c.sequence + 1 } in
      next-Asked given msg_type response []
        (λ seq. with_frame port msg_type seq [] (write_and_wait port response deadline seq)) late c
        w h
        (λ here.
          framed-Asked given msg_type response []
            (write_and_wait port response deadline (c.sequence + 1)) late c' w here
            (λ wire encoded.
              let sent = port.write wire w in
              waited-Asked given response ((port.clock sent).0 + deadline) asked late c' _
                (λ world passed. (wire, encoded, passed)) refl refl
                (wait_response-Ends port given (suc deadline) response (c.sequence + 1)
                  ((port.clock sent).0 + deadline) c' (port.clock sent).1 passes other here
                  (omega arith) (omega (arith, passes.reading sent)))))

  pub greet-Asked :
      (given deadline : ℕ) (c : ModemClient) (w : W)
      → Passes port
      → IsSound given c
      → Asked given info
          (request_frame hello c [])
          (LateRequest (request_frame hello c []) deadline w)
          (greet port deadline c w)
  unfolding greet
  greet-Asked given deadline c w passes h =
      let asked = request-Asked given hello info deadline c w passes (λ e. ground arith) h in
      let ran = request port hello info deadline c w in
      let (session, sequence, sound) = keep_info_keeps given ran.reply ran.client asked.sound in
      record {
        replies = asked.replies;
        session = session ∙ asked.session;
        sequence = sequence ∙ asked.sequence;
        sound = sound;
      }

  -- `send` ends with the RADIO_TX_RESULT of its own number and session, or with an ERROR frame of
  -- these, or behind a reading of the clock that is not before its deadline, or at once if the numbers are used up or the payload cannot
  -- be encoded. It does end: the loop has enough fuel. The number of the request is used in each
  -- case, and the client is sound before and after it.
  pub send-Asked :
      (given deadline : ℕ) (payload : List ℕ) (c : ModemClient) (w : W)
      → Passes port
      → IsSound given c
      → Asked given radio_tx_result
          (request_frame radio_send c payload)
          (IsLate port ((port.clock w).0 + deadline))
          (send port payload deadline c w)
  unfolding send send_from
  send-Asked given deadline payload c w passes h =
      let asked = request_frame radio_send c payload in
      let c' = record c { sequence = c.sequence + 1 } in
      let started = (port.clock w).0 in
      let late = IsLate port (started + deadline) in
      let w' = (port.clock w).1 in
      next-Asked given radio_send radio_tx_result payload (send_from port payload deadline) late c w
        h
        (λ here.
          framed-Asked given radio_send radio_tx_result payload
            (λ wire c w.
              wait_response port (suc deadline) radio_tx_result (c'.sequence) (started + deadline) c
                (port.write wire w))
            late c' w' here
            (λ wire encoded.
              waited-Asked given radio_tx_result (started + deadline) asked late c' _
                (λ world passed. passed) refl refl
                (wait_response-Ends port given (suc deadline) radio_tx_result (c.sequence + 1)
                  (started + deadline) c' (port.write wire w') passes (λ e. ground arith) here
                  (omega arith) (omega (arith, passes.writing wire w)))))
