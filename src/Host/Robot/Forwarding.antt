-- ===== src/Host/Robot/Forwarding.antt =====
-- What the robot service forwards to the TCP clients, and the bounds of its parts.
use mowgli_lora_link.Prelude.{
  ℕ, ◌≡◌, ◌≤◌, refl, List, [], ◌∷◌, ◌++◌, length, All-append, true, not, ◌==◌, if_elim, Option,
  none, some, Result, ok, err, subst, ap,
}
use mowgli_lora_link.Application.Codec.{Frame, decode}
use mowgli_lora_link.Application.Rtcm.{rtcm_fragment, valid_rtcm3, max_rtcm_frame_size}
use mowgli_lora_link.Application.Reassembler
use mowgli_lora_link.Application.Reassembler.{Reassembler, expire}
use mowgli_lora_link.Application.Reassembler.Bounds.{IsBounded, add-IsBounded, expire-IsBounded}
use mowgli_lora_link.Application.Reassembler.Delivery.{add-Delivered}
use mowgli_lora_link.Host.Output.{Queued, Output}
use mowgli_lora_link.Host.Output.Bounds.{AllFit, flush-AllFit, publish-AllFit}
use mowgli_lora_link.Host.Output.Invariant.{
  AllHold, AllRaw, advance-AllRaw, flush-AllHold, publish-AllHold,
}
use mowgli_lora_link.Host.Modem.{add, Port, Transport, Outcome, returned, raised}
use mowgli_lora_link.Host.Modem.Tick.{tick}
use mowgli_lora_link.Host.Robot.{
  RobotService, Sockets, continue, is_application_error, deliver, on_added, on_decoded, finish,
  forward, after_tick, step,
}

-- A complete RTCM3 frame.
pub record IsRtcm (raw : List ℕ) : Type 0 where
  pub valid : valid_rtcm3 raw ≡ true
  pub small : length raw ≤ max_rtcm_frame_size

abbrev pub AllRtcm : List Queued → Type 0
AllRtcm = AllRaw IsRtcm

-- The bounds of the reassembly and of the output, and what waits for the clients.
pub record IsSound (r : Reassembler) (o : Output) : Type 0 where
  pub reassembly : IsBounded r
  pub fits : AllFit o.clients
  pub rtcm : AllHold AllRtcm tt (advance-AllRaw IsRtcm) o.clients

abbrev StaysSound : {W : Type 0} → RobotService W × Outcome (Unit {0}) → Type 0
StaysSound x = IsSound x.0.reassembler x.0.output

module _ {W : Type 0} (port : Port W) (net : ℕ → Sockets) where
  deliver-IsSound :
      (raw : List ℕ) (s : RobotService W)
      → IsRtcm raw
      → IsSound s.reassembler s.output
      → IsSound (deliver port net raw s).reassembler (deliver port net raw s).output
  unfolding deliver
  deliver-IsSound raw s h k =
      let sockets = net s.calls in
      record {
        reassembly = k.reassembly;
        fits =
            publish-AllFit sockets.waiting sockets.later sockets.send raw sockets.clock s.output
              k.fits;
        rtcm =
            publish-AllHold AllRtcm tt (advance-AllRaw IsRtcm) raw
              (λ frames at room all. All-append _ frames _ all (h, tt)) sockets.waiting
              sockets.later sockets.send sockets.clock s.output k.rtcm;
      }

  on_added-IsSound :
      (f : Frame) (now : ℕ) (s : RobotService W) (added : Reassembler × Result (Option (List ℕ)))
      → Reassembler.add s.reassembler f now ≡ added
      → IsSound s.reassembler s.output
      → StaysSound (on_added port net added s)
  unfolding on_added
  on_added-IsSound f now s (r, err e) h k =
      let bounded = subst (λ x. IsBounded x.0) h (add-IsBounded s.reassembler f now k.reassembly) in
      let sound : IsSound r s.output = record {
        reassembly = bounded;
        fits = k.fits;
        rtcm = k.rtcm;
      } in
      if_elim (λ (x : RobotService W × Outcome (Unit {0})). StaysSound x) (is_application_error e) _
        _ sound sound
  on_added-IsSound f now s (r, ok none) h k =
      let bounded = subst (λ x. IsBounded x.0) h (add-IsBounded s.reassembler f now k.reassembly) in
      record { reassembly = bounded; fits = k.fits; rtcm = k.rtcm }
  on_added-IsSound f now s (r, ok (some raw)) h k =
      let bounded = subst (λ x. IsBounded x.0) h (add-IsBounded s.reassembler f now k.reassembly) in
      let (delivered, small, fresh) = add-Delivered s.reassembler f now raw (ap (λ x. x.1) h) in
      let accepted : RobotService W = record s {
        reassembler = r;
        metrics = s.metrics ++ (add "rtcm_fragments_accepted" 1 ∷ []);
      } in
      deliver-IsSound raw accepted (record { valid = delivered.valid; small = small })
        (record { reassembly = bounded; fits = k.fits; rtcm = k.rtcm })

  on_decoded-IsSound :
      (now : ℕ) (r : Result Frame) (s : RobotService W)
      → IsSound s.reassembler s.output
      → StaysSound (on_decoded port net now r s)
  unfolding on_decoded
  on_decoded-IsSound now (err e) s k = k
  on_decoded-IsSound now (ok f) s k =
      if_elim (λ (x : RobotService W × Outcome (Unit {0})). StaysSound x)
        (not (f.typ == rtcm_fragment)) _ _ k
        (on_added-IsSound f now s (Reassembler.add s.reassembler f now) refl k)

  finish-IsSound :
      (now : ℕ) (s : RobotService W)
      → IsSound s.reassembler s.output
      → IsSound (finish port net now s).reassembler (finish port net now s).output
  unfolding finish
  finish-IsSound now s k =
      let sockets = net s.calls in
      record {
        reassembly = expire-IsBounded s.reassembler now k.reassembly;
        fits = flush-AllFit sockets.waiting sockets.send sockets.clock s.output k.fits;
        rtcm =
            flush-AllHold AllRtcm tt (advance-AllRaw IsRtcm) sockets.waiting sockets.send
              sockets.clock s.output k.rtcm;
      }

  continue-IsSound :
      (rest : RobotService W → RobotService W × Outcome (Unit {0}))
      (x : RobotService W × Outcome (Unit {0}))
      → StaysSound x
      → ((s : RobotService W) → IsSound s.reassembler s.output → StaysSound (rest s))
      → StaysSound (continue rest x)
  continue-IsSound rest (s, raised e) h k = h
  continue-IsSound rest (s, returned u) h k = k s h

  forward-IsSound :
      (now : ℕ) (payloads : List (List ℕ)) (s : RobotService W)
      → IsSound s.reassembler s.output
      → StaysSound (forward port net now payloads s)
  unfolding forward
  forward-IsSound now [] s h = finish-IsSound now s h
  forward-IsSound now (payload ∷ payloads) s h =
      continue-IsSound (forward port net now payloads) _
        (on_decoded-IsSound now (decode payload) s h) (λ s' k. forward-IsSound now payloads s' k)

  after_tick-IsSound :
      (now : ℕ) (ticked : Transport W × Outcome (List (List ℕ))) (s : RobotService W)
      → IsSound s.reassembler s.output
      → StaysSound (after_tick port net now ticked s)
  unfolding after_tick
  after_tick-IsSound now (t, raised e) s h = h
  after_tick-IsSound now (t, returned payloads) s h = forward-IsSound now payloads _ h

  -- Whatever the modem and the sockets do, also when it raises, `step` of the robot service keeps the
  -- bounds of the reassembly and of the clients' queues, if they hold before, and every frame that
  -- waits for a client is a valid RTCM3 frame of at most 1029 bytes, if it was so before.
  pub step-IsSound :
      (now : ℕ) (s : RobotService W)
      → IsSound s.reassembler s.output
      → IsSound (step port net now s).0.reassembler (step port net now s).0.output
  unfolding step
  step-IsSound now s h = after_tick-IsSound now (tick port true s.transport) s h
