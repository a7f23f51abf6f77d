-- ===== src/Host/Output/Invariant.antt =====
-- What holds of the queue of each client, for a property that the operations on one queue keep.
use mowgli_lora_link.Prelude.{
  ℕ, zero, suc, ◌+◌, ◌≡◌, List, [], ◌∷◌, ◌++◌, length, All, false, ◌||◌, ◌==◌, ltb, leb, if_elim,
  if_cases, String,
}
use mowgli_lora_link.Dict.{num_key, Dict, insert, remove}
use mowgli_lora_link.Host.Output.{
  Queued, SendResult, took, would_block, socket_error, Output, accept, queued_bytes, drop_client,
  is_stale, advance, after_send, flush_each, flush, head_is_stale, publish_each, publish,
  max_queue_bytes, max_queue_frames,
}

module _ (Q : List Queued → Type 0) (empty : Q [])
    (advances : (n : ℕ) (pending : Queued) (frames : List Queued)
      → Q (pending ∷ frames)
      → Q (advance n pending frames)) where
  abbrev pub AllHold : Dict ℕ (List Queued) → Type 0
  AllHold clients = All (λ entry. Q entry.1) clients

  insert-AllHold :
      (client : ℕ) (frames : List Queued) (d : Dict ℕ (List Queued))
      → Q frames
      → AllHold d
      → AllHold (insert client frames d)
  unfolding insert
  insert-AllHold client frames [] h k = (h, tt)
  insert-AllHold client frames ((j, w) ∷ d) h k =
      if_elim AllHold (j == client) _ _ (h, k.1) (k.0, insert-AllHold client frames d h k.1)

  remove-AllHold : (client : ℕ) (d : Dict ℕ (List Queued)) → AllHold d → AllHold (remove client d)
  unfolding remove
  remove-AllHold client [] k = tt
  remove-AllHold client ((j, w) ∷ d) k =
      if_elim AllHold (j == client) _ _ k.1 (k.0, remove-AllHold client d k.1)

  accept-AllHold :
      (waiting : List ℕ) (o : Output) → AllHold o.clients → AllHold (accept waiting o).clients
  unfolding accept
  accept-AllHold [] o h = h
  accept-AllHold (client ∷ waiting) o h = accept-AllHold waiting _ (
      if_elim (λ (p : Output). AllHold p.clients) _ _ _ h
        (insert-AllHold client [] o.clients empty h))

  drop_client-AllHold :
      (client : ℕ) (dropped : String) (o : Output)
      → AllHold o.clients
      → AllHold (drop_client client dropped o).clients
  unfolding drop_client
  drop_client-AllHold client dropped o h = remove-AllHold client o.clients h

  after_send-AllHold :
      (client : ℕ) (pending : Queued) (frames : List Queued) (r : SendResult) (o : Output)
      → Q (pending ∷ frames)
      → AllHold o.clients
      → AllHold (after_send client pending frames r o).clients
  unfolding after_send
  after_send-AllHold client pending frames would_block o h k = k
  after_send-AllHold client pending frames socket_error o h k =
      drop_client-AllHold client "rtcm_tcp_client_dropped_socket_error" o k
  after_send-AllHold client pending frames (took zero) o h k =
      drop_client-AllHold client "rtcm_tcp_client_dropped_closed" o k
  after_send-AllHold client pending frames (took (suc n)) o h k =
      insert-AllHold client _ o.clients (advances (suc n) pending frames h) k

  flush_each-AllHold :
      (send : ℕ → List ℕ → SendResult) (now : ℕ) (snapshot : Dict ℕ (List Queued)) (o : Output)
      → AllHold snapshot
      → AllHold o.clients
      → AllHold (flush_each send now snapshot o).clients
  unfolding flush_each
  flush_each-AllHold send now [] o h k = k
  flush_each-AllHold send now ((client, []) ∷ rest) o h k = flush_each-AllHold send now rest o h.1 k
  flush_each-AllHold send now ((client, pending ∷ frames) ∷ rest) o h k =
      flush_each-AllHold send now rest _ h.1 (
        if_elim (λ (p : Output). AllHold p.clients) (is_stale now pending) _ _
          (drop_client-AllHold client "rtcm_tcp_client_dropped_stale" o k)
          (after_send-AllHold client pending frames _ o h.0 k))

  pub flush-AllHold :
      (waiting : List ℕ) (send : ℕ → List ℕ → SendResult) (now : ℕ) (o : Output)
      → AllHold o.clients
      → AllHold (flush waiting send now o).clients
  unfolding flush
  flush-AllHold waiting send now o h =
      let k = accept-AllHold waiting o h in
      flush_each-AllHold send now (accept waiting o).clients (accept waiting o) k k

  module _ (raw : List ℕ)
      (pushes : (frames : List Queued) (now : ℕ)
        → (leb max_queue_frames (length frames)
            || ltb max_queue_bytes (queued_bytes frames + length raw))
          ≡ false
        → Q frames
        → Q (frames ++ (record { raw = raw; enqueued_at = now; offset = 0 } ∷ []))) where
    publish_each-AllHold :
        (now : ℕ) (snapshot : Dict ℕ (List Queued)) (o : Output)
        → AllHold snapshot
        → AllHold o.clients
        → AllHold (publish_each raw now snapshot o).0.clients
    unfolding publish_each
    publish_each-AllHold now [] o h k = k
    publish_each-AllHold now ((client, frames) ∷ rest) o h k =
        if_elim (λ (p : Output × ℕ). AllHold p.0.clients) (head_is_stale now frames) _ _
          (publish_each-AllHold now rest _ h.1
            (drop_client-AllHold client "rtcm_tcp_client_dropped_stale" o k))
          (if_cases (λ (p : Output × ℕ). AllHold p.0.clients)
            (leb max_queue_frames (length frames)
              || ltb max_queue_bytes (queued_bytes frames + length raw))
            _ _
            (λ slow.
              publish_each-AllHold now rest _ h.1
                (drop_client-AllHold client "rtcm_tcp_client_dropped_slow" o k))
            (λ room.
              publish_each-AllHold now rest _ h.1
                (insert-AllHold client _ o.clients (pushes frames now room h.0) k)))

    pub publish-AllHold :
        (waiting later : List ℕ) (send : ℕ → List ℕ → SendResult) (now : ℕ) (o : Output)
        → AllHold o.clients
        → AllHold (publish waiting later send raw now o).0.clients
    unfolding publish
    publish-AllHold waiting later send now o h =
        let k = accept-AllHold waiting o h in
        flush-AllHold later send now _
          (publish_each-AllHold now (accept waiting o).clients (accept waiting o) k k)

-- Every frame of the queue has a property of its bytes.
abbrev pub AllRaw : (List ℕ → Type 0) → List Queued → Type 0
AllRaw P frames = All (λ q. P q.raw) frames

pub advance-AllRaw :
    (P : List ℕ → Type 0) (n : ℕ) (pending : Queued) (frames : List Queued)
    → AllRaw P (pending ∷ frames)
    → AllRaw P (advance n pending frames)
unfolding advance
advance-AllRaw P n pending frames h =
    if_elim (AllRaw P) (pending.offset + n == length pending.raw) _ _ h.1 h
