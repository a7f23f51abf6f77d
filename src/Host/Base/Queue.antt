-- ===== src/Host/Base/Queue.antt =====
-- The frames that the base service keeps.
use mowgli_lora_link.Prelude.{
  ℕ, ◌+◌, ◌-◌, ◌≡◌, ◌≤◌, refl, sym, ◌∙◌, ap, arith, List, [], ◌∷◌, ◌++◌, length, drop, ltb,
  if_cases, length-append, length-drop, drop-drop, drop-append, append_assoc, append-nil, Result,
  ok, All, if_elim,
}
use mowgli_lora_link.Host.Parser.{RtcmFrame, feed}
use mowgli_lora_link.Host.Parser.Accounting.{Accounted, feed-Fed}
use mowgli_lora_link.Host.Parser.Rounds.{Good}
use mowgli_lora_link.Host.Modem.{add}
use mowgli_lora_link.Host.Base.{
  BaseService, bound_queue, enqueue_all, measure, ingest, update_queue_metrics, update_rates,
  max_queued_rtcm_frames,
}

-- The last 128 of the frames.
pub latest : List RtcmFrame → List RtcmFrame
latest xs = drop (length xs - max_queued_rtcm_frames) xs

latest-short : (xs : List RtcmFrame) → length xs ≤ max_queued_rtcm_frames → latest xs ≡ xs
unfolding latest
latest-short xs h = let e : length xs - max_queued_rtcm_frames ≡ 0 = omega arith in rw e refl

latest-append : (xs ys : List RtcmFrame) → latest (latest xs ++ ys) ≡ latest (xs ++ ys)
unfolding latest
latest-append xs ys =
    let k = length xs - max_queued_rtcm_frames in
    let whole = length (xs ++ ys) in
    let joined : drop k xs ++ ys ≡ drop k (xs ++ ys) = sym (drop-append k xs ys (omega arith)) in
    let e : k + (whole - k - max_queued_rtcm_frames) ≡ whole - max_queued_rtcm_frames =
      omega (arith, length-append xs ys) in
    rw (joined, length-drop k (xs ++ ys))
      (drop-drop k (whole - k - max_queued_rtcm_frames) (xs ++ ys) ∙ ap (λ n. drop n (xs ++ ys)) e)

length-latest : (xs : List RtcmFrame) → length (latest xs) ≤ max_queued_rtcm_frames
unfolding latest
length-latest xs = omega (arith, length-drop (length xs - max_queued_rtcm_frames) xs)

module _ {W : Type 0} where
  bound_queue-latest :
      (s : BaseService W) → length s.queue ≤ 129 → (bound_queue s).queue ≡ latest s.queue
  unfolding bound_queue latest
  bound_queue-latest s h =
      if_cases
        (λ (r : BaseService W). r.queue ≡ drop (length s.queue - max_queued_rtcm_frames) s.queue)
        (ltb max_queued_rtcm_frames (length s.queue)) _ _
        (λ long. let e : length s.queue - max_queued_rtcm_frames ≡ 1 = ground arith in rw e refl)
        (λ short. let e : length s.queue - max_queued_rtcm_frames ≡ 0 = ground arith in rw e refl)

  enqueue_all-latest :
      (frames : List RtcmFrame) (s : BaseService W)
      → length s.queue ≤ max_queued_rtcm_frames
      → (enqueue_all frames s).queue ≡ latest (s.queue ++ frames)
  unfolding enqueue_all
  enqueue_all-latest [] s h = rw (append-nil s.queue) (sym (latest-short s.queue h))
  enqueue_all-latest (frame ∷ frames) s h =
      let longer : BaseService W = record s { queue = s.queue ++ (frame ∷ []) } in
      let bounded = bound_queue-latest longer (omega (arith, length-append s.queue (frame ∷ []))) in
      enqueue_all-latest frames _ (rw bounded (length-latest longer.queue))
      ∙ ap (λ xs. latest (xs ++ frames)) bounded
      ∙ latest-append longer.queue frames
      ∙ ap latest (append_assoc s.queue (frame ∷ []) frames)

  -- What the loop of `ingest` leaves alone.
  pub record Untouched (s s' : BaseService W) : Type 0 where
    pub parser : s'.parser ≡ s.parser
    pub fragments : s'.fragments ≡ s.fragments
    pub transport : s'.transport ≡ s.transport
    pub in_flight : s'.in_flight ≡ s.in_flight
    pub session : s'.session ≡ s.session

  bound_queue-Untouched : (s : BaseService W) → Untouched s (bound_queue s)
  unfolding bound_queue
  bound_queue-Untouched s =
      if_elim (Untouched s) (ltb max_queued_rtcm_frames (length s.queue)) _ _
        (record {
          parser = refl;
          fragments = refl;
          transport = refl;
          in_flight = refl;
          session = refl;
        })
        (record {
          parser = refl;
          fragments = refl;
          transport = refl;
          in_flight = refl;
          session = refl;
        })

  enqueue_all-Untouched :
      (frames : List RtcmFrame) (s : BaseService W) → Untouched s (enqueue_all frames s)
  unfolding enqueue_all
  enqueue_all-Untouched [] s = record {
    parser = refl;
    fragments = refl;
    transport = refl;
    in_flight = refl;
    session = refl;
  }
  enqueue_all-Untouched (frame ∷ frames) s =
      let h = bound_queue-Untouched (record s { queue = s.queue ++ (frame ∷ []) }) in
      let k = enqueue_all-Untouched frames _ in
      record {
        parser = k.parser ∙ h.parser;
        fragments = k.fragments ∙ h.fragments;
        transport = k.transport ∙ h.transport;
        in_flight = k.in_flight ∙ h.in_flight;
        session = k.session ∙ h.session;
      }

  -- What a call of `ingest` returns: the number of the frames that the parser finds in the chunk, which
  -- are valid; the parser is as it left it, and the queue holds the last
  -- 128 of the queued frames and of these.
  pub record Ingested (chunk : List ℕ) (now : ℕ) (s : BaseService W)
      (r : Result (BaseService W × ℕ)) : Type 0 where
    pub service : BaseService W
    pub frames : List RtcmFrame
    pub result : r ≡ ok (service, length frames)
    pub parsed : feed s.parser chunk now ≡ ok (service.parser, frames)
    pub good : All (Good now) frames
    pub queue : service.queue ≡ latest (s.queue ++ frames)
    pub bounded : length service.queue ≤ max_queued_rtcm_frames
    pub accounted : Accounted service.parser
    pub fragments_stay : service.fragments ≡ s.fragments
    pub transport_stays : service.transport ≡ s.transport

  -- If at most 128 frames are queued and every byte so far is in the parser's buffer or counted once,
  -- `ingest` returns the number of the frames that `feed` finds in the chunk, all of them valid, with
  -- the parser as `feed` leaves it. It enqueues these frames, drops the oldest ones beyond 128, and
  -- leaves the fragments and the transport alone.
  pub ingest-Ingested :
      (chunk : List ℕ) (now : ℕ) (s : BaseService W)
      → length s.queue ≤ max_queued_rtcm_frames
      → Accounted s.parser
      → Ingested chunk now s (ingest chunk now s)
  unfolding ingest measure update_queue_metrics update_rates
  ingest-Ingested chunk now s h k =
      let fed = feed-Fed s.parser chunk now k in
      let started : BaseService W = record s {
        parser = fed.last;
        input_rate = s.input_rate ++ ((now, length chunk, length fed.frames) ∷ []);
        metrics = s.metrics ++ (add "rtcm_input_bytes" (length chunk) ∷ []);
      } in
      let same = enqueue_all-Untouched fed.frames started in
      let queue = enqueue_all-latest fed.frames started h in
      record {
        service = measure now (enqueue_all fed.frames started);
        frames = fed.frames;
        result = rw fed.result refl;
        parsed = rw same.parser fed.result;
        good = fed.good;
        queue = queue;
        bounded = rw queue (length-latest (s.queue ++ fed.frames));
        accounted = rw same.parser fed.accounted;
        fragments_stay = same.fragments;
        transport_stays = same.transport;
      }
