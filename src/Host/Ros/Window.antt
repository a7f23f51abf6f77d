-- ===== src/Host/Ros/Window.antt =====
-- The queue of the reader against the log of all frames, in which it is a window.
use mowgli_lora_link.Prelude.{
  ℕ, zero, suc, ◌+◌, ◌-◌, ◌≡◌, ◌≤◌, ◌<◌, refl, arith, List, [], ◌∷◌, ◌++◌, length, take, drop, max,
  min, if_cases, length-append, length-drop, drop-drop, drop-append, drop_of_length-le, ap, ◌∙◌,
  sym,
}
use mowgli_lora_link.Host.Parser.{RtcmFrame}
use mowgli_lora_link.Host.Ros.{
  Reader, take_fresh, drop_queued_frames, is_full, without_oldest, put_fresh,
}
use mowgli_lora_link.Host.Ros.Freshness.{fresh_frames, take_fresh_lem, shorter}

-- All frames that were ever received, and how many of them are gone.
pub record Log : Type 0 where
  pub history : List RtcmFrame
  pub gone : ℕ

pub data Operation : Type 0 where
  put : RtcmFrame → Operation
  get_up_to : ℕ → ℕ → Operation
  boundary : Operation

-- What is promised: of the frames that are not gone only the latest ones up to the size stay, a reader
-- gets the oldest of them that are fresh, and nothing crosses a boundary.
pub promise : ℕ → Operation → Log → Log × List RtcmFrame
promise size (put frame) l = (
  record { history = l.history ++ (frame ∷ []); gone = max l.gone (length l.history + 1 - size) },
  [],
)
promise size (get_up_to limit now) l = (
  record l { gone = min (l.gone + limit) (length l.history) },
  fresh_frames now (take limit (drop l.gone l.history)),
)
promise size boundary l = (record l { gone = length l.history }, [])

pub perform : Operation → Reader → Reader × List RtcmFrame
unfolding take_fresh put_fresh drop_queued_frames
perform (put frame) r = (put_fresh frame r, [])
perform (get_up_to limit now) r = take_fresh limit now r
perform boundary r = (drop_queued_frames r, [])

pub promise_all : ℕ → List Operation → Log → Log × List (List RtcmFrame)
unfolding promise
promise_all size [] l = (l, [])
promise_all size (op ∷ ops) l =
    let first = promise size op l in
    let rest = promise_all size ops first.0 in (rest.0, first.1 ∷ rest.1)

pub perform_all : List Operation → Reader → Reader × List (List RtcmFrame)
unfolding perform
perform_all [] r = (r, [])
perform_all (op ∷ ops) r =
    let first = perform op r in let rest = perform_all ops first.0 in (rest.0, first.1 ∷ rest.1)

pub record Represents (size : ℕ) (l : Log) (r : Reader) : Type 0 where
  pub window : r.frames ≡ drop l.gone l.history
  pub within : l.gone ≤ length l.history
  pub sized : r.queue_size ≡ size
  pub bounded : length r.frames ≤ size

without_oldest-drop : (n : ℕ) (xs : List RtcmFrame) → without_oldest (drop n xs) ≡ drop (suc n) xs
unfolding without_oldest
without_oldest-drop zero [] = refl
without_oldest-drop zero (x ∷ xs) = refl
without_oldest-drop (suc n) [] = refl
without_oldest-drop (suc n) (x ∷ xs) = without_oldest-drop n xs

min-suc : (m n : ℕ) → min (suc m) (suc n) ≡ suc (min m n)
min-suc m n = omega arith

put-Represents :
    (size : ℕ) (frame : RtcmFrame) (l : Log) (r : Reader)
    → 0 < size
    → Represents size l r
    → Represents size (promise size (put frame) l).0 (put_fresh frame r)
unfolding promise put_fresh
put-Represents size frame l r positive h =
    let size_left : length r.frames ≡ length l.history - l.gone =
      ap length h.window ∙ length-drop l.gone l.history in
    let longer : length (l.history ++ (frame ∷ [])) ≡ length l.history + 1 =
      length-append l.history (frame ∷ []) in
    if_cases (Represents size (promise size (put frame) l).0) (is_full r.queue_size r.frames) _ _
      (λ full.
        let full' : size ≤ length r.frames = ground (arith, h.sized) in
        let gone : max l.gone (length l.history + 1 - size) ≡ suc l.gone =
          omega (arith, h.bounded, size_left, h.within) in
        record {
          window =
              rw
                (
                  gone,
                  drop-append (suc l.gone) l.history (frame ∷ [])
                      (omega (arith, size_left, h.within)),
                  h.window,
                  without_oldest-drop l.gone l.history,
                )
                refl;
          within = rw gone (omega (arith, longer, size_left, h.within));
          sized = h.sized;
          bounded = omega (
            arith,
            h.bounded,
            length-append (without_oldest r.frames) (frame ∷ []),
            shorter r.frames (omega (arith, full', positive)),
          );
        })
      (λ room.
        let room' : length r.frames < size = ground (arith, h.sized) in
        let gone : max l.gone (length l.history + 1 - size) ≡ l.gone =
          omega (arith, size_left, h.within) in
        record {
          window = rw (gone, drop-append l.gone l.history (frame ∷ []) h.within, h.window) refl;
          within = rw gone (omega (arith, longer, size_left, h.within));
          sized = h.sized;
          bounded = omega (arith, room', length-append r.frames (frame ∷ []));
        })

capped : (n : ℕ) (xs : List RtcmFrame) → drop n xs ≡ drop (min n (length xs)) xs
capped zero xs = let e : min 0 (length xs) ≡ 0 = omega arith in rw e refl
capped (suc n) [] = let e : min (suc n) 0 ≡ 0 = omega arith in rw e refl
capped (suc n) (x ∷ xs) = rw (min-suc n (length xs)) (capped n xs)

get_up_to-Represents :
    (size limit now : ℕ) (l : Log) (r : Reader)
    → Represents size l r
    → Represents size (promise size (get_up_to limit now) l).0 (take_fresh limit now r).0
      × ((take_fresh limit now r).1 ≡ (promise size (get_up_to limit now) l).1)
unfolding promise take_fresh
get_up_to-Represents size limit now l r h =
    let (output, fresh, left, counted) = take_fresh_lem limit now r in
    (
      record {
        window =
            left
            ∙ ap (drop limit) h.window
            ∙ drop-drop l.gone limit l.history
            ∙ capped (l.gone + limit) l.history;
        within = omega arith;
        sized = h.sized;
        bounded = omega (arith, h.bounded, ap length left, length-drop limit r.frames);
      },
      output ∙ ap (λ frames. fresh_frames now (take limit frames)) h.window,
    )

perform-Represents :
    (size : ℕ) (op : Operation) (l : Log) (r : Reader)
    → 0 < size
    → Represents size l r
    → Represents size (promise size op l).0 (perform op r).0
      × ((perform op r).1 ≡ (promise size op l).1)
unfolding promise perform drop_queued_frames
perform-Represents size (put frame) l r positive h =
    (put-Represents size frame l r positive h, refl)
perform-Represents size (get_up_to limit now) l r positive h =
    get_up_to-Represents size limit now l r h
perform-Represents size boundary l r positive h = (
  record {
    window = sym (drop_of_length-le (length l.history) l.history (omega arith));
    within = omega arith;
    sized = h.sized;
    bounded = omega arith;
  },
  refl,
)

-- If the queue of the reader is the window of the log, and its size is positive, then every sequence
-- of puts, takes and source boundaries gives on the reader what the log promises, and the queue is
-- the window of the log after it.
pub perform_all-refines :
    (size : ℕ) (ops : List Operation) (l : Log) (r : Reader)
    → 0 < size
    → Represents size l r
    → Represents size (promise_all size ops l).0 (perform_all ops r).0
      × ((perform_all ops r).1 ≡ (promise_all size ops l).1)
unfolding promise_all perform_all
perform_all-refines size [] l r positive h = (h, refl)
perform_all-refines size (op ∷ ops) l r positive h =
    let (next, same) = perform-Represents size op l r positive h in
    let (last, rest) =
      perform_all-refines size ops (promise size op l).0 (perform op r).0 positive next in
    (last, rw (same, rest) refl)
