-- ===== src/Bench/Client/Requests/Scanning.antt =====
-- What the search for a response finds in the inbox of the bench's client.
use mowgli_lora_link.Prelude.{
  ℕ, ◌≡◌, refl, arith, List, [], ◌∷◌, ◌++◌, All, Bool, false, ◌&&◌, ◌||◌, ◌==◌, ap, if_cases,
}
use mowgli_lora_link.Protocol.Frame.{Frame}
use mowgli_lora_link.Host.Modem.{error}
use mowgli_lora_link.Bench.Client.Requests.{Scan, absent, found, refusal, behind, scan}

-- The frame answers the request: with the response that is awaited, or with an error.
abbrev pub answers : ℕ → ℕ → Frame → Bool
answers msg_type seq f = f.sequence == seq && (f.msg_type == msg_type || f.msg_type == error)

-- The first answer counts: a response is taken out, an ERROR frame is not; or there is no answer.
pub data Scanned (msg_type seq : ℕ) (frames : List Frame) : Scan → Type 0 where
  no_answer : All (λ f. answers msg_type seq f ≡ false) frames → Scanned msg_type seq frames absent
  response :
      (before : List Frame) (f : Frame) (rest : List Frame)
      → frames ≡ before ++ (f ∷ rest)
      → All (λ g. answers msg_type seq g ≡ false) before
      → f.msg_type ≡ msg_type
      → f.sequence ≡ seq
      → Scanned msg_type seq frames (found f (before ++ rest))
  erred :
      (before : List Frame) (f : Frame) (rest : List Frame)
      → frames ≡ before ++ (f ∷ rest)
      → All (λ g. answers msg_type seq g ≡ false) before
      → f.msg_type ≡ error
      → f.sequence ≡ seq
      → Scanned msg_type seq frames (refusal f.payload)

scan_behind :
    (msg_type seq : ℕ) (x : Frame) (frames : List Frame) (r : Scan)
    → answers msg_type seq x ≡ false
    → Scanned msg_type seq frames r
    → Scanned msg_type seq (x ∷ frames) (behind x r)
unfolding behind
scan_behind msg_type seq x frames absent e (no_answer h) = no_answer (e, h)
scan_behind msg_type seq x frames (found f left) e (response before g rest split h k l) =
    response (x ∷ before) g rest (ap (λ fs. x ∷ fs) split) (e, h) k l
scan_behind msg_type seq x frames (refusal p) e (erred before g rest split h k l) =
    erred (x ∷ before) g rest (ap (λ fs. x ∷ fs) split) (e, h) k l

pub scan-Scanned :
    (msg_type seq : ℕ) (frames : List Frame)
    → Scanned msg_type seq frames (scan msg_type seq frames)
unfolding scan
scan-Scanned msg_type seq [] = no_answer tt
scan-Scanned msg_type seq (x ∷ frames) =
    if_cases (Scanned msg_type seq (x ∷ frames)) (x.msg_type == msg_type && x.sequence == seq) _ _
      (λ e. response [] x frames refl tt (ground arith) (ground arith))
      (λ e.
        if_cases (Scanned msg_type seq (x ∷ frames)) (x.msg_type == error && x.sequence == seq) _ _
          (λ e'. erred [] x frames refl tt (ground arith) (ground arith))
          (λ e'.
            scan_behind msg_type seq x frames (scan msg_type seq frames) (ground arith)
              (scan-Scanned msg_type seq frames)))
