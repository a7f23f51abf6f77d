-- ===== src/Application/Rtcm/Fragments.antt =====
-- The pieces that `fragment` cuts a frame into.
use mowgli_lora_link.Prelude.{
  ℕ, zero, suc, ◌+◌, ◌*◌, ◌≤◌, ◌<◌, ◌≡◌, refl, ap, ◌∙◌, arith, List, [], ◌∷◌, ◌++◌, length,
  length-take, take, drop, take_of_length-le, take_split, drop-drop, All, true, false, ltb, ok,
}
use mowgli_lora_link.Application.Codec.{Frame}
use mowgli_lora_link.Application.Codec.RoundTrip.{IsFrame}
use mowgli_lora_link.Application.Rtcm.{
  valid_rtcm3, type_field, rtcm_type, fragment_data_size, fragment_body, fragments, fragment_count,
  fragment, rtcm_fragment, max_rtcm_frame_size,
}

-- The fragment at an index.
pub piece : List ℕ → ℕ → ℕ → ℕ → ℕ → Frame
piece raw sender_session message_id age_ms index = record {
  typ = rtcm_fragment;
  sender_session = sender_session;
  message_id = message_id;
  source_age_ms = age_ms;
  body = fragment_body (type_field raw) raw index (fragment_count (length raw));
}

-- The n fragments from an index on.
pub pieces : ℕ → ℕ → (ℕ → Frame) → List Frame
pieces zero index make = []
pieces (suc n) index make = make index ∷ pieces n (index + 1) make

rtcm_type-valid : (raw : List ℕ) → valid_rtcm3 raw ≡ true → rtcm_type raw ≡ ok (type_field raw)
unfolding rtcm_type
rtcm_type-valid raw h = rw h

fragments-pieces :
    (n index count : ℕ) (raw : List ℕ) (make : List ℕ → Frame)
    → valid_rtcm3 raw ≡ true
    → fragments n index count raw make
      ≡ ok (pieces n index (λ i. make (fragment_body (type_field raw) raw i count)))
unfolding fragments pieces
fragments-pieces zero index count raw make h = refl
fragments-pieces (suc n) index count raw make h =
    rw (rtcm_type-valid raw h, fragments-pieces n (index + 1) count raw make h)

-- The data of the fragments, one after the other.
pub joined : List Frame → List ℕ
joined [] = []
joined (f ∷ fs) = drop 6 f.body ++ joined fs

joined-pieces :
    (n index : ℕ) (raw : List ℕ) (session id age : ℕ)
    → joined (pieces n index (piece raw session id age))
      ≡ take (n * fragment_data_size) (drop (index * fragment_data_size) raw)
unfolding joined pieces piece fragment_body
joined-pieces zero index raw session id age = refl
joined-pieces (suc n) index raw session id age =
    let next : (index + 1) * 174 ≡ index * 174 + 174 = omega arith in
    let size : 174 + n * 174 ≡ suc n * 174 = omega arith in
    rw (joined-pieces n (index + 1) raw session id age, next)
      (rw (← drop-drop (index * 174) 174 raw) (
        take_split 174 (n * 174) (drop (index * 174) raw)
        ∙ ap (λ k. take k (drop (index * 174) raw)) size))

length-pieces : (n index : ℕ) (make : ℕ → Frame) → length (pieces n index make) ≡ n
unfolding pieces
length-pieces zero index make = refl
length-pieces (suc n) index make = ap suc (length-pieces n (index + 1) make)

-- The count reaches the end of the frame.
count_covers : (n : ℕ) → n ≤ fragment_count n * 174
count_covers n = omega arith

-- The frame and the arguments that `fragment` is called with.
pub record IsFragmentable (raw : List ℕ) (session id age : ℕ) : Type 0 where
  pub valid : valid_rtcm3 raw ≡ true
  pub small : length raw ≤ max_rtcm_frame_size
  pub has_session : 0 < session
  pub session_fits : session ≤ 0xFFFFFFFF
  pub has_id : 0 < id
  pub id_fits : id ≤ 0xFFFFFFFF
  pub age_fits : age ≤ 0xFFFF

fragment-pieces :
    (raw : List ℕ) (session id age : ℕ)
    → valid_rtcm3 raw ≡ true
    → length raw ≤ max_rtcm_frame_size
    → fragment raw session id age
      ≡ ok (pieces (fragment_count (length raw)) 0 (piece raw session id age))
unfolding fragment piece
fragment-pieces raw session id age valid small =
    let fits : ltb max_rtcm_frame_size (length raw) ≡ false = ground arith in
    let few : ltb 6 (fragment_count (length raw)) ≡ false = ground arith in
    rw (valid, fits, few) (fragments-pieces _ 0 _ raw _ valid)

piece-IsFrame :
    (raw : List ℕ) (session id age index : ℕ)
    → IsFragmentable raw session id age
    → IsFrame (piece raw session id age index)
unfolding piece fragment_body
piece-IsFrame raw session id age index h = omega (
  arith,
  length-take 174 (drop (index * 174) raw),
  h.has_session,
  h.session_fits,
  h.has_id,
  h.id_fits,
  h.age_fits,
)

pieces-IsFrame :
    (n index : ℕ) (raw : List ℕ) (session id age : ℕ)
    → IsFragmentable raw session id age
    → All IsFrame (pieces n index (piece raw session id age))
unfolding pieces
pieces-IsFrame zero index raw session id age h = tt
pieces-IsFrame (suc n) index raw session id age h =
    (piece-IsFrame raw session id age index h, pieces-IsFrame n (index + 1) raw session id age h)

-- A valid frame of at most 1029 bytes, sent under an identity and an age in range, is cut into at
-- most six fragments, each of which `encode` accepts, and their data in order is the frame.
pub fragment_lem :
    (raw : List ℕ) (session id age : ℕ)
    → IsFragmentable raw session id age
    → (frames : List Frame) × (fragment raw session id age ≡ ok frames)
      × (length frames ≤ 6)
      × All IsFrame frames
      × (joined frames ≡ raw)
fragment_lem raw session id age h =
    let n = fragment_count (length raw) in
    (
      pieces n 0 (piece raw session id age),
      fragment-pieces raw session id age h.valid h.small,
      omega (arith, length-pieces n 0 (piece raw session id age), h.small),
      pieces-IsFrame n 0 raw session id age h,
      joined-pieces n 0 raw session id age
          ∙ take_of_length-le (n * 174) raw (count_covers (length raw)),
    )
