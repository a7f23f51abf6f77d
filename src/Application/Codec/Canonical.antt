-- ===== src/Application/Codec/Canonical.antt =====
-- `encode` after `decode`, and `decode` on a frame with a changed byte.
use mowgli_lora_link.Prelude.{
  ℕ, ◌+◌, ◌-◌, ◌*◌, ◌≤◌, ◌<◌, ◌≡◌, ◌≢◌, refl, sym, subst, ◌∙◌, ap, arith, List, [], ◌∷◌, ◌++◌,
  length, length-append, get_or, drop, drop_last, drop_last-append, All, All_right, ok, err, Error,
  Result-cases, inl, inr,
}
use mowgli_lora_link.Crc.{IsByte, crc16}
use mowgli_lora_link.Crc.Detection.{crc16_detects_byte}
use mowgli_lora_link.Wire.{be16, u16_at, u32_at}
use mowgli_lora_link.Wire.Laws.{u16_at_end, be16_bytes, be32_bytes}
use mowgli_lora_link.Application.Codec.{Frame, header_and_body, encode, decode, max_body_size}
use mowgli_lora_link.Application.Codec.RoundTrip.{IsFrame, encode-ok}

-- The fields that `decode` returns.
abbrev fields : List ℕ → Frame
fields raw = record {
  typ = get_or raw 3 0;
  sender_session = u32_at raw 6;
  message_id = u32_at raw 10;
  source_age_ms = u16_at raw 14;
  body = drop 18 (drop_last 2 raw);
}

decode-fields : (raw : List ℕ) (f : Frame) → decode raw ≡ ok f → f ≡ fields raw
unfolding decode
decode-fields raw f e = ground arith

record Checked (raw : List ℕ) : Type 0 where
  long : 20 ≤ length raw
  magic : (get_or raw 0 0 ≡ b'M') × (get_or raw 1 0 ≡ b'A')
  header : (get_or raw 2 0 ≡ 1) × (get_or raw 4 0 ≡ 0) × (get_or raw 5 0 ≡ 0)
  session : 0 < u32_at raw 6
  id : 0 < u32_at raw 10
  small : u16_at raw 16 ≤ max_body_size
  whole : length raw ≡ 20 + u16_at raw 16
  crc : crc16 (drop_last 2 raw) ≡ u16_at raw (length raw - 2)

decode-Checked : (raw : List ℕ) (f : Frame) → decode raw ≡ ok f → Checked raw
unfolding decode
decode-Checked raw f e = ground arith

-- A sequence that passes the tests, taken apart: 18 header bytes, the body and two checksum bytes.
module _ (t s0 s1 s2 s3 m0 m1 m2 m3 a0 a1 l0 l1 c0 c1 : ℕ) (body : List ℕ) where
  covered : List ℕ
  covered =
      b'M' ∷ b'A' ∷ 1 ∷ t ∷ 0 ∷ 0 ∷ s0 ∷ s1 ∷ s2 ∷ s3 ∷ m0 ∷ m1 ∷ m2 ∷ m3 ∷ a0 ∷ a1 ∷ l0 ∷ l1 ∷ body

  raw_of : List ℕ
  unfolding covered
  raw_of = covered ++ (c0 ∷ c1 ∷ [])

  read : Frame
  read = record {
    typ = t;
    sender_session = s0 * 16777216 + s1 * 65536 + s2 * 256 + s3;
    message_id = m0 * 16777216 + m1 * 65536 + m2 * 256 + m3;
    source_age_ms = a0 * 256 + a1;
    body = body;
  }

  drop_last-raw_of : drop_last 2 raw_of ≡ covered
  unfolding raw_of
  drop_last-raw_of = drop_last-append covered (c0 ∷ c1 ∷ []) 2 refl

  fields-raw_of : fields raw_of ≡ read
  unfolding read raw_of
  fields-raw_of = ap (λ x. record read { body = drop 18 x }) drop_last-raw_of

  crc-raw_of : IsByte c0 → IsByte c1 → u16_at raw_of (length raw_of - 2) ≡ c0 * 256 + c1
  unfolding raw_of
  crc-raw_of h h' = rw (be16_bytes c0 c1 h h') at (u16_at_end covered (c0 * 256 + c1))

  header_and_body-read :
      All IsByte raw_of → length body ≡ l0 * 256 + l1 → header_and_body read ≡ covered
  unfolding header_and_body read raw_of
  header_and_body-read h size =
      let session =
        be32_bytes s0 s1 s2 s3 (omega arith) (omega arith) (omega arith) (omega arith) in
      let id = be32_bytes m0 m1 m2 m3 (omega arith) (omega arith) (omega arith) (omega arith) in
      let age = be16_bytes a0 a1 (omega arith) (omega arith) in
      let length' = ap be16 size ∙ be16_bytes l0 l1 (omega arith) (omega arith) in
      λ i. b'M' ∷ b'A' ∷ 1 ∷ t ∷ 0 ∷ 0 ∷ (session i ++ (id i ++ (age i ++ (length' i ++ body))))

  checksum_bytes : All IsByte raw_of → IsByte c0 × IsByte c1
  unfolding raw_of covered
  checksum_bytes h = let tail = All_right IsByte covered (c0 ∷ c1 ∷ []) h in (tail.0, tail.1.0)

  length-raw_of : length raw_of ≡ 20 + length body
  unfolding raw_of covered
  length-raw_of = omega (arith, length-append body (c0 ∷ c1 ∷ []))

  read-IsFrame : All IsByte raw_of → Checked raw_of → length body ≡ l0 * 256 + l1 → IsFrame read
  unfolding read raw_of covered
  read-IsFrame h checked size = omega arith

  encode-read : All IsByte raw_of → Checked raw_of → encode read ≡ ok raw_of
  unfolding raw_of
  encode-read h checked =
      let (h0, h1) = checksum_bytes h in
      let size : length body ≡ l0 * 256 + l1 =
        unfold raw_of covered in omega (arith, length-raw_of, checked.whole) in
      let crc : crc16 covered ≡ c0 * 256 + c1 =
        ap crc16 (sym drop_last-raw_of) ∙ checked.crc ∙ crc-raw_of h0 h1 in
      encode-ok read (read-IsFrame h checked size)
      ∙ ap (λ x. ok (x ++ be16 (crc16 x))) (header_and_body-read h size)
      ∙ ap (λ x. ok (covered ++ x)) (ap be16 crc ∙ be16_bytes c0 c1 h0 h1)

  encode_of_parts :
      (raw : List ℕ) (f : Frame)
      → raw ≡ raw_of
      → All IsByte raw
      → decode raw ≡ ok f
      → encode f ≡ ok raw
  encode_of_parts raw f same h decoded =
      let decoded' : decode raw_of ≡ ok f = rw same at decoded in
      ap encode (decode-fields raw_of f decoded' ∙ fields-raw_of)
      ∙ encode-read (subst (All IsByte) same h) (decode-Checked raw_of f decoded')
      ∙ ap ok (sym same)

-- A sequence of two bytes or more ends in two bytes.
last_two :
    (xs : List ℕ) → 2 ≤ length xs → (ys : List ℕ) × (a : ℕ) × (b : ℕ) × (xs ≡ ys ++ (a ∷ b ∷ []))
last_two (a ∷ b ∷ []) h = ([], a, b, refl)
last_two (x ∷ y ∷ z ∷ xs) h =
    let (ys, a, b, e) = last_two (y ∷ z ∷ xs) (omega arith) in (x ∷ ys, a, b, ap (◌∷◌ x) e)
last_two _ h = absurd (omega arith)

encode_of_Checked :
    (raw : List ℕ) (f : Frame)
    → All IsByte raw
    → Checked raw
    → decode raw ≡ ok f
    → encode f ≡ ok raw
encode_of_Checked
      (g0 ∷ g1 ∷ v ∷ t ∷ z0 ∷ z1 ∷ s0 ∷ s1 ∷ s2 ∷ s3 ∷ m0 ∷ m1 ∷ m2 ∷ m3 ∷ a0 ∷ a1 ∷ l0 ∷ l1 ∷ rest)
      f h checked decoded =
    let (body, c0, c1, e) = last_two rest (omega (arith, checked.long)) in
    encode_of_parts t s0 s1 s2 s3 m0 m1 m2 m3 a0 a1 l0 l1 c0 c1 body _ f
      (unfold raw_of covered in
        λ i.
          checked.magic.0 i
          ∷ checked.magic.1 i
          ∷ checked.header.0 i
          ∷ t
          ∷ checked.header.1 i
          ∷ checked.header.2 i
          ∷ s0
          ∷ s1
          ∷ s2
          ∷ s3
          ∷ m0
          ∷ m1
          ∷ m2
          ∷ m3
          ∷ a0
          ∷ a1
          ∷ l0
          ∷ l1
          ∷ e i)
      h decoded
encode_of_Checked _ f h checked decoded = absurd (omega (arith, checked.long))

-- Whatever bytes `decode` accepts are the ones that `encode` writes for the frame: no frame has
-- two encodings.
pub encode-decode :
    (raw : List ℕ) (f : Frame) → All IsByte raw → decode raw ≡ ok f → encode f ≡ ok raw
encode-decode raw f h decoded = encode_of_Checked raw f h (decode-Checked raw f decoded) decoded

-- If one byte of what the checksum of a frame of bytes covers is changed to another byte, the
-- frame does not decode, wherever it stands.
pub decode_rejects :
    (f : Frame) (xs ys : List ℕ) (b b' : ℕ)
    → header_and_body f ≡ xs ++ (b ∷ ys)
    → All IsByte (header_and_body f)
    → IsByte b'
    → b ≢ b'
    → (e : Error) × (decode ((xs ++ (b' ∷ ys)) ++ be16 (crc16 (header_and_body f))) ≡ err e)
decode_rejects f xs ys b b' split bytes byte changed =
    let crc = crc16 (header_and_body f) in
    let corrupt = xs ++ (b' ∷ ys) in
    elim (Result-cases (decode (corrupt ++ be16 crc))) [
      | inr failed ↦ failed
      | inl (g, decoded) ↦ absurd (
          crc16_detects_byte xs ys b b' (rw split at bytes) byte changed (
            ap crc16 (sym split)
            ∙ sym (u16_at_end corrupt crc)
            ∙ sym (decode-Checked (corrupt ++ be16 crc) g decoded).crc
            ∙ ap crc16 (drop_last-append corrupt (be16 crc) 2 refl)))
    ]
