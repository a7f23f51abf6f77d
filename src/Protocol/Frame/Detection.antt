-- ===== src/Protocol/Frame/Detection.antt =====
-- What `decode_frame` accepts, and the corruption that it rejects.
use mowgli_lora_link.Prelude.{
  ℕ, ◌-◌, ◌≡◌, ◌≢◌, ◌↔◌, refl, sym, ◌∙◌, ap, arith, List, [], ◌∷◌, ◌++◌, length, All, drop_last,
  drop_last-append, ok, err, Error, Result-cases, inl, inr,
}
use mowgli_lora_link.Crc.{IsByte, crc16}
use mowgli_lora_link.Crc.Detection.{crc16_detects_byte}
use mowgli_lora_link.Wire.{be16, u16_at}
use mowgli_lora_link.Wire.Laws.{u16_at_end}
use mowgli_lora_link.Protocol.Frame.{Frame, frame_body, encode_frame, decode_body}
use mowgli_lora_link.Protocol.Frame.RoundTrip.{IsFrame, decode_frame-encode_frame}

encode_frame-IsFrame : (f : Frame) (wire : List ℕ) → encode_frame f ≡ ok wire → IsFrame f
unfolding encode_frame
encode_frame-IsFrame f wire e = ground arith

-- `encode_frame` returns a value exactly on the frames in range.
pub encode_frame-accepts : (f : Frame) → ((wire : List ℕ) × (encode_frame f ≡ ok wire)) ↔ IsFrame f
encode_frame-accepts f = (
  λ (wire, e). encode_frame-IsFrame f wire e,
  λ h. let (wire, e, _, _) = decode_frame-encode_frame f h in (wire ++ (0 ∷ []), e),
)

decode_body-crc :
    (body : List ℕ) (f : Frame)
    → decode_body body ≡ ok f
    → crc16 (drop_last 2 body) ≡ u16_at body (length body - 2)
unfolding decode_body
decode_body-crc body f e = ground arith

-- If one byte of what the checksum of a frame of bytes covers is changed to another byte, the
-- frame does not decode, wherever it stands.
pub decode_body_rejects :
    (f : Frame) (xs ys : List ℕ) (b b' : ℕ)
    → frame_body f ≡ xs ++ (b ∷ ys)
    → All IsByte (frame_body f)
    → IsByte b'
    → b ≢ b'
    → (e : Error) × (decode_body ((xs ++ (b' ∷ ys)) ++ be16 (crc16 (frame_body f))) ≡ err e)
decode_body_rejects f xs ys b b' split bytes byte changed =
    let body = (xs ++ (b' ∷ ys)) ++ be16 (crc16 (frame_body f)) in
    elim (Result-cases (decode_body body)) [
      | inr failed ↦ failed
      | inl (g, decoded) ↦
          let crc = decode_body-crc body g decoded in
          absurd (
            crc16_detects_byte xs ys b b' (rw split at bytes) byte changed (
              ap crc16 (sym split)
              ∙ sym (u16_at_end (xs ++ (b' ∷ ys)) (crc16 (frame_body f)))
              ∙ sym crc
              ∙ ap crc16 (drop_last-append (xs ++ (b' ∷ ys)) (be16 (crc16 (frame_body f))) 2 refl)))
    ]
