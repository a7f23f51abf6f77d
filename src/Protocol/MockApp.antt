-- ===== src/Protocol/MockApp.antt =====
-- `make_mock_app` and `parse_mock_app` of tools/lora_usb/protocol.py.
use mowgli_lora_link.Prelude.{
  ℕ, ◌+◌, ◌≡◌, arith, List, ◌∷◌, ◌++◌, length, get_or, drop, not, ◌&&◌, ◌||◌, ◌==◌, ltb, leb,
  Result, ok, protocol_error, struct_error, raise_if, ◌>>◌,
}
use mowgli_lora_link.Wire.{be32, u32_at}

pub record Message : Type 0 where
  pub kind : ℕ
  pub sequence : ℕ
  pub content : List ℕ

mock_body : Message → List ℕ
mock_body m = b'M' ∷ b'B' ∷ 1 ∷ m.kind ∷ (be32 m.sequence ++ (length m.content ∷ m.content))

-- `struct.pack(">I", sequence)` raises on a number past 32 bits.
unfoldable pub make_mock_app : Message → Result (List ℕ)
unfolding mock_body
make_mock_app m = do
  raise_if (not (leb m.kind 255) || ltb 191 (length m.content))
      (protocol_error "bad mock application payload")
  raise_if (ltb 0xFFFFFFFF m.sequence) struct_error
  ok (mock_body m)

pub parse_mock_app : List ℕ → Result Message
parse_mock_app payload = do
  raise_if
      (ltb (length payload) 9
        || (not (get_or payload 0 0 == b'M' && get_or payload 1 0 == b'B')
            || not (get_or payload 2 0 == 1)))
      (protocol_error "bad mock application packet")
  let n = get_or payload 8 0
  raise_if (not (length payload == 9 + n)) (protocol_error "mock application length mismatch")
  ok (record { kind = get_or payload 3 0; sequence = u32_at payload 4; content = drop 9 payload })

make_mock_app_lem : (m : Message) (wire : List ℕ) → make_mock_app m ≡ ok wire → wire ≡ mock_body m
unfolding make_mock_app
make_mock_app_lem m wire e = ground arith

parse_mock_body : (m : Message) → parse_mock_app (mock_body m) ≡ ok m
unfolding parse_mock_app mock_body
parse_mock_body m = ground arith

-- `parse_mock_app` gives back every message that `make_mock_app` accepts.
pub parse_mock_app-make_mock_app :
    (m : Message) (wire : List ℕ) → make_mock_app m ≡ ok wire → parse_mock_app wire ≡ ok m
parse_mock_app-make_mock_app m wire e = rw (make_mock_app_lem m wire e) (parse_mock_body m)
