-- ===== src/Protocol/Cobs.antt =====
-- `cobs_encode` and `cobs_decode` of tools/lora_usb/protocol.py.
pub mod Blocks
pub mod RoundTrip
mod Tests
use mathlib.Core.List.{foldl}
use mowgli_lora_link.Prelude.{
  ℕ, zero, suc, ◌+◌, ◌-◌, List, [], ◌∷◌, ◌++◌, length, set, take, drop, Bool, true, false, not,
  ◌&&◌, ◌==◌, ltb, if◌then◌else◌, Result, ok, err, Error, protocol_error, out_of_fuel,
}

-- The local variables of `cobs_encode`.
pub record Encoder : Type 0 where
  pub out : List ℕ
  pub code : ℕ
  pub code_pos : ℕ

-- `out[code_pos] = code; code_pos = len(out); out.append(0); code = 1`
close_block : Encoder → Encoder
close_block s = record {
  out = set s.out s.code_pos s.code ++ (0 ∷ []);
  code = 1;
  code_pos = length s.out;
}

encode_byte : Encoder → ℕ → Encoder
unfolding close_block
encode_byte s byte =
    if byte == 0
    then close_block s
    else (let s' : Encoder = record s { out = s.out ++ (byte ∷ []); code = s.code + 1 } in
        if s'.code == 0xFF then close_block s' else s')

finish : Encoder → List ℕ
finish s = set s.out s.code_pos s.code

pub cobs_encode : List ℕ → List ℕ
unfolding encode_byte finish
cobs_encode [] = 1 ∷ []
cobs_encode (b ∷ bs) =
    finish (foldl encode_byte (record { out = 0 ∷ []; code = 1; code_pos = 0 }) (b ∷ bs))

-- The `while` loop of `cobs_decode` on `data[i:]`, one round for each code byte: `end` is `code` behind
-- `i`. A round that took no byte would leave `data[i:]` as it is; the fuel bounds the rounds.
decode_loop : ℕ → List ℕ → List ℕ → Result (List ℕ)
decode_loop fuel [] out = ok out
decode_loop zero (code ∷ rest) out = err out_of_fuel
decode_loop (suc fuel) (code ∷ rest) out =
    let block = take (code - 1) rest in
    let rest' = drop code (code ∷ rest) in
    let more = not (code == 0xFF) && ltb 0 (length rest') in
    let next = decode_loop fuel rest' (out ++ block ++ (if more then 0 ∷ [] else [])) in
    if code == 0
    then err (protocol_error "zero COBS code")
    else if ltb (length (code ∷ rest)) code
    then err (protocol_error "truncated COBS frame")
    else next

pub cobs_decode : List ℕ → Result (List ℕ)
unfolding decode_loop
cobs_decode [] = err (protocol_error "empty COBS frame")
cobs_decode (b ∷ bs) = decode_loop (length (b ∷ bs)) (b ∷ bs) []
