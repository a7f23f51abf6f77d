-- ===== src/Dict.antt =====
-- Python's `dict` and `OrderedDict`: the entries in insertion order, over keys with an equality test.
pub mod Laws
pub mod Recent
use mowgli_lora_link.Prelude.{
  ℕ, suc, ◌≡◌, ◌↔◌, ◌&&◌, Bool, true, false, List, [], ◌∷◌, ◌++◌, length, Option, none, some, ◌==◌,
  ltb, if◌then◌else◌, arith,
}

pub record Key {ℓ} (K : Type ℓ) : Type ℓ where
  pub same : K → K → Bool
  pub same_iff : (a b : K) → (same a b ≡ true) ↔ (a ≡ b)

abbrev pub same {ℓ} : {K : Type ℓ} ⦃k : Key K⦄ → K → K → Bool
same ⦃k⦄ = k.same

pub num_same_iff : (a b : ℕ) → ((a == b) ≡ true) ↔ (a ≡ b)
num_same_iff a b = ground arith

instance abbrev pub num_key : Key ℕ
num_key = record { same = ◌==◌; same_iff = num_same_iff }

-- A pair of a sender session and a message id.
abbrev pub PairKey : Type 0
PairKey = ℕ × ℕ

abbrev pub same_pair : PairKey → PairKey → Bool
same_pair a b = a.0 == b.0 && a.1 == b.1

pub pair_same_iff : (a b : PairKey) → (same_pair a b ≡ true) ↔ (a ≡ b)
pair_same_iff a b = ground arith

instance abbrev pub pair_key : Key PairKey
pair_key = record { same = same_pair; same_iff = pair_same_iff }

abbrev pub Dict {ℓ κ} : Type ℓ → Type κ → Type (ℓ ⊔ κ)
Dict K V = List (K × V)

module _ {ℓ κ} {K : Type ℓ} {V : Type κ} ⦃k : Key K⦄ where
  -- `d.get(key)`
  unfoldable pub lookup : K → Dict K V → Option V
  lookup key [] = none
  lookup key ((j, v) ∷ d) = if same j key then some v else lookup key d

  -- `key in d`
  unfoldable pub contains : K → Dict K V → Bool
  contains key [] = false
  contains key ((j, v) ∷ d) = if same j key then true else contains key d

  -- `d[key] = v`: a key that is there keeps its place.
  unfoldable pub insert : K → V → Dict K V → Dict K V
  insert key v [] = (key, v) ∷ []
  insert key v ((j, w) ∷ d) = if same j key then (j, v) ∷ d else (j, w) ∷ insert key v d

  -- `del d[key]`, `d.pop(key, …)`
  unfoldable pub remove : K → Dict K V → Dict K V
  remove key [] = []
  remove key ((j, w) ∷ d) = if same j key then d else (j, w) ∷ remove key d

  -- `d[key] = v; d.move_to_end(key)`
  unfoldable pub insert_last : K → V → Dict K V → Dict K V
  unfolding remove
  insert_last key v d = remove key d ++ ((key, v) ∷ [])

-- `while len(d) > n: d.popitem(last=False)`
unfoldable pub trim {ℓ} : {A : Type ℓ} → ℕ → List A → List A
trim n [] = []
trim n (x ∷ xs) = if ltb n (length (x ∷ xs)) then trim n xs else x ∷ xs
