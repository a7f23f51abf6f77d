-- ===== src/Prelude/Errors.antt =====
-- Python exceptions as values. The text of a `ProtocolError` or an `ApplicationError` is kept, since
-- the source tells its failures apart by it.
use Prim.Native.String.{String}
use mathlib.Core.Bool.{Bool, true, false}
use mathlib.Core.Path.{◌≡◌, refl}
use mathlib.Core.Logic.{◌⊎◌, inl, inr}

-- `out_of_fuel` is no Python exception: it marks a loop of the model that was given too little fuel.
pub data Error : Type 0 where
  protocol_error : String → Error
  application_error : String → Error
  struct_error : Error
  key_error : Error
  value_error : String → Error
  out_of_fuel : Error

pub data Result {ℓ} (A : Type ℓ) : Type ℓ where
  err : (raised : Error) → Result A
  ok : (value : A) → Result A

infixl 5 ◌>>=◌
-- The statements that follow run only if the first one has not raised.
abbrev pub ◌>>=◌ {κ ℓ} : {B : Type κ} {A : Type ℓ} → Result A → (next : A → Result B) → Result B
err raised >>= next = err raised
ok value >>= next = next value

infixl 5 ◌>>◌
abbrev pub ◌>>◌ {ℓ} : {A : Type ℓ} (test : Result (Unit {0})) → Result A → Result A
test >> next = test >>= λ _. next

-- `if bad: raise e`
abbrev pub raise_if : Bool → Error → Result (Unit {0})
raise_if true e = err e
raise_if false e = ok tt

pub Result-cases {ℓ} :
    {A : Type ℓ} (r : Result A) → ((a : A) × (r ≡ ok a)) ⊎ ((e : Error) × (r ≡ err e))
Result-cases (ok a) = inl (a, refl)
Result-cases (err e) = inr (e, refl)
