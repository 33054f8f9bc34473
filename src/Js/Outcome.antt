-- ===== src/Js/Outcome.antt =====
-- Exceptions, and computations that return or throw.
use pulumi_kubernetes.Common.{String, ◌≡◌, refl, ◌⊎◌, inl, inr}
use pulumi_kubernetes.Js.Value.{Value, undefined, null, object, property}

-- What can be thrown: `new Error(message)`, the engine's TypeError for a property read of
-- `undefined` or `null`, a `pulumi.RunError`, and what the libraries throw, carried by its
-- `toString()`.
pub data Exception : Type 0 where
  error : String → Exception
  type_error : String → Value → Exception
  run_error : String → Exception
  foreign : String → Exception

pub data Outcome (A : Type 0) : Type 0 where
  ok : A → Outcome A
  throws : Exception → Outcome A

infixl 5 ◌>>=◌
abbrev pub ◌>>=◌ : {A B : Type 0} → Outcome A → (A → Outcome B) → Outcome B
ok a >>= f = f a
throws e >>= f = throws e

-- `v[k]`, for a `k` that is no built-in property of strings, numbers, Booleans and arrays.
unfoldable pub read : Value → String → Outcome Value
read undefined k = throws (type_error k undefined)
read null k = throws (type_error k null)
read (object fs) k = ok (property k fs)
read _ k = ok undefined

pub Outcome-cases :
    {A : Type 0} (o : Outcome A) → ((a : A) × (o ≡ ok a)) ⊎ ((e : Exception) × (o ≡ throws e))
Outcome-cases (ok a) = inl (a, refl)
Outcome-cases (throws e) = inr (e, refl)
