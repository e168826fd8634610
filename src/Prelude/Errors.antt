-- ===== src/Prelude/Errors.antt =====
-- Python's exceptions as values: a call returns, or raises one of the exceptions of the code.
-- An exception ends the call; no handler of the modelled code catches one.
use mathlib.Core.Path.{◌≡◌, refl}
use mathlib.Core.Logic.{◌⊎◌, inl, inr}
use mathlib.Core.Bool.{Bool, true, false}
use mathlib.Core.Option.{Option, none, some}

-- `invalid_access` is the `InvalidAccessError` of vllm/utils.py; `attribute_error` is raised by a
-- read of an attribute that the object does not have.
pub data Error : Type 0 where
  value_error key_error index_error assertion_error not_implemented runtime_error : Error
  invalid_access attribute_error type_error : Error
  -- No exception: a modelled loop has used up its fuel.
  out_of_fuel : Error

pub data Result {ℓ} (A : Type ℓ) : Type ℓ where
  ok : A → Result A
  err : Error → Result A

-- `assert b`, and `if not b: raise e`.
abbrev pub guard : Bool → Error → Result (Unit {0})
guard false e = err e
guard true _ = ok tt

infixl 5 ◌>>=◌ ◌>>◌
-- What comes after a call: it runs if the call returns.
abbrev pub ◌>>=◌ {ℓ ℓ'} : {X : Type ℓ} {Y : Type ℓ'} → Result X → (X → Result Y) → Result Y
err e >>= rest = err e
ok x >>= rest = rest x

abbrev pub ◌>>◌ {ℓ} : {Y : Type ℓ} → Result (Unit {0}) → Result Y → Result Y
call >> rest = call >>= λ _. rest

-- The value of an option, or an exception where there is none.
abbrev pub or_raise {ℓ} : {A : Type ℓ} → Option A → Error → Result A
or_raise none e = err e
or_raise (some a) e = ok a

pub Result-cases {ℓ} :
    {A : Type ℓ} (r : Result A) → ((a : A) × (r ≡ ok a)) ⊎ ((e : Error) × (r ≡ err e))
Result-cases (ok a) = inl (a, refl)
Result-cases (err e) = inr (e, refl)

-- A chain that returns: what its first call returns, and the rest.
pub >>=-eq-ok {ℓ ℓ'} :
    {X : Type ℓ} {Y : Type ℓ'} (call : Result X) (rest : X → Result Y) {y : Y}
    → (call >>= rest) ≡ ok y
    → (x : X) × (call ≡ ok x) × (rest x ≡ ok y)
>>=-eq-ok (err e) rest h = cc
>>=-eq-ok (ok x) rest h = (x, refl, h)
