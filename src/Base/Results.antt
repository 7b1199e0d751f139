-- ===== src/Base/Results.antt =====
-- The outcome of a fallible call (StdResult, ContractError), panics included. Every caller passes an
-- error up, and a panic aborts the contract call too, so both are failures of one type.
use Prim.Native.String.{String}
use mathlib.Core.Path.{◌≡◌, refl}
use mathlib.Core.Logic.{◌⊎◌, inl, inr}
use mathlib.Core.Bool.{Bool, true, false}
use mathlib.Core.Option.{Option, none, some}

pub data Failure : Type 0 where
  generic_err : String → Failure
  not_found : Failure
  overflow : Failure
  -- a panic: overflow-checks, an unwrap or an assert
  panic : Failure
  -- of the model alone: a loop that has used up its fuel
  out_of_fuel : Failure

pub data Result {ℓ} (Value : Type ℓ) : Type ℓ where
  ok : Value → Result Value
  err : Failure → Result Value

-- What a call has come to.
pub Result-cases {ℓ} :
    {Value : Type ℓ} (r : Result Value)
    → ((v : Value) × (r ≡ ok v)) ⊎ ((failure : Failure) × (r ≡ err failure))
Result-cases (err failure) = inr (failure, refl)
Result-cases (ok v) = inl (v, refl)

-- `?`, and a panic: the rest of the body runs on a value alone.
infixl 5 ◌>>=◌
abbrev pub ◌>>=◌ {ℓ₁ ℓ₂} :
    {Value : Type ℓ₁} {Next : Type ℓ₂} → Result Value → (Value → Result Next) → Result Next
err failure >>= rest = err failure
ok v >>= rest = rest v

infixl 5 ◌>>◌
abbrev pub ◌>>◌ {ℓ} : {Next : Type ℓ} → Result (Unit {0}) → Result Next → Result Next
check >> rest = check >>= λ done. rest

-- `if b { return Err(e) }`
abbrev pub fail_if : Bool → Failure → Result (Unit {0})
fail_if true e = err e
fail_if false e = ok tt

-- `Option::ok_or_else`, and the load of an item that may not be stored
abbrev pub ok_or {ℓ} : {A : Type ℓ} → Option A → Failure → Result A
ok_or none e = err e
ok_or (some a) e = ok a

-- `Option::unwrap_or`
abbrev pub unwrap_or {ℓ} : {A : Type ℓ} → Option A → A → A
unwrap_or none d = d
unwrap_or (some a) d = a

-- Where the whole body returns, its first call has returned.
pub >>=-eq-ok {ℓ₁ ℓ₂} :
    {Value : Type ℓ₁} {Next : Type ℓ₂} (call : Result Value) (rest : Value → Result Next)
    {result : Next}
    → (call >>= rest) ≡ ok result
    → (v : Value) × (call ≡ ok v) × (rest v ≡ ok result)
>>=-eq-ok (err failure) rest returns = cc
>>=-eq-ok (ok v) rest returns = (v, refl, returns)
