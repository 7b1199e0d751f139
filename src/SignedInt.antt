-- ===== src/SignedInt.antt =====
-- packages/signed_integers/src/signed_integer.rs
use jullia_lp_staking.Base.{
  ℕ, ◌+◌, ◌-◌, ◌<◌, ◌≡◌, Bool, true, false, arith, leb, Bool-cases, inl, inr, Result, ok, err,
  panic, ◌>>=◌,
}
use jullia_lp_staking.Cosmwasm.Uint.{checked_sub}

-- `negative` is the flag of the pair: the number is `-magnitude` where it is true.
pub record SignedInt : Type 0 where
  pub magnitude : ℕ
  pub negative : Bool

-- `unwrap()`
abbrev unwrap : Result ℕ → Result ℕ
unwrap (ok a) = ok a
unwrap (err _) = err panic

unfoldable pub from_subtraction : ℕ → ℕ → Result SignedInt
unfolding checked_sub
from_subtraction minuend subtrahend = elim (checked_sub minuend subtrahend) [
  | err _ ↦ unwrap (checked_sub subtrahend minuend) >>= λ m.
      ok (record { magnitude = m; negative = true })
  | ok d ↦ ok (record { magnitude = d; negative = false })
]

-- `from_subtraction` never fails, and its magnitude and sign stand for the difference: the minuend is
-- the subtrahend plus the magnitude, or, where the flag is set, less it by a magnitude above zero.
pub from_subtraction_difference :
    (a b : ℕ)
    → (r : SignedInt) × (from_subtraction a b ≡ ok r)
      × (r.negative ≡ false → a ≡ b + r.magnitude)
      × (r.negative ≡ true → (b ≡ a + r.magnitude) × (0 < r.magnitude))
unfolding from_subtraction
from_subtraction_difference a b = elim (Bool-cases (leb b a)) [
  | inl h ↦
      (record { magnitude = a - b; negative = false }, ground arith, ground arith, ground arith)
  | inr h ↦
      (record { magnitude = b - a; negative = true }, ground arith, ground arith, ground arith)
]
