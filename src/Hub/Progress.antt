-- ===== src/Hub/Progress.antt =====
-- `process_withdraw_rate` succeeds where the amounts are within 64 bits: none of its words overflows.
use native.Mathlib.Nat.{mul-le-mul, mul-le-mul_left, mul-le-mul_right, div-le_of_le-mul}
use jullia_lp_staking.Base.{
  ℕ, zero, suc, ◌+◌, ◌-◌, ◌*◌, ◌/◌, ◌≤◌, ◌<◌, ◌≡◌, refl, arith, ok, err, true, false, ◌==◌,
  Bool-cases, Result-cases, inl, inr,
}
use jullia_lp_staking.Cosmwasm.Uint.{
  u64_mod, u128_mod, u256_mod, add_u256, to_u128, sub_or_panic, checked_sub, add_u256_fits,
  to_u128_fits, add_u64_fits,
}
use jullia_lp_staking.Cosmwasm.Decimal.{Decimals, decimal_one}
use jullia_lp_staking.SignedInt.{SignedInt, from_subtraction, from_subtraction_difference}
use jullia_lp_staking.Hub.Rates.{actual_unbonded, calculate_new_withdraw_rate, slashing_weight}
use jullia_lp_staking.Hub.Exchange.{div_mul_le, lt_suc_div_mul}
use jullia_lp_staking.Hub.Solvency.Batch.{worth}
pub mod Loops

product_fits : (a b : ℕ) → a < 2 * u64_mod → b ≤ decimal_one → a * b < u128_mod
product_fits a b ha hb = let le : a ≤ 2 * u64_mod = omega arith in omega (arith, mul-le-mul le hb)

share_le : (a b : ℕ) → b ≤ decimal_one → a * b / decimal_one ≤ a
share_le a b h = omega (arith, mul-le-mul_left a h)

weight_le : (u total : ℕ) → 0 < total → u ≤ total → u * decimal_one / total ≤ decimal_one
weight_le u total pos le = div-le_of_le-mul total (omega (arith, mul-le-mul_right decimal_one le))

quotient_le : (a d : ℕ) → 0 < d → a / d ≤ a
quotient_le a d pos = grind arith

pub worth_product : (amount rate : ℕ) → worth amount rate < u64_mod → amount * rate < u128_mod
worth_product amount rate small =
    omega (arith, lt_suc_div_mul (amount * rate) decimal_one (omega arith))

module _ ⦃num : Decimals⦄ where
  actual_unbonded_succeeds :
      (unbonded sl : ℕ) (slashed : SignedInt)
      → unbonded < u64_mod
      → sl < u64_mod
      → (a : ℕ) × (actual_unbonded unbonded sl slashed ≡ ok a) × (a < 2 * u64_mod)
  unfolding actual_unbonded add_u256 to_u128 sub_or_panic from_subtraction checked_sub
  actual_unbonded_succeeds unbonded sl slashed small small' =
      elim (Result-cases (actual_unbonded unbonded sl slashed)) [
        | inl (a, h) ↦ (a, h, ground arith)
        | inr (e, h) ↦ absurd (ground arith)
      ]

  -- The weight of a batch among those that are due is at most one.
  slashing_weight_succeeds :
      (u total : ℕ)
      → u ≤ total
      → total < u64_mod
      → (w : ℕ) × (slashing_weight u total ≡ ok w) × (w ≤ decimal_one)
  slashing_weight_succeeds u total le small = elim (Bool-cases (total == 0)) [
    | inl empty ↦ (0, ground arith, omega arith)
    | inr some_due ↦
        let pos : 0 < total = ground arith in
        let fits = product_fits u decimal_one (omega arith) (omega arith) in
        (
          u * decimal_one / total,
          ground (arith, num.from_ratio256_fits u total pos (omega (arith, fits))),
          weight_le u total pos le,
        )
  ]

  pub calculate_new_withdraw_rate_succeeds :
      (amount rate total : ℕ) (slashed : SignedInt)
      → worth amount rate ≤ total
      → total < u64_mod
      → slashed.magnitude < u64_mod
      → (r : ℕ) × (calculate_new_withdraw_rate amount rate total slashed ≡ ok r)
  unfolding calculate_new_withdraw_rate
  calculate_new_withdraw_rate_succeeds amount rate total slashed le small small' =
      let u = worth amount rate in
      let e₁ =
        num.mul256_fits amount rate (omega (arith, worth_product amount rate (omega arith))) in
      let (w, e₂, one) = slashing_weight_succeeds u total le small in
      let sl = slashed.magnitude * w / decimal_one in
      let e₃ =
        num.mul256_fits slashed.magnitude w
          (omega (arith, product_fits slashed.magnitude w (omega arith) one)) in
      let (a, e₄, bound) =
        actual_unbonded_succeeds u sl slashed (omega arith)
          (omega (arith, share_le slashed.magnitude w one)) in
      let fits = product_fits a decimal_one bound (omega arith) in
      elim (Bool-cases (amount == 0)) [
        | inl empty ↦ (rate, ground (arith, e₁, e₂, e₃, e₄))
        | inr some_amount ↦
            let pos : 0 < amount = ground arith in
            let e₅ =
              num.from_ratio_fits a amount pos
                (omega (arith, fits, quotient_le (a * decimal_one) amount pos)) in
            (
              a * decimal_one / amount,
              ground (arith, e₁, e₂, e₃, e₄, e₅, to_u128_fits a (omega arith)),
            )
      ]
