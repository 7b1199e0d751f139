-- ===== src/Hub/Solvency.antt =====
-- What a release loses and gains by rounding: the worth of a slashed batch against its share of the
-- coins that arrived.
use native.Mathlib.Nat.{mul-lt-mul_of_pos_left, mul-le-mul_right}
use jullia_lp_staking.Base.{
  ℕ, ◌+◌, ◌-◌, ◌*◌, ◌/◌, ◌≤◌, ◌<◌, ◌≡◌, ◌==◌, refl, arith, ok, err, false, Result, Result-cases,
  inl, inr,
}
use jullia_lp_staking.Cosmwasm.Uint.{add_u256, to_u128, checked_sub}
use jullia_lp_staking.Cosmwasm.Decimal.{Decimals, decimal_one}
use jullia_lp_staking.SignedInt.{SignedInt, from_subtraction}
use jullia_lp_staking.Hub.Rates.{actual_unbonded, calculate_new_withdraw_rate}
use jullia_lp_staking.Hub.Exchange.{div_mul_le, lt_suc_div_mul}
pub mod Batch
pub mod Release
pub mod Process
pub mod Claims
pub mod Dues
pub mod Kept
pub mod Funds
pub mod Funded
pub mod Paid
pub mod Fair
pub mod Shares

module _ (u total sm w sl c : ℕ) where
  -- The slashed amount of a batch stays below its worth.
  slashed_lt : sl * c ≤ sm * w → w * total ≤ u * c → sm < total → 0 < u → 0 < c → sl < u
  slashed_lt h₁ h₂ less pos one = grind arith

  slashed_enough :
      sm * w < (sl + 1) * c
      → u * c < (w + 1) * total
      → 0 < sm
      → sm * u * c < (sl + 1) * c * total + sm * total
  slashed_enough h₁ h₂ pos =
      let le : sm * w ≤ (sl + 1) * c = omega arith in
      grind (arith, mul-lt-mul_of_pos_left h₂ pos, mul-le-mul_right total le)

  -- What is left of the worth, against the coins that arrived.
  left_le :
      (left : ℕ)
      → left + (sl + 1) ≡ u
      → sm * u * c < (sl + 1) * c * total + sm * total
      → left * total * c + sm * u * c ≤ u * total * c + sm * total
  left_le left split enough =
      let e : left * total * c + (sl + 1) * c * total ≡ u * total * c =
        rw (← split) (grind arith) in
      omega (arith, e)

-- A smaller worth keeps the bound.
pub worth_le :
    (worth left total c lost most : ℕ)
    → worth ≤ left
    → left * total * c + lost ≤ most
    → worth * total * c + lost ≤ most
worth_le worth left total c lost most h bound =
    omega (arith, mul-le-mul_right c (mul-le-mul_right total h))

-- An amount at a withdraw rate that is rounded down is worth at most the coins of the rate.
pub worth_at_le :
    (amount new coins : ℕ) → new * amount ≤ coins * decimal_one → amount * new / decimal_one ≤ coins
worth_at_le amount new coins h =
    let whole : amount * new ≤ coins * decimal_one = grind (arith, h) in
    let floor = div_mul_le (amount * new) decimal_one (omega arith) in omega (arith, whole, floor)

module _ ⦃num : Decimals⦄ where
  -- A batch that is slashed loses its slashed amount and one unit more.
  actual_unbonded_slashed :
      (unbonded slashed m actual : ℕ)
      → 0 < m
      → slashed < unbonded
      → actual_unbonded unbonded slashed (record { magnitude = m; negative = false }) ≡ ok actual
      → actual + (slashed + 1) ≡ unbonded
  unfolding actual_unbonded add_u256 to_u128 from_subtraction checked_sub
  actual_unbonded_slashed unbonded slashed m actual pos less h = ground arith

  -- The calls of a computation that succeeds for a batch with an amount, out of a total above zero.
  pub calculate_new_withdraw_rate_calls :
      (amount rate total : ℕ) (slashed : SignedInt) (new : ℕ)
      → 0 < amount
      → 0 < total
      → calculate_new_withdraw_rate amount rate total slashed ≡ ok new
      → (u : ℕ) × (w : ℕ) × (sl : ℕ) × (a : ℕ) × (u ≡ amount * rate / decimal_one)
        × (w ≡ u * decimal_one / total)
        × (sl ≡ slashed.magnitude * w / decimal_one)
        × (actual_unbonded u sl slashed ≡ ok a)
        × (new ≡ a * decimal_one / amount)
  unfolding calculate_new_withdraw_rate to_u128
  calculate_new_withdraw_rate_calls amount rate total slashed new pos some h =
      elim (Result-cases (num.mul256 amount rate)) [
        | inr (f, fails) ↦ absurd (ground arith)
        | inl (u, e₁) ↦ elim (Result-cases (num.from_ratio256 u total)) [
          | inr (f, fails) ↦ absurd (ground arith)
          | inl (w, e₂) ↦ elim (Result-cases (num.mul256 slashed.magnitude w)) [
            | inr (f, fails) ↦ absurd (ground arith)
            | inl (sl, e₃) ↦ elim (Result-cases (actual_unbonded u sl slashed)) [
              | inr (f, fails) ↦ absurd (ground arith)
              | inl (a, e₄) ↦
                  let e₅ : num.from_ratio a amount ≡ ok new = ground arith in
                  (
                    u,
                    w,
                    sl,
                    a,
                    num.mul256_ok amount rate u e₁,
                    (num.from_ratio256_ok u total w e₂).1,
                    num.mul256_ok slashed.magnitude w sl e₃,
                    e₄,
                    (num.from_ratio_ok a amount new e₅).1,
                  )
            ]
          ]
        ]
      ]

  -- A batch of `unbonded` coins out of `total` that were due, of which `missing` have not arrived: where
  -- its new withdraw rate is computed, its amount at that rate is at most its share of the coins that
  -- arrived, and `missing / total` of a smallest fraction of a coin.
  pub calculate_new_withdraw_rate_solvent :
      (amount rate unbonded total missing new : ℕ)
      → 0 < amount
      → unbonded ≡ amount * rate / decimal_one
      → 0 < unbonded
      → 0 < missing
      → missing < total
      → calculate_new_withdraw_rate amount rate total
          (record { magnitude = missing; negative = false })
        ≡ ok new
      → (amount * new / decimal_one) * total * decimal_one + missing * unbonded * decimal_one
        ≤ unbonded * total * decimal_one + missing * total
  calculate_new_withdraw_rate_solvent amount rate unbonded total missing new pos e some lost less
        h =
      let (u, w, sl, a, e₁, e₂, e₃, e₄, e₅) =
        calculate_new_withdraw_rate_calls amount rate total _ new pos (omega arith) h in
      let same : unbonded ≡ u = cc in
      let above_zero : 0 < total = omega arith in
      let weight_le : w * total ≤ u * decimal_one =
        rw e₂ (div_mul_le (u * decimal_one) total above_zero) in
      let weight_lt : u * decimal_one < (w + 1) * total =
        rw e₂ (lt_suc_div_mul (u * decimal_one) total above_zero) in
      let slashed_le : sl * decimal_one ≤ missing * w =
        rw e₃ (div_mul_le (missing * w) decimal_one (omega arith)) in
      let slashed_gt : missing * w < (sl + 1) * decimal_one =
        rw e₃ (lt_suc_div_mul (missing * w) decimal_one (omega arith)) in
      let under : sl < u =
        slashed_lt u total missing w sl decimal_one slashed_le weight_le less (rw (← same) some)
          (omega arith) in
      let split = actual_unbonded_slashed u sl missing a lost under e₄ in
      let enough = slashed_enough u total missing w sl decimal_one slashed_gt weight_lt lost in
      let bound = left_le u total missing w sl decimal_one a split enough in
      let paid : amount * new / decimal_one ≤ a =
        worth_at_le amount new a (rw e₅ (div_mul_le (a * decimal_one) amount pos)) in
      rw same (worth_le _ a total decimal_one _ _ paid bound)
