-- ===== src/Hub/Solvency/Batch.antt =====
-- A batch at its new withdraw rate against its share of the coins that arrived, whether they are less than
-- the coins that were due, as many, or more.
use native.Mathlib.Nat.{mul-le-mul_right}
use jullia_lp_staking.Base.{
  ℕ, ◌+◌, ◌-◌, ◌*◌, ◌/◌, ◌≤◌, ◌<◌, ◌≡◌, refl, arith, ok, false, true, Bool-cases, inl, inr, leb,
  ltb,
}
use jullia_lp_staking.Cosmwasm.Uint.{add_u256, to_u128, checked_sub, sub_or_panic}
use jullia_lp_staking.Cosmwasm.Decimal.{Decimals, decimal_one}
use jullia_lp_staking.SignedInt.{SignedInt, from_subtraction}
use jullia_lp_staking.Hub.Rates.{actual_unbonded, calculate_new_withdraw_rate}
use jullia_lp_staking.Hub.Exchange.{div_mul_le}
use jullia_lp_staking.Hub.Solvency.{
  worth_le, worth_at_le, calculate_new_withdraw_rate_calls, calculate_new_withdraw_rate_solvent,
}

-- The worth of a batch at a rate, rounded down.
abbrev pub worth : ℕ → ℕ → ℕ
worth amount rate = amount * rate / decimal_one

-- What a batch gains stays within its share of what came on top.
gained_le :
    (u total m w sl a c : ℕ)
    → sl * c ≤ m * w
    → w * total ≤ u * c
    → a ≤ u + sl
    → a * total * c + 0 ≤ u * (total + m) * c
gained_le u total m w sl a c h₁ h₂ h₃ =
    let step₁ = mul-le-mul_right total h₁ in
    let step₂ : m * (w * total) ≤ m * (u * c) = grind (arith, mul-le-mul_right m h₂) in
    let step₃ = mul-le-mul_right c (mul-le-mul_right total h₃) in grind (arith, step₁, step₂, step₃)

lost_split :
    (paid u total arrived m c rest : ℕ)
    → total ≡ arrived + m
    → paid * total * c + m * u * c ≤ u * total * c + rest
    → paid * total * c ≤ u * arrived * c + rest
lost_split paid u total arrived m c rest sum h =
    let e : u * total * c ≡ u * arrived * c + m * u * c = rw sum (grind arith) in
    omega (arith, e, h)

module _ ⦃num : Decimals⦄ where
  actual_unbonded_gained :
      (u sl m a : ℕ)
      → actual_unbonded u sl (record { magnitude = m; negative = true }) ≡ ok a
      → a ≤ u + sl
  unfolding actual_unbonded add_u256 sub_or_panic checked_sub
  actual_unbonded_gained u sl m a h = ground arith

  actual_unbonded_even :
      (u a : ℕ) → actual_unbonded u 0 (record { magnitude = 0; negative = false }) ≡ ok a → a ≡ u
  unfolding actual_unbonded add_u256 to_u128 from_subtraction checked_sub
  actual_unbonded_even u a h = ground arith

  even_bound :
      (amount rate total new : ℕ)
      → 0 < amount
      → 0 < total
      → calculate_new_withdraw_rate amount rate total (record { magnitude = 0; negative = false })
        ≡ ok new
      → worth amount new ≤ worth amount rate
  even_bound amount rate total new pos some h =
      let (u, w, sl, a, e₁, e₂, e₃, e₄, e₅) =
        calculate_new_withdraw_rate_calls amount rate total _ new pos some h in
      let none_slashed : sl ≡ 0 = rw e₃ (omega arith) in
      let whole : a ≡ u = actual_unbonded_even u a (rw none_slashed at e₄) in
      rw (← e₁, ← whole)
        (worth_at_le amount new a (rw e₅ (div_mul_le (a * decimal_one) amount pos)))

  gained_bound :
      (amount rate total m new : ℕ)
      → 0 < amount
      → 0 < total
      → calculate_new_withdraw_rate amount rate total (record { magnitude = m; negative = true })
        ≡ ok new
      → worth amount new * total * decimal_one ≤ worth amount rate * (total + m) * decimal_one
  gained_bound amount rate total m new pos some h =
      let (u, w, sl, a, e₁, e₂, e₃, e₄, e₅) =
        calculate_new_withdraw_rate_calls amount rate total _ new pos some h in
      let weight_le : w * total ≤ u * decimal_one =
        rw e₂ (div_mul_le (u * decimal_one) total some) in
      let slashed_le : sl * decimal_one ≤ m * w =
        rw e₃ (div_mul_le (m * w) decimal_one (omega arith)) in
      let bound =
        gained_le u total m w sl a decimal_one slashed_le weight_le
          (actual_unbonded_gained u sl m a e₄) in
      let paid : worth amount new ≤ a =
        worth_at_le amount new a (rw e₅ (div_mul_le (a * decimal_one) amount pos)) in
      rw (← e₁) (omega (arith, worth_le _ a total decimal_one 0 _ paid bound))

  lost_share :
      (amount rate total arrived m new : ℕ)
      → 0 < amount
      → 0 < worth amount rate
      → 0 < m
      → 0 < arrived
      → total ≡ arrived + m
      → calculate_new_withdraw_rate amount rate total (record { magnitude = m; negative = false })
        ≡ ok new
      → worth amount new * total * decimal_one
        ≤ worth amount rate * arrived * decimal_one + m * total
  lost_share amount rate total arrived m new pos some lost come sum h =
      let bound =
        calculate_new_withdraw_rate_solvent amount rate _ total m new pos refl some lost
          (omega arith) h in
      lost_split _ (worth amount rate) total arrived m decimal_one (m * total) sum bound

  -- Of `total` coins that were due, `arrived` have come: at its new rate a batch is worth at most its share
  -- of them, and what is missing, in smallest fractions of a coin.
  pub calculate_new_withdraw_rate_share :
      (amount rate total arrived new : ℕ) (slashed : SignedInt)
      → 0 < amount
      → 0 < worth amount rate
      → 0 < total
      → 0 < arrived
      → from_subtraction total arrived ≡ ok slashed
      → calculate_new_withdraw_rate amount rate total slashed ≡ ok new
      → worth amount new * total * decimal_one
        ≤ worth amount rate * arrived * decimal_one + (total - arrived) * total
  unfolding from_subtraction
  calculate_new_withdraw_rate_share amount rate total arrived new slashed pos some due come split
        h =
      elim (Bool-cases (leb arrived total)) [
        | inr more ↦
            let e : slashed ≡ record { magnitude = arrived - total; negative = true } =
              ground arith in
            let sum : total + (arrived - total) ≡ arrived = ground arith in
            let bound = gained_bound amount rate total (arrived - total) new pos due (rw e at h) in
            omega (arith, rw sum at bound)
        | inl less ↦
            let e : slashed ≡ record { magnitude = total - arrived; negative = false } =
              ground arith in
            elim (Bool-cases (ltb 0 (total - arrived))) [
              | inl lost ↦
                  lost_share amount rate total arrived (total - arrived) new pos some (ground arith)
                    come (ground arith) (rw e at h)
              | inr even ↦
                  let m_zero : total - arrived ≡ 0 = ground arith in
                  let same : arrived ≡ total = ground arith in
                  let bound = even_bound amount rate total new pos due (rw m_zero at (rw e at h)) in
                  let times = mul-le-mul_right decimal_one (mul-le-mul_right total bound) in
                  let goal : worth amount new * total * decimal_one
                      ≤ worth amount rate * arrived * decimal_one =
                    rw same times in
                  omega (arith, goal)
            ]
      ]
