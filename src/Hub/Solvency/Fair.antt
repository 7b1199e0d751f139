-- ===== src/Hub/Solvency/Fair.antt =====
-- What a release leaves to a batch: the lower bound next to the upper one of Solvency/Batch.
use native.Mathlib.Nat.{mul-le-mul_left, mul-le-mul_right, le_of_mul-le-mul_right}
use jullia_lp_staking.Base.{
  ℕ, zero, suc, ◌+◌, ◌-◌, ◌*◌, ◌/◌, ◌≤◌, ◌<◌, ◌≡◌, refl, arith, ok, true, false, Bool-cases, leb,
  inl, inr,
}
use jullia_lp_staking.Cosmwasm.Uint.{add_u256, to_u128, checked_sub, sub_or_panic}
use jullia_lp_staking.Cosmwasm.Decimal.{Decimals, decimal_one}
use jullia_lp_staking.SignedInt.{SignedInt, from_subtraction}
use jullia_lp_staking.Hub.Rates.{actual_unbonded, calculate_new_withdraw_rate}
use jullia_lp_staking.Hub.Exchange.{div_mul_le, lt_suc_div_mul}
use jullia_lp_staking.Hub.Solvency.{calculate_new_withdraw_rate_calls}
use jullia_lp_staking.Hub.Solvency.Batch.{worth}

-- `coins`, as a rate of an amount, rounded down twice.
worth_at_gt :
    (amount coins : ℕ)
    → 0 < amount
    → coins * decimal_one < (worth amount (coins * decimal_one / amount) + 1) * decimal_one + amount
worth_at_gt amount coins pos =
    let rate = coins * decimal_one / amount in
    let e : (rate + 1) * amount ≡ amount * rate + amount = grind arith in
    omega (
      arith,
      e,
      lt_suc_div_mul (coins * decimal_one) amount pos,
      lt_suc_div_mul (amount * rate) decimal_one (omega arith),
    )

-- The coins that are slashed are the batch's share of the missing ones, rounded down.
slashed_share :
    (sl m w u total c : ℕ) → 0 < c → sl * c ≤ m * w → w * total ≤ u * c → sl * total ≤ m * u
slashed_share sl m w u total c pos h₁ h₂ =
    let step₁ = mul-le-mul_right total h₁ in
    let step₂ = mul-le-mul_left m h₂ in
    let e : sl * total * c ≤ m * u * c = grind (arith, step₁, step₂) in le_of_mul-le-mul_right e pos

share_left :
    (u came m total a sl : ℕ)
    → came + m ≤ total
    → sl * total ≤ m * u
    → u ≤ a + sl + 1
    → u * came ≤ (a + 1) * total
share_left u came m total a sl sum slashed left =
    let step₁ = mul-le-mul_left u sum in
    let step₂ = mul-le-mul_right total left in
    let e₁ : u * (came + m) ≡ u * came + m * u = grind arith in
    let e₂ : (a + sl + 1) * total ≡ (a + 1) * total + sl * total = grind arith in
    omega (arith, step₁, step₂, e₁, e₂)

share_whole : (u came total a : ℕ) → came ≤ total → u ≤ a → u * came ≤ (a + 1) * total
share_whole u came total a le more =
    let step₁ = mul-le-mul_left u le in
    let step₂ = mul-le-mul_right total more in
    let e : (a + 1) * total ≡ a * total + total = grind arith in omega (arith, step₁, step₂, e)

share_in_fractions :
    (share total a paid amount c : ℕ)
    → share ≤ (a + 1) * total
    → a * c < (paid + 1) * c + amount
    → share * c ≤ ((paid + 2) * c + amount) * total
share_in_fractions share total a paid amount c h₁ h₂ =
    let step₁ = mul-le-mul_right c h₁ in
    let le : (a + 1) * c ≤ (paid + 2) * c + amount = grind (arith, h₂) in
    let step₂ = mul-le-mul_right total le in
    let e : (a + 1) * total * c ≡ (a + 1) * c * total = grind arith in
    omega (arith, step₁, step₂, e)

module _ ⦃num : Decimals⦄ where
  actual_unbonded_more :
      (u sl m a : ℕ)
      → actual_unbonded u sl (record { magnitude = m; negative = true }) ≡ ok a
      → u ≤ a
  unfolding actual_unbonded add_u256 sub_or_panic checked_sub
  actual_unbonded_more u sl m a h = ground arith

  actual_unbonded_less :
      (u sl m a : ℕ)
      → actual_unbonded u sl (record { magnitude = m; negative = false }) ≡ ok a
      → u ≤ a + sl + 1
  unfolding actual_unbonded add_u256 to_u128 from_subtraction checked_sub
  actual_unbonded_less u sl m a h = ground arith

  -- Of `total` coins that were due `arrived` have come, and `came` of them count: a batch keeps its share
  -- of `came`, but for two coins and a smallest fraction of a coin for each token.
  pub calculate_new_withdraw_rate_fair :
      (amount rate total arrived came new : ℕ) (slashed : SignedInt)
      → came ≤ arrived
      → came ≤ total
      → from_subtraction total arrived ≡ ok slashed
      → calculate_new_withdraw_rate amount rate total slashed ≡ ok new
      → worth amount rate * came * decimal_one
        ≤ ((worth amount new + 2) * decimal_one + amount) * total
  unfolding from_subtraction
  calculate_new_withdraw_rate_fair zero rate total arrived came new slashed le le' split h =
      let nothing : worth 0 rate ≡ 0 = grind arith in rw nothing (omega arith)
  calculate_new_withdraw_rate_fair (suc n) rate total arrived zero new slashed le le' split h =
      omega arith
  calculate_new_withdraw_rate_fair (suc n) rate total arrived (suc c) new slashed le le' split h =
      let amount = suc n in
      let came = suc c in
      let (u, w, sl, a, e₁, e₂, e₃, e₄, e₅) =
        calculate_new_withdraw_rate_calls amount rate total slashed new (omega arith) (omega arith)
          h in
      let paid : a * decimal_one < (worth amount new + 1) * decimal_one + amount =
        rw e₅ (worth_at_gt amount a (omega arith)) in
      let weight_le : w * total ≤ u * decimal_one =
        rw e₂ (div_mul_le (u * decimal_one) total (omega arith)) in
      let slashed_le : sl * decimal_one ≤ slashed.magnitude * w =
        rw e₃ (div_mul_le (slashed.magnitude * w) decimal_one (omega arith)) in
      let share : u * came ≤ (a + 1) * total = elim (Bool-cases (leb arrived total)) [
        | inr more ↦
            let e : slashed ≡ record { magnitude = arrived - total; negative = true } =
              ground arith in
            share_whole u came total a le' (actual_unbonded_more u sl _ a (rw e at e₄))
        | inl less ↦
            let e : slashed ≡ record { magnitude = total - arrived; negative = false } =
              ground arith in
            let magnitude : slashed.magnitude ≡ total - arrived = rw e refl in
            share_left u came slashed.magnitude total a sl (ground arith)
              (slashed_share sl _ w u total decimal_one (omega arith) slashed_le weight_le)
              (actual_unbonded_less u sl _ a (rw e at e₄))
      ] in
      rw (← e₁) (share_in_fractions (u * came) total a _ amount decimal_one share paid)
