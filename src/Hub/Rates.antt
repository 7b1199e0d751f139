-- ===== src/Hub/Rates.antt =====
-- contracts/lido_cosmos_hub/src/math.rs, and the rate of a released batch
-- (contracts/lido_cosmos_hub/src/unbond.rs).
use jullia_lp_staking.Base.{ℕ, Result, ok, ◌>>=◌, ltb, ◌==◌, if◌then◌else◌}
use jullia_lp_staking.Cosmwasm.Uint.{add_u256, sub_or_panic, to_u128}
use jullia_lp_staking.Cosmwasm.Decimal.{Decimals}
use jullia_lp_staking.SignedInt.{SignedInt, from_subtraction}

abbrev pub decimal_fractional : ℕ
decimal_fractional = 1_000_000_000_000_000_000

module _ ⦃num : Decimals⦄ where
  unfoldable pub decimal_division : ℕ → ℕ → Result ℕ
  decimal_division a b = do
    scaled ← num.mul decimal_fractional b
    decimal ← num.from_ratio a scaled
    num.mul decimal_fractional decimal

  -- `batch_slashing_weight`
  abbrev pub slashing_weight : ℕ → ℕ → Result ℕ
  slashing_weight unbonded_amount_of_batch total_unbonded_amount =
      if total_unbonded_amount == 0
      then ok 0
      else num.from_ratio256 unbonded_amount_of_batch total_unbonded_amount

  -- `actual_unbonded_amount_of_batch`
  unfoldable pub actual_unbonded : ℕ → ℕ → SignedInt → Result ℕ
  actual_unbonded unbonded_amount_of_batch slashed_amount_of_batch slashed_amount =
      if slashed_amount.negative
      then ((if ltb 1 slashed_amount_of_batch then sub_or_panic slashed_amount_of_batch 1 else ok 0)
          >>= add_u256 unbonded_amount_of_batch)
      else do
        slashed ←
            if slashed_amount.magnitude == 0
            then ok slashed_amount_of_batch
            else add_u256 slashed_amount_of_batch 1
        minuend ← to_u128 unbonded_amount_of_batch
        subtrahend ← to_u128 slashed
        difference ← from_subtraction minuend subtrahend
        ok difference.magnitude

  unfoldable pub calculate_new_withdraw_rate : ℕ → ℕ → ℕ → SignedInt → Result ℕ
  unfolding actual_unbonded
  calculate_new_withdraw_rate amount withdraw_rate total_unbonded_amount slashed_amount = do
    unbonded_amount_of_batch ← num.mul256 amount withdraw_rate
    batch_slashing_weight ← slashing_weight unbonded_amount_of_batch total_unbonded_amount
    slashed_amount_of_batch ← num.mul256 slashed_amount.magnitude batch_slashing_weight
    actual ← actual_unbonded unbonded_amount_of_batch slashed_amount_of_batch slashed_amount
    if amount == 0
        then ok withdraw_rate
        else do actual' ← to_u128 actual; num.from_ratio actual' amount
