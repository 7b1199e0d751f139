-- ===== src/Registry/Undelegation.antt =====
-- `calculate_undelegations` takes the amount from what validators hold above their shares of what
-- stays delegated, and its `while` loop is done after one round.
use jullia_lp_staking.Base.{
  ℕ, zero, suc, ◌+◌, ◌-◌, ◌/◌, ◌%◌, ◌≤◌, ◌<◌, ◌≡◌, refl, ◌⊎◌, inl, inr, List, [], ◌∷◌, arith, ltb,
  Bool-cases, ltb→lt, length, length-replicate, replicate, sum, sum-replicate_zero, Failure,
  generic_err, panic, ok, err,
}
use native.Mathlib.Numerals.{add-one}
use jullia_lp_staking.Cosmwasm.Uint.{u128_mod, sub_or_panic_fits}
use jullia_lp_staking.Registry.Common.{
  ValidatorResponse, Round, undelegate_while, calculate_undelegations,
}
use jullia_lp_staking.Registry.Rounds.{TakesExcess, TakesExcess-refl, undelegate_loop-Undelegated}
use jullia_lp_staking.Registry.Targets.{
  delegated_sum, target_fits, split_balance, sum_delegated_fits, sum_delegated_overflows,
}

-- One round takes the whole amount, so the second test of the `while` loop ends it.
undelegate_while-Undelegated :
    (amount total : ℕ) (us : List ℕ) (vs : List ValidatorResponse)
    → 0 < length vs
    → length us ≡ length vs
    → sum us + amount < u128_mod
    → total ≡ delegated_sum vs
    → total < u128_mod
    → amount ≤ total
    → let after = total - amount in
      (r : Round) × (undelegate_while (amount + 1) (length vs) (record {
        undelegations = us;
        validators = vs;
        undelegation_amount = amount;
        total_delegated = total;
      })
        ≡ ok r)
      × (sum r.undelegations ≡ sum us + amount)
      × TakesExcess (after / length vs) (after % length vs) 0 us vs r.undelegations
undelegate_while-Undelegated zero total us vs some_vs same small all fits held = (
  record { undelegations = us; validators = vs; undelegation_amount = 0; total_delegated = total },
  (unfold undelegate_while in ground arith),
  omega arith,
  TakesExcess-refl _ _ 0 us vs same,
)
undelegate_while-Undelegated (suc n) total us vs some_vs same small all fits held =
    let after = total - suc n in
    let r =
      undelegate_loop-Undelegated (after / length vs) (after % length vs) 0 (suc n) total us vs same
        small held (λ i. target_fits after (length vs) i some_vs (omega arith)) in
    let done : r.round.undelegation_amount ≡ 0 =
      omega (arith, r.left_over, split_balance after vs some_vs) in
    (
      r.round,
      (unfold undelegate_while in
          rw add-one (ground (arith, sub_or_panic_fits total (suc n), r.runs, done))),
      omega (arith, r.adds_up),
      r.taken,
    )

-- `calculate_undelegations` ends with a result whenever there is a validator, the delegated coins fit
-- a word and the amount is not more than they are: the undelegations add up to the amount, and no
-- validator gives up more than it holds above its share of the coins that stay delegated.
pub calculate_undelegations_splits :
    (amount : ℕ) (vs : List ValidatorResponse)
    → 0 < length vs
    → delegated_sum vs < u128_mod
    → amount ≤ delegated_sum vs
    → let after = delegated_sum vs - amount in
      (us : List ℕ) × (calculate_undelegations amount vs ≡ ok us)
      × (sum us ≡ amount)
      × TakesExcess (after / length vs) (after % length vs) 0 (replicate (length vs) 0) vs us
unfolding calculate_undelegations
calculate_undelegations_splits amount [] h fits held = absurd (omega arith)
calculate_undelegations_splits amount (v ∷ vs) h fits held =
    let all = v ∷ vs in
    let zeros = replicate (length all) 0 in
    let r =
      undelegate_while-Undelegated amount (delegated_sum all) zeros all h
        (length-replicate (length all) 0) (omega (arith, sum-replicate_zero (length all))) refl fits
        held in
    (
      r.0.undelegations,
      ground (arith, sum_delegated_fits 0 all, r.1),
      omega (arith, r.2, sum-replicate_zero (length all)),
      r.3,
    )

-- `calculate_undelegations` fails only on an empty list of validators, on an amount above the
-- delegated total, both with an error, and on delegated coins of 2 ^ 128 or more, with a panic; its
-- loop never runs out of the fuel `amount + 1`.
pub calculate_undelegations_fails :
    (amount : ℕ) (vs : List ValidatorResponse) (e : Failure)
    → calculate_undelegations amount vs ≡ err e
    → ((vs ≡ []) × (e ≡ generic_err "Empty validators set"))
      ⊎ ((delegated_sum vs < amount)
          × (e ≡ generic_err "undelegate amount can't be bigger than total delegated amount"))
      ⊎ ((u128_mod ≤ delegated_sum vs) × (e ≡ panic))
calculate_undelegations_fails amount [] e h =
    unfold calculate_undelegations in inl (refl, ground arith)
calculate_undelegations_fails amount (v ∷ vs) e h =
    let all = v ∷ vs in
    elim (Bool-cases (ltb (delegated_sum all) u128_mod)) [
      | inr large ↦
          inr
            (inr (unfold calculate_undelegations in ground (arith, sum_delegated_overflows 0 all)))
      | inl fits ↦ elim (Bool-cases (ltb (delegated_sum all) amount)) [
        | inl short ↦
            inr (inl (unfold calculate_undelegations in ground (arith, sum_delegated_fits 0 all)))
        | inr held ↦
            let r =
              calculate_undelegations_splits amount all (omega arith) (ltb→lt _ _ fits)
                (ground arith) in
            cc (r.1)
      ]
    ]

-- Undelegations, when there are any, add up to the amount.
pub calculate_undelegations-sum :
    (amount : ℕ) (vs : List ValidatorResponse) (us : List ℕ)
    → calculate_undelegations amount vs ≡ ok us
    → sum us ≡ amount
calculate_undelegations-sum amount [] us h = unfold calculate_undelegations in absurd (cc)
calculate_undelegations-sum amount (v ∷ vs) us h =
    let all = v ∷ vs in
    elim (Bool-cases (ltb (delegated_sum all) u128_mod)) [
      | inr large ↦
          absurd (unfold calculate_undelegations in ground (arith, sum_delegated_overflows 0 all))
      | inl fits ↦ elim (Bool-cases (ltb (delegated_sum all) amount)) [
        | inl short ↦
            absurd (unfold calculate_undelegations in ground (arith, sum_delegated_fits 0 all))
        | inr held ↦
            let r =
              calculate_undelegations_splits amount all (omega arith) (ltb→lt _ _ fits)
                (ground arith) in
            let same : r.0 ≡ us = cc (r.1) in rw (← same) r.2
      ]
    ]
