-- ===== src/Tests/Shares.antt =====
-- The split of delegations and undelegations at concrete inputs.
use jullia_lp_staking.Base.{
  ℕ, ◌+◌, ◌<◌, ◌≤◌, ◌≡◌, ◌⊎◌, refl, arith, List, [], ◌∷◌, ok, generic_err, panic, Failure, sum,
}
use jullia_lp_staking.Cosmwasm.Uint.{u128_mod, add_u128}
use jullia_lp_staking.Registry.Common.{
  ValidatorResponse, sum_delegated, calculate_delegations, calculate_undelegations,
}
use jullia_lp_staking.Registry.Targets.{delegated_sum}
use jullia_lp_staking.Registry.Delegation.{
  WithinTargets, calculate_delegations_splits, calculate_delegations_fails,
}
use jullia_lp_staking.Registry.Rounds.{TakesExcess}
use jullia_lp_staking.Registry.Undelegation.{
  calculate_undelegations_splits, calculate_undelegations_fails,
}
use jullia_lp_staking.Tests.{validators}

calculate_delegations_splits_example :
    (ds : List ℕ) × (calculate_delegations 15 validators ≡ ok ds)
    × (sum ds ≡ 15)
    × WithinTargets 25 0 0 validators ds
calculate_delegations_splits_example =
    calculate_delegations_splits 15 validators (omega arith) (omega arith)

calculate_undelegations_splits_example :
    (us : List ℕ) × (calculate_undelegations 33 validators ≡ ok us)
    × (sum us ≡ 33)
    × TakesExcess 9 0 0 (0 ∷ 0 ∷ 0 ∷ []) validators us
calculate_undelegations_splits_example =
    calculate_undelegations_splits 33 validators (omega arith) (omega arith) (omega arith)

abbrev no_validators : List ValidatorResponse
no_validators = []

calculate_delegations_fails_example :
    ((no_validators ≡ [])
      × (generic_err "Empty validators set" ≡ generic_err "Empty validators set"))
    ⊎ ((u128_mod ≤ delegated_sum no_validators + 7) × (generic_err "Empty validators set" ≡ panic))
unfolding calculate_delegations
calculate_delegations_fails_example =
    calculate_delegations_fails 7 [] (generic_err "Empty validators set") refl

abbrev too_much : Failure
too_much = generic_err "undelegate amount can't be bigger than total delegated amount"

calculate_undelegations_fails_example :
    ((validators ≡ []) × (too_much ≡ generic_err "Empty validators set"))
    ⊎ ((delegated_sum validators < 61)
        × (too_much ≡ generic_err "undelegate amount can't be bigger than total delegated amount"))
    ⊎ ((u128_mod ≤ delegated_sum validators) × (too_much ≡ panic))
unfolding calculate_undelegations sum_delegated add_u128
calculate_undelegations_fails_example = calculate_undelegations_fails 61 validators too_much refl
