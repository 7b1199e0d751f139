-- ===== src/Registry/Common.antt =====
-- contracts/lido_cosmos_validators_registry/src/common.rs, and `ValidatorResponse` of registry.rs.
use jullia_lp_staking.Base.{
  ℕ, zero, suc, ◌+◌, ◌/◌, ◌%◌, String, List, [], ◌∷◌, ltb, leb, ◌==◌, if◌then◌else◌, min, length,
  replicate, Result, ok, err, generic_err, out_of_fuel, panic, ◌>>=◌, ◌>>◌, fail_if,
}
use jullia_lp_staking.Cosmwasm.Uint.{add_u128, sub_or_panic, checked_sub}

pub record ValidatorResponse : Type 0 where
  pub total_delegated : ℕ
  pub address : String

-- `validators.iter().map(|v| v.total_delegated).sum()`, from the left
unfoldable pub sum_delegated : ℕ → List ValidatorResponse → Result ℕ
sum_delegated acc [] = ok acc
sum_delegated acc (v ∷ vs) = add_u128 acc v.total_delegated >>= λ acc'. sum_delegated acc' vs

abbrev pub extra_coin : ℕ → ℕ → ℕ
extra_coin remaining_coins index = if leb (index + 1) remaining_coins then 1 else 0

-- The `for` loop of `calculate_delegations` from `index` on: the delegations of the validators that
-- are left, and the amount that is left when the loop ends or breaks.
abbrev pub put_first : ℕ → Result (List ℕ × ℕ) → Result (List ℕ × ℕ)
put_first d r = r >>= λ (ds, left). ok (d ∷ ds, left)

unfoldable pub delegate_loop : ℕ → ℕ → ℕ → ℕ → List ValidatorResponse → Result (List ℕ × ℕ)
delegate_loop coins_per_validator remaining_coins index amount [] = ok ([], amount)
delegate_loop coins_per_validator remaining_coins index amount (v ∷ vs) =
    let rest =
      λ (left : ℕ). delegate_loop coins_per_validator remaining_coins (index + 1) left vs in
    do
      target ← add_u128 coins_per_validator (extra_coin remaining_coins index)
      if ltb target v.total_delegated then put_first 0 (rest amount) else do
        room ← sub_or_panic target v.total_delegated
        let to_delegate = if ltb amount room then amount else room
        left ← checked_sub amount to_delegate
        if left == 0
            then ok (to_delegate ∷ replicate (length vs) 0, left)
            else put_first to_delegate (rest left)

unfoldable pub calculate_delegations : ℕ → List ValidatorResponse → Result (List ℕ)
calculate_delegations amount_to_delegate [] = err (generic_err "Empty validators set")
calculate_delegations amount_to_delegate (v ∷ vs) = do
  let validators = v ∷ vs
  total_delegated ← sum_delegated 0 validators
  total_coins_to_distribute ← add_u128 total_delegated amount_to_delegate
  let coins_per_validator = total_coins_to_distribute / length validators
  let remaining_coins = total_coins_to_distribute % length validators
  (delegations, left) ←
      delegate_loop coins_per_validator remaining_coins 0 amount_to_delegate validators
  if left == 0
      then ok delegations
      else err (generic_err "Failed to distribute delegated amount completely")

-- What the `for` loop of `calculate_undelegations` changes.
pub record Round : Type 0 where
  pub undelegations : List ℕ
  pub validators : List ValidatorResponse
  pub undelegation_amount : ℕ
  pub total_delegated : ℕ

abbrev pub put_back : ℕ → ValidatorResponse → Result Round → Result Round
put_back u v r = r >>= λ rest.
    ok (record rest { undelegations = u ∷ rest.undelegations; validators = v ∷ rest.validators })

-- The `for` loop from `index` on, over the validators and the undelegations that are left.
unfoldable pub undelegate_loop : ℕ → ℕ → ℕ → ℕ → ℕ → List ℕ → List ValidatorResponse → Result Round
undelegate_loop coins_per_validator remaining_coins index amount total us [] = ok (record {
  undelegations = us;
  validators = [];
  undelegation_amount = amount;
  total_delegated = total;
})
undelegate_loop coins_per_validator remaining_coins index amount total [] (v ∷ vs) = err panic
undelegate_loop coins_per_validator remaining_coins index amount total (u ∷ us) (v ∷ vs) =
    let rest = λ (left total' : ℕ).
      undelegate_loop coins_per_validator remaining_coins (index + 1) left total' us vs in
    do
      target ← add_u128 coins_per_validator (extra_coin remaining_coins index)
      excess ← checked_sub v.total_delegated (min target v.total_delegated)
      let to_undelegate = if ltb amount excess then amount else excess
      u' ← add_u128 u to_undelegate
      left ← checked_sub amount to_undelegate
      total' ← checked_sub total to_undelegate
      delegated ← checked_sub v.total_delegated to_undelegate
      let v' = record v { total_delegated = delegated }
      if left == 0
          then ok (record {
            undelegations = u' ∷ us;
            validators = v' ∷ vs;
            undelegation_amount = left;
            total_delegated = total';
          })
          else put_back u' v' (rest left total')

-- The `while` loop; `count` is `validators.len()`.
unfoldable pub undelegate_while : ℕ → ℕ → Round → Result Round
undelegate_while zero count r = err out_of_fuel
undelegate_while (suc fuel) count r =
    let next = do
      total_after ← sub_or_panic r.total_delegated r.undelegation_amount
      r' ←
          undelegate_loop (total_after / count) (total_after % count) 0 r.undelegation_amount
            r.total_delegated r.undelegations r.validators
      undelegate_while fuel count r'
    in if r.undelegation_amount == 0 then ok r else next

unfoldable pub calculate_undelegations : ℕ → List ValidatorResponse → Result (List ℕ)
calculate_undelegations undelegation_amount [] = err (generic_err "Empty validators set")
calculate_undelegations undelegation_amount (v ∷ vs) = do
  let validators = v ∷ vs
  total_delegated ← sum_delegated 0 validators
  fail_if (ltb total_delegated undelegation_amount)
      (generic_err "undelegate amount can't be bigger than total delegated amount")
  r ← undelegate_while (undelegation_amount + 1) (length validators) (record {
    undelegations = replicate (length validators) 0;
    validators = validators;
    undelegation_amount = undelegation_amount;
    total_delegated = total_delegated;
  })
  ok r.undelegations

-- The loops over the computed shares that skip the zeros and build a message, or a redelegation, from
-- the validator at the share's index.
unfoldable pub nonzero_shares :
    {B : Type 0} → (String → ℕ → B) → List ValidatorResponse → List ℕ → Result (List B)
nonzero_shares make vs [] = ok []
nonzero_shares make [] (d ∷ ds) = err panic
nonzero_shares make (v ∷ vs) (d ∷ ds) = do
  rest ← nonzero_shares make vs ds
  ok (if d == 0 then rest else make v.address d ∷ rest)
