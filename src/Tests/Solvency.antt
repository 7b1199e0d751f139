-- ===== src/Tests/Solvency.antt =====
-- The bounds on what a release may pay, on a batch that is due and has lost a coin to slashing.
use jullia_lp_staking.Hub.Buckets.{by_batch}
use jullia_lp_staking.Hub.Book.Users.{total}
use jullia_lp_staking.Base.{
  [], ◌∷◌, str_eq, if◌then◌else◌, ◌+◌, ◌-◌, ◌*◌, ◌≤◌, ◌≡◌, refl, arith, false, ok, some, min,
}
use jullia_lp_staking.Cosmwasm.Decimal.{decimal_one}
use jullia_lp_staking.Cosmwasm.Uint.{
  add_u64, add_u256, add_u128, sub_or_panic, checked_sub, to_u128,
}
use jullia_lp_staking.SignedInt.{from_subtraction}
use jullia_lp_staking.Base.Maps.{lookup, insert, place, remove}
use jullia_lp_staking.Hub.Store.{Store}
use jullia_lp_staking.Hub.Lists.{read_unbond_history, store_unbond_history}
use jullia_lp_staking.Hub.Rates.{calculate_new_withdraw_rate}
use jullia_lp_staking.Hub.Withdraw.{
  unprocessed, key_bound, newly_added_loop, calculate_newly_added_unbonded_amount, release_loop,
  process_withdraw_rate,
}
use jullia_lp_staking.Hub.Solvency.Release.{batch_worth, worths, Valued}
use jullia_lp_staking.Hub.Release.{batch}
use jullia_lp_staking.Hub.Solvency.Shares.{process_withdraw_rate_fair}
use jullia_lp_staking.Hub.Book.Reach.{Reached}
use jullia_lp_staking.Hub.Solvency.Claims.{process_withdraw_rate_covers_claims}
use jullia_lp_staking.Hub.Lists.{store_unbond_wait_list}
use jullia_lp_staking.Hub.Slashing.{slashing, query_actual_state, actual_total_bonded}
use jullia_lp_staking.Hub.Unbond.{end_epoch, execute_unbond_statom}
use jullia_lp_staking.Hub.Admin.{
  instantiate, execute_update_config, update_owner, update_reward_dispatcher, update_token,
  update_validators_registry,
}
use jullia_lp_staking.Hub.Contract.{execute, receive_cw20, receive_hook}
use jullia_lp_staking.Base.Sort.{sort_by, insert_sorted}
use jullia_lp_staking.Registry.Common.{
  sum_delegated, delegate_loop, calculate_delegations, undelegate_loop, undelegate_while,
  calculate_undelegations, nonzero_shares,
}
use jullia_lp_staking.Basset.{State, UnbondHistory, update_statom_exchange_rate}
use jullia_lp_staking.Hub.Bond.{find_payment, mint_amount, bonded_state, execute_bond}
use jullia_lp_staking.Hub.Rates.{decimal_division}
use jullia_lp_staking.Hub.Slashing.{query_total_statom_issued, slashed_state}
use jullia_lp_staking.Hub.Unbond.{undelegate, process_undelegations}
use jullia_lp_staking.Tests.Books.{requested, requested-Reached}
use jullia_lp_staking.Tests.{fixed_point, outcome}

abbrev pub asked_state : State
asked_state = record {
  total_statom_issued = 0;
  statom_exchange_rate = 71_428_571_428_571_428;
  total_bond_statom_amount = 29;
  prev_hub_balance = 0;
  last_unbonded_time = 100_200;
  last_processed_batch = 0;
}

abbrev first_batch : UnbondHistory
first_batch = record {
  batch_id = 1;
  time = 100_200;
  statom_amount = 300;
  statom_applied_exchange_rate = 71_428_571_428_571_428;
  statom_withdraw_rate = 71_428_571_428_571_428;
  released = false;
}

-- The storage after a request of alice to unbond, written out.
abbrev pub asked : Store
asked = record {
  config = some (record {
    creator = "owner";
    reward_dispatcher_contract = some "dispatcher";
    validators_registry_contract = some "registry";
    statom_token_contract = some "token";
  });
  parameters = some (record {
    epoch_period = 100;
    underlying_coin_denom = "uatom";
    unbonding_period = 1_000;
    paused = some false;
  });
  current_batch = some (record { id = 2; requested_statom = 0 });
  state = some asked_state;
  guardians = [];
  wait = λ a. if str_eq "alice" a then (1, record { statom_amount = 300 }) ∷ [] else [];
  history = (1, first_batch) ∷ [];
}

pub asked_lem : asked ≡ requested.1
unfolding execute instantiate execute_update_config update_owner update_reward_dispatcher
    update_token update_validators_registry execute_bond find_payment slashing query_actual_state
    mint_amount decimal_division bonded_state calculate_delegations sum_delegated delegate_loop
    sub_or_panic checked_sub nonzero_shares add_u128 actual_total_bonded query_total_statom_issued
    slashed_state update_statom_exchange_rate receive_cw20 receive_hook execute_unbond_statom
    store_unbond_wait_list lookup insert remove place end_epoch process_undelegations undelegate
    calculate_undelegations undelegate_while undelegate_loop sort_by insert_sorted
    store_unbond_history add_u64
asked_lem = refl

-- 20 of the 21 coins of the batch have arrived.
abbrev pub released : Store
released = (outcome (tt, asked) (process_withdraw_rate 150_000 20 asked)).1

pub released_lem : process_withdraw_rate 150_000 20 asked ≡ ok (tt, released)
unfolding process_withdraw_rate calculate_newly_added_unbonded_amount add_u64 newly_added_loop
    unprocessed lookup add_u256 key_bound from_subtraction to_u128 release_loop
    calculate_new_withdraw_rate store_unbond_history insert remove place
released_lem = refl

pub released_has_state : released.state ≡ some (record asked_state { last_processed_batch = 1 })
unfolding process_withdraw_rate calculate_newly_added_unbonded_amount add_u64 newly_added_loop
    unprocessed lookup add_u256 key_bound from_subtraction to_u128 release_loop
    calculate_new_withdraw_rate store_unbond_history insert remove place
released_has_state = refl

pub asked-Valued : Valued 150_000 1 asked
unfolding unprocessed read_unbond_history lookup
asked-Valued = λ k h le due. ground arith

asked-Reached : Reached asked
asked-Reached = rw asked_lem requested-Reached

process_withdraw_rate_covers_claims_example :
    total (λ u. by_batch 1 1 released (released.wait u)) ("alice" ∷ "bob" ∷ []) * decimal_one
    ≤ 20 * decimal_one + 1 * (worths 1 1 asked - 20)
process_withdraw_rate_covers_claims_example =
    process_withdraw_rate_covers_claims 150_000 20 asked released asked_state
      (record asked_state { last_processed_batch = 1 }) ("alice" ∷ "bob" ∷ []) asked-Reached refl
      released_has_state (omega arith) asked-Valued refl released_lem

process_withdraw_rate_fair_example :
    batch_worth (batch 1 asked) * min 20 (worths 1 1 asked) * decimal_one
    ≤ ((batch_worth (batch 1 released) + 2) * decimal_one + 300) * worths 1 1 asked
unfolding lookup
process_withdraw_rate_fair_example =
    process_withdraw_rate_fair 150_000 20 asked released asked_state
      (record asked_state { last_processed_batch = 1 }) 1 first_batch refl released_has_state
      (omega arith) released_lem (omega arith) (omega arith) refl
