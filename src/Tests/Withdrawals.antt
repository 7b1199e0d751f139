-- ===== src/Tests/Withdrawals.antt =====
-- The release of batches and withdrawals, in a hub with one batch that is due and one that is not.
use jullia_lp_staking.Base.{◌≡◌, ◌≢◌, refl, [], arith, ok, err, out_of_fuel}
use jullia_lp_staking.Cosmwasm.Uint.{
  add_u64, add_u128, add_u256, checked_sub, sub_or_panic, to_u128,
}
use jullia_lp_staking.SignedInt.{from_subtraction}
use jullia_lp_staking.Messages.{Response}
use jullia_lp_staking.Basset.{ExecuteMsg}
use jullia_lp_staking.Hub.Contract.{execute}
use jullia_lp_staking.Hub.Queue.{QueueIsValid}
use jullia_lp_staking.Hub.Queue.Steps.{execute-QueueIsValid}
use jullia_lp_staking.Hub.Store.{Store}
use jullia_lp_staking.Base.Maps.{lookup, insert, remove, place}
use jullia_lp_staking.Hub.Lists.{
  read_unbond_history, store_unbond_history, finished_step, finished_loop, get_finished_amount,
  remove_batches, remove_unbond_wait_list,
}
use jullia_lp_staking.Hub.Withdraw.{
  unprocessed, key_bound, newly_added_loop, calculate_newly_added_unbonded_amount, release_loop,
  process_withdraw_rate, execute_withdraw_unbonded,
}
use jullia_lp_staking.Hub.Released.{Released, process_withdraw_rate-Released}
use jullia_lp_staking.Hub.Progress.Loops.{process_withdraw_rate_succeeds}
use jullia_lp_staking.Hub.Process.{process_withdraw_rate_ends}
use jullia_lp_staking.Hub.Withdrawal.{
  Withdrawn, execute_withdraw_unbonded-Withdrawn, execute_withdraw_unbonded_once,
}
use jullia_lp_staking.Hub.Rates.{calculate_new_withdraw_rate}
use jullia_lp_staking.Tests.{
  fixed_point, outcome, chain, env, alice, parameters, state, current_batch, store,
}

-- 100 of the 150 coins of the hub are new, and the first batch is released at its full worth.
abbrev processed : Store
processed = (outcome (tt, store) (process_withdraw_rate 99_000 150 store)).1

processed_lem : process_withdraw_rate 99_000 150 store ≡ ok (tt, processed)
unfolding process_withdraw_rate calculate_newly_added_unbonded_amount add_u64 newly_added_loop
    unprocessed lookup add_u256 key_bound from_subtraction to_u128 release_loop
    calculate_new_withdraw_rate store_unbond_history insert remove place
processed_lem = refl

process_withdraw_rate-Released_example : Released 99_000 store processed state
process_withdraw_rate-Released_example =
    process_withdraw_rate-Released 99_000 150 store processed state refl processed_lem

process_withdraw_rate_ends_example : process_withdraw_rate 99_000 150 store ≢ err out_of_fuel
process_withdraw_rate_ends_example = process_withdraw_rate_ends 99_000 150 store

abbrev pub withdrawn : Response × Store
withdrawn =
    outcome (record { messages = []; attributes = [] }, store)
      (execute_withdraw_unbonded chain env alice store)

pub withdrawn_lem : execute_withdraw_unbonded chain env alice store ≡ ok withdrawn
unfolding execute_withdraw_unbonded process_withdraw_rate calculate_newly_added_unbonded_amount
    add_u64 newly_added_loop unprocessed lookup add_u256 key_bound from_subtraction to_u128
    release_loop calculate_new_withdraw_rate store_unbond_history insert place get_finished_amount
    remove add_u128 checked_sub finished_loop finished_step read_unbond_history remove_batches
    remove_unbond_wait_list sub_or_panic
withdrawn_lem = refl

execute_withdraw_unbonded-Withdrawn_example :
    Withdrawn chain env alice parameters store withdrawn.1 withdrawn.0
execute_withdraw_unbonded-Withdrawn_example =
    execute_withdraw_unbonded-Withdrawn chain env alice parameters store withdrawn.1 withdrawn.0
      refl withdrawn_lem

execute_withdraw_unbonded_once_example : get_finished_amount "alice" withdrawn.1 ≡ ok (0, [])
execute_withdraw_unbonded_once_example =
    execute_withdraw_unbonded_once chain env alice parameters store withdrawn.1 withdrawn.0 refl
      withdrawn_lem

pub store-QueueIsValid : QueueIsValid store
unfolding lookup
store-QueueIsValid = record {
  last = 0;
  current = 3;
  has_last = refl;
  has_current = refl;
  behind = omega arith;
  stored = λ k lo hi. ground arith;
  bounded = λ k out. ground arith;
  released = λ k h e le. ground arith;
  pending = λ k h e lt. ground arith;
}

execute-QueueIsValid_example : QueueIsValid withdrawn.1
unfolding execute
execute-QueueIsValid_example =
    execute-QueueIsValid chain env alice ExecuteMsg.withdraw_unbonded store withdrawn.1 withdrawn.0
      withdrawn_lem store-QueueIsValid

process_withdraw_rate_succeeds_example :
    (s' : Store) × (process_withdraw_rate 99_000 150 store ≡ ok (tt, s'))
unfolding lookup
process_withdraw_rate_succeeds_example =
    process_withdraw_rate_succeeds 99_000 150 store state current_batch store-QueueIsValid refl refl
      (omega arith) (omega arith) (omega arith) (omega arith)
