-- ===== src/Tests/Books.antt =====
-- The book of claims: a hub from its instantiation to a request to unbond, and a withdrawal.
use jullia_lp_staking.Base.{ℕ, ◌≤◌, ◌<◌, ◌≡◌, refl, String, true, false, List, [], some, none, ok}
use jullia_lp_staking.Base.Maps.{lookup, insert, place, remove}
use jullia_lp_staking.Cosmwasm.Uint.{add_u64, add_u128, sub_or_panic, checked_sub}
use jullia_lp_staking.Cosmwasm.Types.{Env, MessageInfo}
use jullia_lp_staking.Basset.{ExecuteMsg, InstantiateMsg}
use jullia_lp_staking.Messages.{Response}
use jullia_lp_staking.Hub.Store.{Store}
use jullia_lp_staking.Hub.Lists.{store_unbond_wait_list}
use jullia_lp_staking.Hub.Slashing.{slashing, query_actual_state, actual_total_bonded}
use jullia_lp_staking.Hub.Unbond.{end_epoch, execute_unbond_statom}
use jullia_lp_staking.Hub.Admin.{
  instantiate, execute_update_config, update_owner, update_reward_dispatcher, update_token,
  update_validators_registry,
}
use jullia_lp_staking.Hub.Contract.{execute, receive_cw20, receive_hook}
use jullia_lp_staking.Hub.Queue.{last_of}
use jullia_lp_staking.Hub.Book.{Book, Moves, claims, has_user, distinct}
use jullia_lp_staking.Hub.Book.Views.{Refines, claim_of, total_of}
use jullia_lp_staking.Hub.Book.Refinement.{execute-Refines}
use jullia_lp_staking.Hub.Book.Reach.{empty_store, Reached, Reached-claims}
use jullia_lp_staking.Base.Sort.{sort_by, insert_sorted}
use jullia_lp_staking.Registry.Common.{
  sum_delegated, delegate_loop, calculate_delegations, undelegate_loop, undelegate_while,
  calculate_undelegations, nonzero_shares,
}
use jullia_lp_staking.Basset.{update_statom_exchange_rate}
use jullia_lp_staking.Hub.Bond.{find_payment, mint_amount, bonded_state, execute_bond}
use jullia_lp_staking.Hub.Rates.{decimal_division}
use jullia_lp_staking.Hub.Lists.{store_unbond_history}
use jullia_lp_staking.Hub.Slashing.{query_total_statom_issued, slashed_state}
use jullia_lp_staking.Hub.Unbond.{undelegate, process_undelegations}
use jullia_lp_staking.Tests.Bonds.{payer}
use jullia_lp_staking.Tests.{fixed_point, outcome, chain, env, alice, owner, store}
use jullia_lp_staking.Tests.Withdrawals.{withdrawn, withdrawn_lem, store-QueueIsValid}

abbrev no_response : Response
no_response = record { messages = []; attributes = [] }

abbrev pub first_msg : InstantiateMsg
first_msg = record { epoch_period = 100; underlying_coin_denom = "uatom"; unbonding_period = 1_000 }

abbrev pub started : Response × Store
started = outcome (no_response, empty_store) (instantiate env owner first_msg empty_store)

pub started_lem : instantiate env owner first_msg empty_store ≡ ok started
unfolding instantiate
started_lem = refl

abbrev pub settings : ExecuteMsg
settings = ExecuteMsg.update_config none (some "dispatcher") (some "registry") (some "token")

abbrev pub set_up : Response × Store
set_up = outcome (no_response, empty_store) (execute chain env owner settings started.1)

pub set_up_lem : execute chain env owner settings started.1 ≡ ok set_up
unfolding execute instantiate execute_update_config update_owner update_reward_dispatcher
    update_token update_validators_registry
set_up_lem = refl

abbrev pub bonds : ExecuteMsg
bonds = ExecuteMsg.bond_for_st_atom

abbrev pub token : MessageInfo
token = record { sender = "token"; funds = [] }

abbrev pub bonded : Response × Store
bonded = outcome (no_response, empty_store) (execute chain env payer bonds set_up.1)

pub bonded_lem : execute chain env payer bonds set_up.1 ≡ ok bonded
unfolding execute instantiate execute_update_config update_owner update_reward_dispatcher
    update_token update_validators_registry execute_bond find_payment slashing query_actual_state
    mint_amount decimal_division bonded_state calculate_delegations sum_delegated delegate_loop
    sub_or_panic checked_sub nonzero_shares add_u128 actual_total_bonded
bonded_lem = refl

-- 300 tokens of alice, after the end of the epoch
abbrev pub sends : ExecuteMsg
sends = ExecuteMsg.receive (record { sender = "alice"; amount = 300; msg = "" })

abbrev pub later : Env
later = record env { block_seconds = 100_200 }

abbrev pub requested : Response × Store
requested = outcome (no_response, empty_store) (execute chain later token sends bonded.1)

pub requested_lem : execute chain later token sends bonded.1 ≡ ok requested
unfolding execute instantiate execute_update_config update_owner update_reward_dispatcher
    update_token update_validators_registry execute_bond find_payment slashing query_actual_state
    mint_amount decimal_division bonded_state calculate_delegations sum_delegated delegate_loop
    sub_or_panic checked_sub nonzero_shares add_u128 actual_total_bonded query_total_statom_issued
    slashed_state update_statom_exchange_rate receive_cw20 receive_hook execute_unbond_statom
    store_unbond_wait_list lookup insert remove place end_epoch process_undelegations undelegate
    calculate_undelegations undelegate_while undelegate_loop sort_by insert_sorted
    store_unbond_history add_u64
requested_lem = refl

pub requested-Reached : Reached requested.1
requested-Reached =
    Reached.executed
      (Reached.executed
        (Reached.executed (Reached.instantiated env owner first_msg started.0 started_lem) chain env
          owner settings set_up.0 set_up_lem)
        chain env payer bonds bonded.0 bonded_lem)
      chain later token sends requested.0 requested_lem

Reached-claims_example :
    (users : List String) × (last : ℕ) × (last_of requested.1 ≡ some last)
    × (distinct users ≡ true)
    × ((a : String) → has_user a users ≡ false → (k : ℕ) → claim_of requested.1 a k ≡ 0)
    × ((k : ℕ) → last < k → claims (claim_of requested.1) users k ≡ total_of requested.1 k)
    × ((k : ℕ) → claims (claim_of requested.1) users k ≤ total_of requested.1 k)
Reached-claims_example = Reached-claims requested.1 requested-Reached

-- The book of the storage with two batches.
abbrev book : Book
book = record { last = 0; current = 3; claim = claim_of store; total = total_of store }

book-Refines : Refines book store
book-Refines = record {
  has_last = refl;
  has_current = refl;
  has_claim = λ a k. refl;
  has_total = λ k. refl;
}

execute-Refines_example : (b : Book) × Moves book b × Refines b withdrawn.1
unfolding execute
execute-Refines_example =
    execute-Refines chain env alice ExecuteMsg.withdraw_unbonded store withdrawn.1 withdrawn.0 book
      withdrawn_lem store-QueueIsValid book-Refines
