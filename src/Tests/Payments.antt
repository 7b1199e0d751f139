-- ===== src/Tests/Payments.antt =====
-- A withdrawal when most coins of a batch have arrived: what it pays, and what the query answers before.
use jullia_lp_staking.Cosmwasm.Types.{Env}
use jullia_lp_staking.Messages.{CosmosMsg, Response}
use jullia_lp_staking.Basset.{ExecuteMsg}
use jullia_lp_staking.Hub.Lists.{
  finished_step, finished_loop, get_finished_amount, remove_batches, remove_unbond_wait_list,
}
use jullia_lp_staking.Hub.Withdraw.{execute_withdraw_unbonded}
use jullia_lp_staking.Hub.Queries.{query_withdrawable_unbonded}
use jullia_lp_staking.Hub.Withdrawable.{query_withdrawable_unbonded-execute_withdraw_unbonded}
use jullia_lp_staking.Hub.Payout.{payout}
use jullia_lp_staking.Hub.Book.Users.{total}
use jullia_lp_staking.Hub.Solvency.Dues.{Funding}
use jullia_lp_staking.Hub.Solvency.Funded.{Funded, Funded-Solvent}
use jullia_lp_staking.Hub.Solvency.Paid.{Ready, no_assets, Funded-pays}
use jullia_lp_staking.Tests.Bonds.{payer}
use jullia_lp_staking.Tests.{atoms, chain, env, alice, owner, parameters}
use jullia_lp_staking.Base.{◌<◌, ℕ, [], ◌∷◌, ◌≤◌, ◌≡◌, refl, arith, ok, some, err, ◌⊎◌}
use jullia_lp_staking.Cosmwasm.Uint.{
  add_u64, add_u256, add_u128, sub_or_panic, checked_sub, to_u128,
}
use jullia_lp_staking.SignedInt.{from_subtraction}
use jullia_lp_staking.Base.Maps.{lookup, insert, place, remove}
use jullia_lp_staking.Hub.Store.{Store, Chain}
use jullia_lp_staking.Hub.Lists.{read_unbond_history, store_unbond_history}
use jullia_lp_staking.Hub.Rates.{calculate_new_withdraw_rate}
use jullia_lp_staking.Hub.Withdraw.{
  unprocessed, key_bound, newly_added_loop, calculate_newly_added_unbonded_amount, release_loop,
  process_withdraw_rate,
}
use jullia_lp_staking.Hub.Contract.{execute}
use jullia_lp_staking.Tests.Books.{
  first_msg, started, started_lem, settings, set_up, set_up_lem, bonds, bonded, bonded_lem, later,
  token, sends, requested, requested_lem,
}
use jullia_lp_staking.Tests.{fixed_point, outcome}
use jullia_lp_staking.Tests.Solvency.{
  asked_state, asked, released, asked_lem, released_lem, released_has_state, asked-Valued,
}

asked-Funded : Funded asked
asked-Funded = rw asked_lem (
    Funded.executed
      (Funded.executed
        (Funded.executed (Funded.instantiated env owner first_msg started.0 started_lem) chain env
          owner settings set_up.0 (λ e. cc) set_up_lem)
        chain env payer bonds bonded.0 (λ e. cc) bonded_lem)
      chain later token sends requested.0 (λ e. cc) requested_lem)

asked-Funding :
    Funding 150_000 20 asked asked_state (record asked_state { last_processed_batch = 1 })
unfolding lookup
asked-Funding = record {
  grown = omega arith;
  arrived = λ more. omega arith;
  valued = asked-Valued;
  few = omega arith;
}

-- The chain when the coins have arrived, and alice withdraws.
abbrev arrived_chain : Chain
arrived_chain = record chain { query_balance = λ address denom. ok (atoms 20) }

abbrev due_time : Env
due_time = record env { block_seconds = 151_000 }

abbrev paid : Response × Store
paid =
    outcome (record { messages = []; attributes = [] }, asked)
      (execute arrived_chain due_time alice ExecuteMsg.withdraw_unbonded asked)

paid_lem : execute arrived_chain due_time alice ExecuteMsg.withdraw_unbonded asked ≡ ok paid
unfolding execute execute_withdraw_unbonded process_withdraw_rate
    calculate_newly_added_unbonded_amount add_u64 newly_added_loop unprocessed lookup add_u256
    key_bound from_subtraction to_u128 release_loop calculate_new_withdraw_rate store_unbond_history
    insert place get_finished_amount remove add_u128 checked_sub finished_loop finished_step
    read_unbond_history remove_batches remove_unbond_wait_list sub_or_panic
paid_lem = refl

paid_has_state :
    paid.1.state ≡ some (record asked_state { prev_hub_balance = 2; last_processed_batch = 1 })
unfolding execute execute_withdraw_unbonded process_withdraw_rate
    calculate_newly_added_unbonded_amount add_u64 newly_added_loop unprocessed lookup add_u256
    key_bound from_subtraction to_u128 release_loop calculate_new_withdraw_rate store_unbond_history
    insert place get_finished_amount remove add_u128 checked_sub finished_loop finished_step
    read_unbond_history remove_batches remove_unbond_wait_list sub_or_panic
paid_has_state = refl

paid-Funded : Funded paid.1
paid-Funded =
    Funded.withdrawn asked-Funded arrived_chain due_time alice paid.0 parameters (atoms 20) released
      asked_state (record asked_state { last_processed_batch = 1 }) refl refl refl released_lem
      released_has_state asked-Funding paid_lem

Funded-Solvent_example : total (λ u. payout paid.1 (paid.1.wait u)) ("alice" ∷ "bob" ∷ []) ≤ 2
Funded-Solvent_example =
    Funded-Solvent paid.1 (record asked_state { prev_hub_balance = 2; last_processed_batch = 1 })
      ("alice" ∷ "bob" ∷ []) paid-Funded paid_has_state refl

asked-Ready : Ready 150_000 20 asked asked_state (record { id = 2; requested_statom = 0 })
unfolding lookup
asked-Ready = record {
  loaded = refl;
  collecting = refl;
  ids = omega arith;
  word = omega arith;
  grown = omega arith;
  valued = asked-Valued;
  few = omega arith;
}

abbrev due_payout : Store → ℕ
due_payout s = payout s (s.wait "alice")

Funded-pays_example :
    (s₁ : Store) × (process_withdraw_rate 150_000 20 asked ≡ ok (tt, s₁))
    × (((due_payout s₁ ≡ 0)
          × (execute_withdraw_unbonded arrived_chain due_time alice asked
              ≡ err (no_assets "uatom")))
        ⊎ ((0 < due_payout s₁)
            × (r : Response) × (s' : Store) × (execute_withdraw_unbonded arrived_chain due_time
                  alice asked
                ≡ ok (r, s'))
            × (r.messages
                ≡ CosmosMsg.bank_send "alice"
                    (record { denom = "uatom"; amount = due_payout s₁ } ∷ [])
                  ∷ [])))
Funded-pays_example =
    Funded-pays arrived_chain due_time alice parameters (atoms 20) asked asked_state
      (record { id = 2; requested_statom = 0 }) asked-Funded refl refl (omega arith) refl
      asked-Ready

-- A withdrawal of alice right after the release.
abbrev sent : Response × Store
sent =
    outcome (record { messages = []; attributes = [] }, asked)
      (execute_withdraw_unbonded arrived_chain due_time alice released)

sent_lem : execute_withdraw_unbonded arrived_chain due_time alice released ≡ ok sent
unfolding execute execute_withdraw_unbonded process_withdraw_rate
    calculate_newly_added_unbonded_amount add_u64 newly_added_loop unprocessed lookup add_u256
    key_bound from_subtraction to_u128 release_loop calculate_new_withdraw_rate store_unbond_history
    insert place get_finished_amount remove add_u128 checked_sub finished_loop finished_step
    read_unbond_history remove_batches remove_unbond_wait_list sub_or_panic
sent_lem = refl

query_withdrawable_unbonded-execute_withdraw_unbonded_example :
    (amount : ℕ) × (query_withdrawable_unbonded "alice" due_time released
      ≡ ok (record { withdrawable = amount }))
    × (sent.0.messages
        ≡ CosmosMsg.bank_send "alice" (record { denom = "uatom"; amount = amount } ∷ []) ∷ [])
unfolding process_withdraw_rate calculate_newly_added_unbonded_amount add_u64 newly_added_loop
    unprocessed lookup add_u256 key_bound from_subtraction to_u128 release_loop
    calculate_new_withdraw_rate store_unbond_history insert remove place
query_withdrawable_unbonded-execute_withdraw_unbonded_example =
    query_withdrawable_unbonded-execute_withdraw_unbonded arrived_chain due_time alice released
      sent.1 parameters sent.0 refl (omega arith) (λ k h found. ground arith) sent_lem
