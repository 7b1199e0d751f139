-- ===== src/Hub/Withdraw.antt =====
-- `execute_withdraw_unbonded` and what it calls (contracts/lido_cosmos_hub/src/unbond.rs).
use Prim.Native.Nat.{max}
use Prim.Native.String
use jullia_lp_staking.Base.{
  ℕ, zero, suc, ◌+◌, true, List, [], ◌∷◌, Option, some, none, Result, ok, err, generic_err,
  out_of_fuel, ltb, ◌==◌, if◌then◌else◌, ◌>>=◌ as bind,
}
use jullia_lp_staking.Cosmwasm.Uint.{add_u64, add_u256, checked_sub, sub_or_panic, to_u128}
use jullia_lp_staking.Cosmwasm.Decimal.{Decimals}
use jullia_lp_staking.Cosmwasm.Types.{Env, MessageInfo, AttrValue}
use jullia_lp_staking.SignedInt.{SignedInt, from_subtraction}
use jullia_lp_staking.Basset.{UnbondHistory, paused}
use jullia_lp_staking.Messages.{CosmosMsg, Response}
use jullia_lp_staking.Hub.Store.{
  Store, Chain, Tx, ◌>>=◌, ◌>>◌, pure, fail_if, lift, reads, load, save, save_state,
}
use jullia_lp_staking.Hub.Lists.{
  read_unbond_history, store_unbond_history, get_finished_amount, remove_unbond_wait_list,
}
use jullia_lp_staking.Hub.Rates.{calculate_new_withdraw_rate}

-- The tests with which both loops go on: the batch is stored, its time has come, and it is not released.
unfoldable pub unprocessed : ℕ → ℕ → Store → Option UnbondHistory
unfolding read_unbond_history
unprocessed historical_time i s = elim (read_unbond_history i s) [
  | err _ ↦ none
  | ok h ↦ if ltb historical_time h.time then none else if h.released then none else some h
]

-- Above every stored id: a loop over consecutive stored batches makes at most as many turns, and one
-- more to find the end.
unfoldable pub key_bound : List (ℕ × UnbondHistory) → ℕ
key_bound [] = 0
key_bound ((k, h) ∷ m) = max (k + 1) (key_bound m)

abbrev pub history_fuel : Store → ℕ
history_fuel s = suc (key_bound s.history)

-- What the second loop stores for a batch.
abbrev pub release : UnbondHistory → ℕ → UnbondHistory
release h rate = record h { statom_withdraw_rate = rate; released = true }

module _ ⦃num : Decimals⦄ where
  -- The loop of `calculate_newly_added_unbonded_amount`.
  unfoldable pub newly_added_loop : ℕ → ℕ → ℕ → Store → ℕ → ℕ → Result (ℕ × ℕ)
  newly_added_loop zero historical_time i s total count = err out_of_fuel
  newly_added_loop (suc fuel) historical_time i s total count =
      elim (unprocessed historical_time i s) [
        | none ↦ ok (total, count)
        | some history ↦
            bind (num.mul256 history.statom_amount history.statom_withdraw_rate) λ unbonded.
              bind (add_u256 total unbonded) λ total'. bind (add_u64 count 1) λ count'.
                bind (add_u64 i 1) λ i'. newly_added_loop fuel historical_time i' s total' count'
      ]

  unfoldable pub calculate_newly_added_unbonded_amount : ℕ → ℕ → Store → Result (ℕ × ℕ)
  calculate_newly_added_unbonded_amount last_processed_batch historical_time s =
      bind (add_u64 last_processed_batch 1)
        λ i. newly_added_loop (history_fuel s) historical_time i s 0 0

  -- The second loop of `process_withdraw_rate`: the storage, and `state.last_processed_batch`.
  unfoldable pub release_loop : ℕ → ℕ → ℕ → SignedInt → ℕ → ℕ → Store → Result (ℕ × Store)
  release_loop zero historical_time total slashed iterator last s = err out_of_fuel
  release_loop (suc fuel) historical_time total slashed iterator last s =
      elim (unprocessed historical_time iterator s) [
        | none ↦ ok (last, s)
        | some history ↦
            bind
              (calculate_new_withdraw_rate history.statom_amount history.statom_withdraw_rate total
                slashed)
              λ rate.
                let s' = store_unbond_history iterator (release history rate) s in
                bind (add_u64 iterator 1)
                  λ iterator'. release_loop fuel historical_time total slashed iterator' iterator s'
      ]

  unfoldable pub process_withdraw_rate : ℕ → ℕ → Tx Unit
  process_withdraw_rate historical_time hub_balance = do
    state ← load Store.state
    (total, batch_count) ←
        reads (calculate_newly_added_unbonded_amount state.last_processed_batch historical_time)
    if ltb batch_count 1 then pure tt else do
      balance_change ← lift (from_subtraction hub_balance state.prev_hub_balance)
      let actual_unbonded_amount = balance_change.magnitude
      total' ← lift (to_u128 total)
      slashed ← lift (from_subtraction total' actual_unbonded_amount)
      iterator ← lift (add_u64 state.last_processed_batch 1)
      last ← λ s.
          release_loop (history_fuel s) historical_time total slashed iterator
            state.last_processed_batch s
      save_state (record state { last_processed_batch = last })

  unfoldable pub execute_withdraw_unbonded : Chain → Env → MessageInfo → Tx Response
  execute_withdraw_unbonded chain env info = do
    params ← load Store.parameters
    fail_if (paused params) (generic_err "The contract is temporarily paused")
    let coin_denom = params.underlying_coin_denom
    historical_time ← lift (sub_or_panic env.block_seconds params.unbonding_period)
    hub_balance ← lift (chain.query_balance env.contract_address coin_denom)
    process_withdraw_rate historical_time hub_balance.amount
    (withdraw_amount, deprecated_batches) ← reads (get_finished_amount info.sender)
    fail_if (withdraw_amount == 0) (
        generic_err
          (String.◌++◌ "No withdrawable " (String.◌++◌ coin_denom " assets are available yet")))
    save (remove_unbond_wait_list chain deprecated_batches info.sender)
    prev_balance ← lift (checked_sub hub_balance.amount withdraw_amount)
    last_state ← load Store.state
    save_state (record last_state { prev_hub_balance = prev_balance })
    pure (record {
      messages =
          CosmosMsg.bank_send info.sender
            (record { denom = coin_denom; amount = withdraw_amount } ∷ [])
          ∷ [];
      attributes =
          record { key = "action"; value = AttrValue.text "finish_burn" }
          ∷ record { key = "from"; value = AttrValue.text env.contract_address }
          ∷ record { key = "amount"; value = AttrValue.uint withdraw_amount }
          ∷ [];
    })
