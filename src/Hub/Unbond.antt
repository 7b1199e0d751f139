-- ===== src/Hub/Unbond.antt =====
-- `execute_unbond_statom` and what it calls (contracts/lido_cosmos_hub/src/unbond.rs).
use jullia_lp_staking.Base.{
  ℕ, String, Bool, false, List, [], ◌∷◌, ◌++◌, map, Result, ok, generic_err, not_found, ok_or, ltb,
  leb, if◌then◌else◌, ◌>>=◌ as bind,
}
use jullia_lp_staking.Base.Sort.{sort_by}
use jullia_lp_staking.Cosmwasm.Uint.{add_u64, add_u128, checked_sub, sub_or_panic}
use jullia_lp_staking.Cosmwasm.Decimal.{Decimals}
use jullia_lp_staking.Cosmwasm.Types.{Env, Delegation, AttrValue}
use jullia_lp_staking.Basset.{State, CurrentBatch, UnbondHistory}
use jullia_lp_staking.Messages.{CosmosMsg, Payload, Response}
use jullia_lp_staking.Registry.Common.{ValidatorResponse, calculate_undelegations, nonzero_shares}
use jullia_lp_staking.Hub.Store.{
  Store, Chain, Tx, ◌>>=◌, ◌>>◌, pure, lift, reads, load, save, save_state, save_current_batch,
}
use jullia_lp_staking.Hub.Lists.{store_unbond_wait_list, store_unbond_history}
use jullia_lp_staking.Hub.Slashing.{slashing}

abbrev pub to_validator : Delegation → ValidatorResponse
to_validator d = record { total_delegated = d.amount.amount; address = d.validator }

-- The order of `undelegate`: the largest delegations first.
abbrev pub larger_first : ValidatorResponse → ValidatorResponse → Bool
larger_first v1 v2 = leb v2.total_delegated v1.total_delegated

abbrev pub undelegate_msg : String → String → ℕ → CosmosMsg
undelegate_msg denom validator amount =
    CosmosMsg.undelegate validator (record { denom = denom; amount = amount })

unfoldable pub undelegate : Chain → ℕ → String → Store → Result (List CosmosMsg)
undelegate chain claim delegator s = bind (ok_or s.parameters not_found) λ params.
    bind (chain.query_all_delegations delegator) λ all_delegations.
      let validators = sort_by larger_first (map to_validator all_delegations) in
      bind (calculate_undelegations claim validators) λ undelegations.
        nonzero_shares (undelegate_msg params.underlying_coin_denom) validators undelegations

abbrev pub new_history : Env → CurrentBatch → State → UnbondHistory
new_history env current_batch state = record {
  batch_id = current_batch.id;
  time = env.block_seconds;
  statom_amount = current_batch.requested_statom;
  statom_applied_exchange_rate = state.statom_exchange_rate;
  statom_withdraw_rate = state.statom_exchange_rate;
  released = false;
}

-- What `process_undelegations` returns, and the two structures that it changes in place.
pub record Undelegation : Type 0 where
  pub messages : List CosmosMsg
  pub current_batch : CurrentBatch
  pub state : State

abbrev pub wait_list_step : (Store → Result Store) → Tx Unit
wait_list_step f s = bind (f s) (λ s'. ok (tt, s'))

module _ ⦃num : Decimals⦄ where
  unfoldable pub process_undelegations : Chain → Env → CurrentBatch → State → Tx Undelegation
  process_undelegations chain env current_batch state = do
    statom_undelegation_amount ←
        lift (num.mul current_batch.requested_statom state.statom_exchange_rate)
    undelegated_msgs ← reads (undelegate chain statom_undelegation_amount env.contract_address)
    total ← lift (checked_sub state.total_bond_statom_amount statom_undelegation_amount)
    let state' = record state { total_bond_statom_amount = total }
    save (store_unbond_history current_batch.id (new_history env current_batch state'))
    id ← lift (add_u64 current_batch.id 1)
    pure (record {
      messages = undelegated_msgs;
      current_batch = record { id = id; requested_statom = 0 };
      state = record state' { last_unbonded_time = env.block_seconds };
    })

  -- The batch is undelegated only when its epoch has passed.
  unfoldable pub end_epoch : Chain → Env → ℕ → ℕ → CurrentBatch → State → Tx Undelegation
  end_epoch chain env passed_time epoch_period current_batch state =
      if ltb epoch_period passed_time
      then process_undelegations chain env current_batch state
      else pure (record { messages = []; current_batch = current_batch; state = state })

  unfoldable pub execute_unbond_statom : Chain → Env → ℕ → String → Tx Response
  execute_unbond_statom chain env amount sender = do
    params ← load Store.parameters
    current_batch ← load Store.current_batch
    state ← slashing chain env
    requested ← lift (add_u128 current_batch.requested_statom amount)
    let current_batch' = record current_batch { requested_statom = requested }
    wait_list_step (store_unbond_wait_list chain current_batch'.id sender amount)
    passed_time ← lift (sub_or_panic env.block_seconds state.last_unbonded_time)
    u ← end_epoch chain env passed_time params.epoch_period current_batch' state
    save_current_batch u.current_batch
    save_state u.state
    config ← load Store.config
    token_address ← lift (
        ok_or config.statom_token_contract
          (generic_err "the token contract must have been registered"))
    pure (record {
      messages = u.messages ++ CosmosMsg.wasm_execute token_address (Payload.burn amount) [] ∷ [];
      attributes =
          record { key = "action"; value = AttrValue.text "burn" }
          ∷ record { key = "from"; value = AttrValue.text sender }
          ∷ record { key = "burnt_amount"; value = AttrValue.uint amount }
          ∷ record { key = "unbonded_amount"; value = AttrValue.uint amount }
          ∷ [];
    })
