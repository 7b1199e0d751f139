-- ===== src/Hub/Queries.antt =====
-- The queries of contracts/lido_cosmos_hub/src/contract.rs.
use jullia_lp_staking.Base.{ℕ, String, List, map, Option, Result, ok, not_found, ok_or, ◌>>=◌}
use jullia_lp_staking.Cosmwasm.Uint.{sub_or_panic}
use jullia_lp_staking.Cosmwasm.Decimal.{Decimals}
use jullia_lp_staking.Cosmwasm.Types.{Env}
use jullia_lp_staking.Basset.{Parameters, UnbondHistory}
use jullia_lp_staking.Hub.Msg.{
  UnbondHistoryResponse, StateResponse, ConfigResponse, CurrentBatchResponse,
  WithdrawableUnbondedResponse, UnbondRequestsResponse, AllHistoryResponse, QueryMsg, Answer,
}
use jullia_lp_staking.Hub.Store.{Store, Chain}
use jullia_lp_staking.Hub.Lists.{get_unbond_requests, query_get_finished_amount, all_unbond_history}
use jullia_lp_staking.Hub.Slashing.{query_actual_state}

unfoldable pub query_guardians : Store → List String
query_guardians s = map (λ e. e.0) s.guardians

unfoldable pub query_config : Store → Result ConfigResponse
query_config s = do
  config ← ok_or s.config not_found
  ok (record {
    owner = config.creator;
    reward_dispatcher_contract = config.reward_dispatcher_contract;
    validators_registry_contract = config.validators_registry_contract;
    statom_token_contract = config.statom_token_contract;
  })

unfoldable pub query_current_batch : Store → Result CurrentBatchResponse
query_current_batch s = do
  current_batch ← ok_or s.current_batch not_found
  ok (record { id = current_batch.id; requested_statom = current_batch.requested_statom })

unfoldable pub query_params : Store → Result Parameters
query_params s = ok_or s.parameters not_found

unfoldable pub query_unbond_requests : String → Store → UnbondRequestsResponse
query_unbond_requests address s = record {
  address = address;
  requests = get_unbond_requests address s;
}

abbrev pub history_response : UnbondHistory → UnbondHistoryResponse
history_response r = record {
  batch_id = r.batch_id;
  time = r.time;
  statom_amount = r.statom_amount;
  statom_applied_exchange_rate = r.statom_applied_exchange_rate;
  statom_withdraw_rate = r.statom_withdraw_rate;
  released = r.released;
}

unfoldable pub query_unbond_requests_limitation : Option ℕ → Option ℕ → Store → AllHistoryResponse
query_unbond_requests_limitation start limit s = record {
  history = map history_response (all_unbond_history start limit s);
}

module _ ⦃num : Decimals⦄ where
  unfoldable pub query_state : Chain → Env → Store → Result StateResponse
  query_state chain env s = do
    state ← query_actual_state chain env s
    ok (record {
      statom_exchange_rate = state.statom_exchange_rate;
      total_bond_statom_amount = state.total_bond_statom_amount;
      prev_hub_balance = state.prev_hub_balance;
      last_unbonded_time = state.last_unbonded_time;
      last_processed_batch = state.last_processed_batch;
    })

  unfoldable pub query_withdrawable_unbonded :
      String → Env → Store → Result WithdrawableUnbondedResponse
  query_withdrawable_unbonded address env s = do
    params ← ok_or s.parameters not_found
    historical_time ← sub_or_panic env.block_seconds params.unbonding_period
    all_requests ← query_get_finished_amount address historical_time s
    ok (record { withdrawable = all_requests })

  unfoldable pub query : Chain → Env → QueryMsg → Store → Result Answer
  query chain env QueryMsg.config s = query_config s >>= λ r. ok (Answer.config r)
  query chain env QueryMsg.state s = query_state chain env s >>= λ r. ok (Answer.state r)
  query chain env QueryMsg.current_batch s =
      query_current_batch s >>= λ r. ok (Answer.current_batch r)
  query chain env (QueryMsg.withdrawable_unbonded address) s =
      query_withdrawable_unbonded address env s >>= λ r. ok (Answer.withdrawable_unbonded r)
  query chain env QueryMsg.parameters s = query_params s >>= λ r. ok (Answer.parameters r)
  query chain env (QueryMsg.unbond_requests address) s =
      ok (Answer.unbond_requests (query_unbond_requests address s))
  query chain env (QueryMsg.all_history start_from limit) s =
      ok (Answer.all_history (query_unbond_requests_limitation start_from limit s))
  query chain env QueryMsg.guardians s = ok (Answer.guardians (query_guardians s))
