-- ===== src/Hub/Msg.antt =====
-- The hub's queries and their answers (packages/basset/src/hub.rs); an answer is the value before
-- `to_binary`.
use jullia_lp_staking.Base.{ℕ, String, Bool, List, Option}
use jullia_lp_staking.Basset.{Parameters}

pub record UnbondHistoryResponse : Type 0 where
  pub batch_id : ℕ
  pub time : ℕ
  pub statom_amount : ℕ
  pub statom_applied_exchange_rate : ℕ
  pub statom_withdraw_rate : ℕ
  pub released : Bool

pub record StateResponse : Type 0 where
  pub statom_exchange_rate : ℕ
  pub total_bond_statom_amount : ℕ
  pub prev_hub_balance : ℕ
  pub last_unbonded_time : ℕ
  pub last_processed_batch : ℕ

pub record ConfigResponse : Type 0 where
  pub owner : String
  pub reward_dispatcher_contract : Option String
  pub validators_registry_contract : Option String
  pub statom_token_contract : Option String

pub record CurrentBatchResponse : Type 0 where
  pub id : ℕ
  pub requested_statom : ℕ

pub record WithdrawableUnbondedResponse : Type 0 where
  pub withdrawable : ℕ

pub record UnbondRequestsResponse : Type 0 where
  pub address : String
  pub requests : List (ℕ × ℕ)

pub record AllHistoryResponse : Type 0 where
  pub history : List UnbondHistoryResponse

pub data QueryMsg : Type 0 where
  config : QueryMsg
  state : QueryMsg
  current_batch : QueryMsg
  withdrawable_unbonded : String → QueryMsg
  parameters : QueryMsg
  unbond_requests : String → QueryMsg
  -- first id, limit
  all_history : Option ℕ → Option ℕ → QueryMsg
  guardians : QueryMsg

pub data Answer : Type 0 where
  config : ConfigResponse → Answer
  state : StateResponse → Answer
  current_batch : CurrentBatchResponse → Answer
  withdrawable_unbonded : WithdrawableUnbondedResponse → Answer
  parameters : Parameters → Answer
  unbond_requests : UnbondRequestsResponse → Answer
  all_history : AllHistoryResponse → Answer
  guardians : List String → Answer
