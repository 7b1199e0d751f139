-- ===== src/Dispatcher/Msg.antt =====
-- The stored `Config` (state.rs) and the messages (msg.rs) of
-- contracts/lido_cosmos_rewards_dispatcher/src; its `ExecuteMsg` is in Messages.
use jullia_lp_staking.Base.{ℕ, String}

pub record DispatcherConfig : Type 0 where
  pub owner : String
  pub hub_contract : String
  pub statom_reward_denom : String
  pub lido_fee_address : String
  pub lido_fee_rate : ℕ

pub record InstantiateMsg : Type 0 where
  pub hub_contract : String
  pub statom_reward_denom : String
  pub lido_fee_address : String
  pub lido_fee_rate : ℕ

pub data QueryMsg : Type 0 where
  get_buffered_rewards : QueryMsg
  config : QueryMsg
