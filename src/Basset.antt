-- ===== src/Basset.antt =====
-- packages/basset/src/hub.rs: the hub's stored types and messages, shared by all contracts.
use jullia_lp_staking.Base.{
  ℕ, String, Bool, false, List, Option, Result, ok, ◌>>=◌, ◌==◌, ◌||◌, if◌then◌else◌, unwrap_or,
}
use jullia_lp_staking.Cosmwasm.Uint.{add_u128}
use jullia_lp_staking.Cosmwasm.Decimal.{Decimals, decimal_one}
use jullia_lp_staking.Cosmwasm.Types.{Coin, Cw20ReceiveMsg}

pub data BondType : Type 0 where
  st_atom : BondType
  bond_rewards : BondType

pub record InstantiateMsg : Type 0 where
  pub epoch_period : ℕ
  pub underlying_coin_denom : String
  pub unbonding_period : ℕ

pub record State : Type 0 where
  -- `serde(skip)`: never stored, so 0 after a load
  pub total_statom_issued : ℕ
  pub statom_exchange_rate : ℕ
  pub total_bond_statom_amount : ℕ
  pub prev_hub_balance : ℕ
  pub last_unbonded_time : ℕ
  pub last_processed_batch : ℕ

pub record Config : Type 0 where
  pub creator : String
  pub reward_dispatcher_contract : Option String
  pub validators_registry_contract : Option String
  pub statom_token_contract : Option String

pub data ExecuteMsg : Type 0 where
  -- owner, rewards dispatcher, validators registry, token
  update_config : Option String → Option String → Option String → Option String → ExecuteMsg
  -- epoch period, unbonding period
  update_params : Option ℕ → Option ℕ → ExecuteMsg
  pause_contracts : ExecuteMsg
  unpause_contracts : ExecuteMsg
  bond_for_st_atom : ExecuteMsg
  bond_rewards : ExecuteMsg
  dispatch_rewards : ExecuteMsg
  withdraw_unbonded : ExecuteMsg
  check_slashing : ExecuteMsg
  receive : Cw20ReceiveMsg → ExecuteMsg
  -- source validator; destination validators and amounts
  redelegate_proxy : String → List (String × Coin) → ExecuteMsg
  add_guardians : List String → ExecuteMsg
  remove_guardians : List String → ExecuteMsg

pub data Cw20HookMsg : Type 0 where
  unbond : Cw20HookMsg

pub record Parameters : Type 0 where
  pub epoch_period : ℕ
  pub underlying_coin_denom : String
  pub unbonding_period : ℕ
  pub paused : Option Bool

pub record CurrentBatch : Type 0 where
  pub id : ℕ
  pub requested_statom : ℕ

pub record UnbondHistory : Type 0 where
  pub batch_id : ℕ
  pub time : ℕ
  pub statom_amount : ℕ
  pub statom_applied_exchange_rate : ℕ
  pub statom_withdraw_rate : ℕ
  pub released : Bool

pub record UnbondWaitEntity : Type 0 where
  pub statom_amount : ℕ

module _ ⦃num : Decimals⦄ where
  -- `State::update_statom_exchange_rate`
  unfoldable pub update_statom_exchange_rate : State → ℕ → ℕ → Result State
  update_statom_exchange_rate s total_issued requested = do
    actual_supply ← add_u128 total_issued requested
    if s.total_bond_statom_amount == 0 || actual_supply == 0
        then ok (record s { statom_exchange_rate = decimal_one })
        else do
          rate ← num.from_ratio s.total_bond_statom_amount actual_supply
          ok (record s { statom_exchange_rate = rate })

-- `params.paused.unwrap_or(false)`
abbrev pub paused : Parameters → Bool
paused params = unwrap_or params.paused false

-- `is_paused`, on the answer of the hub to the query of its parameters.
unfoldable pub is_paused : (String → Result Parameters) → String → Result Bool
is_paused query_hub_parameters hub_addr = do
  params ← query_hub_parameters hub_addr
  ok (paused params)
