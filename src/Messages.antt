-- ===== src/Messages.antt =====
-- The messages that the contracts send, and the response of a handler: `Cw20ExecuteMsg`, `CosmosMsg` and
-- `Response` as far as the contracts use them, and the rewards dispatcher's `ExecuteMsg` (msg.rs).
-- The payload of a `WasmMsg::Execute` is the message before `to_binary`.
use jullia_lp_staking.Base.{ℕ, String, List, Option}
use jullia_lp_staking.Cosmwasm.Types.{Coin, Attribute}
use jullia_lp_staking.Basset

pub data DispatcherExecuteMsg : Type 0 where
  -- owner, hub contract, reward denom, fee address, fee rate
  update_config :
      Option String
      → Option String
      → Option String
      → Option String
      → Option ℕ
      → DispatcherExecuteMsg
  dispatch_rewards : DispatcherExecuteMsg

pub data Payload : Type 0 where
  burn : ℕ → Payload
  mint : String → ℕ → Payload
  to_hub : Basset.ExecuteMsg → Payload
  to_dispatcher : DispatcherExecuteMsg → Payload

pub data CosmosMsg : Type 0 where
  bank_send : String → List Coin → CosmosMsg
  delegate : String → Coin → CosmosMsg
  undelegate : String → Coin → CosmosMsg
  -- source validator, destination validator
  redelegate : String → String → Coin → CosmosMsg
  set_withdraw_address : String → CosmosMsg
  withdraw_delegator_reward : String → CosmosMsg
  -- contract, message, funds
  wasm_execute : String → Payload → List Coin → CosmosMsg

pub record Response : Type 0 where
  pub messages : List CosmosMsg
  pub attributes : List Attribute
