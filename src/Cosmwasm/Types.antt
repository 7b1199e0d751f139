-- ===== src/Cosmwasm/Types.antt =====
-- The types of cosmwasm_std and cw20 that pass between the chain and the contracts.
use jullia_lp_staking.Base.{ℕ, String, List}

pub record Coin : Type 0 where
  pub denom : String
  pub amount : ℕ

-- `env.contract.address` and `env.block.time.seconds()`
pub record Env : Type 0 where
  pub contract_address : String
  pub block_seconds : ℕ

pub record MessageInfo : Type 0 where
  pub sender : String
  pub funds : List Coin

pub record Delegation : Type 0 where
  pub validator : String
  pub amount : Coin

pub record FullDelegation : Type 0 where
  pub amount : Coin
  pub can_redelegate : Coin

-- `msg` is the encoded hook message.
pub record Cw20ReceiveMsg : Type 0 where
  pub sender : String
  pub amount : ℕ
  pub msg : String

-- The value of a response attribute, before it is printed.
pub data AttrValue : Type 0 where
  text : String → AttrValue
  uint : ℕ → AttrValue
  decimal : ℕ → AttrValue
  coin : Coin → AttrValue

pub record Attribute : Type 0 where
  pub key : String
  pub value : AttrValue
