-- ===== src/Registry/Msg.antt =====
-- The stored types (registry.rs) and the messages (msg.rs) of
-- contracts/lido_cosmos_validators_registry/src.
use jullia_lp_staking.Base.{String, List, Option}
use jullia_lp_staking.Registry.Common.{ValidatorResponse}

pub record RegistryConfig : Type 0 where
  pub owner : String
  pub hub_contract : String

pub record Validator : Type 0 where
  pub address : String

pub record InstantiateMsg : Type 0 where
  pub registry : List Validator
  pub hub_contract : String

pub data ExecuteMsg : Type 0 where
  add_validator : Validator → ExecuteMsg
  remove_validator : String → ExecuteMsg
  -- owner, hub contract
  update_config : Option String → Option String → ExecuteMsg

pub data QueryMsg : Type 0 where
  get_validators_for_delegation : QueryMsg
  config : QueryMsg

pub data Answer : Type 0 where
  validators : List ValidatorResponse → Answer
  config : RegistryConfig → Answer
