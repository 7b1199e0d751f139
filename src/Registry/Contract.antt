-- ===== src/Registry/Contract.antt =====
-- contracts/lido_cosmos_validators_registry/src/contract.rs. A handler returns the storage only when it succeeds, since a failed call is undone.
use jullia_lp_staking.Base.{
  ℕ, String, Bool, true, false, not, ◌||◌, List, [], ◌∷◌, Option, none, some, Result, ok, err,
  generic_err, not_found, ok_or, unwrap_or, fail_if, ◌>>=◌, ◌>>◌, ltb, leb, str_eq, map,
}
use jullia_lp_staking.Base.Maps.{lookup, insert, remove}
use jullia_lp_staking.Base.Keys.{string_key}
use jullia_lp_staking.Base.Sort.{sort_by}
use jullia_lp_staking.Cosmwasm.Types.{Coin, MessageInfo, Delegation, FullDelegation}
use jullia_lp_staking.Basset
use jullia_lp_staking.Messages.{CosmosMsg, Payload, Response}
use jullia_lp_staking.Registry.Msg.{
  RegistryConfig, Validator, InstantiateMsg, ExecuteMsg, QueryMsg, Answer,
}
use jullia_lp_staking.Registry.Common.{ValidatorResponse, calculate_delegations, nonzero_shares}

pub record Store : Type 0 where
  pub config : Option RegistryConfig
  pub registry : List (String × Validator)

pub record Chain : Type 0 where
  pub addr_validate : String → Result String
  pub query_all_delegations : String → Result (List Delegation)
  -- delegator, validator
  pub query_delegation : String → String → Result (Option FullDelegation)

abbrev pub no_messages : Response
no_messages = record { messages = []; attributes = [] }

-- `REGISTRY.save` for each validator of the message
unfoldable pub save_validators :
    List Validator → List (String × Validator) → List (String × Validator)
save_validators [] m = m
save_validators (v ∷ vs) m = save_validators vs (insert string_key v.address v m)

unfoldable pub instantiate :
    Chain → MessageInfo → InstantiateMsg → Store → Result (Response × Store)
instantiate chain info msg s = do
  hub_contract ← chain.addr_validate msg.hub_contract
  ok (
    no_messages,
    record {
      config = some (record { owner = info.sender; hub_contract = hub_contract });
      registry = save_validators msg.registry s.registry;
    },
  )

-- `if let Some(x) = item { … CONFIG.update … }`
unfoldable pub update_item :
    Chain → Option String → (String → RegistryConfig → RegistryConfig) → Store → Result Store
update_item chain none f s = ok s
update_item chain (some x) f s = do
  raw ← chain.addr_validate x
  last_config ← ok_or s.config not_found
  ok (record s { config = some (f raw last_config) })

unfoldable pub execute_update_config :
    Chain → MessageInfo → Option String → Option String → Store → Result (Response × Store)
unfolding update_item
execute_update_config chain info owner hub_contract s = do
  config ← ok_or s.config not_found
  fail_if (not (str_eq info.sender config.owner)) (generic_err "unauthorized")
  s₁ ← update_item chain owner (λ raw c. record c { owner = raw }) s
  s₂ ← update_item chain hub_contract (λ raw c. record c { hub_contract = raw }) s₁
  ok (no_messages, s₂)

unfoldable pub add_validator : MessageInfo → Validator → Store → Result (Response × Store)
add_validator info validator s = do
  config ← ok_or s.config not_found
  fail_if (not (str_eq info.sender config.owner || str_eq info.sender config.hub_contract))
      (generic_err "unauthorized")
  ok (no_messages, record s { registry = insert string_key validator.address validator s.registry })

-- The hash map of `query_validators`; a later delegation replaces an earlier one.
unfoldable pub delegations_by_validator : List Delegation → List (String × ℕ) → List (String × ℕ)
delegations_by_validator [] m = m
delegations_by_validator (d ∷ ds) m =
    delegations_by_validator ds (insert string_key d.validator d.amount.amount m)

abbrev pub with_delegation : List (String × ℕ) → String × Validator → ValidatorResponse
with_delegation delegations (_, v) = record {
  total_delegated = unwrap_or (lookup string_key v.address delegations) 0;
  address = v.address;
}

unfoldable pub query_validators : Chain → Store → Result (List ValidatorResponse)
unfolding delegations_by_validator
query_validators chain s = do
  config ← ok_or s.config not_found
  all ← chain.query_all_delegations config.hub_contract
  ok (map (with_delegation (delegations_by_validator all [])) s.registry)

-- `validators.sort_by(|v1, v2| v1.total_delegated.cmp(&v2.total_delegated))`
abbrev pub smaller_first : ValidatorResponse → ValidatorResponse → Bool
smaller_first v1 v2 = leb v1.total_delegated v2.total_delegated

abbrev pub is_empty {ℓ} : {A : Type ℓ} → List A → Bool
is_empty [] = true
is_empty (x ∷ xs) = false

abbrev pub redelegation : String → String → ℕ → String × Coin
redelegation denom validator amount = (validator, record { denom = denom; amount = amount })

-- The messages that move the delegation of a removed validator to the others.
unfoldable pub redelegation_msgs :
    String → String → List ValidatorResponse → FullDelegation → Result (List CosmosMsg)
redelegation_msgs hub_address validator_address validators delegation = do
  delegations ← calculate_delegations delegation.amount.amount validators
  redelegations ← nonzero_shares (redelegation delegation.amount.denom) validators delegations
  ok (
      CosmosMsg.wasm_execute hub_address
        (Payload.to_hub (Basset.ExecuteMsg.redelegate_proxy validator_address redelegations)) []
      ∷ CosmosMsg.wasm_execute hub_address (Payload.to_hub Basset.ExecuteMsg.dispatch_rewards) []
      ∷ [])

-- The messages of `remove_validator`, by the outcome of the query of the delegation.
unfoldable pub removal_msgs :
    String
    → String
    → List ValidatorResponse
    → Result (Option FullDelegation)
    → Result (List CosmosMsg)
unfolding redelegation_msgs
removal_msgs hub_address validator_address validators (err _) = ok []
removal_msgs hub_address validator_address validators (ok none) = ok []
removal_msgs hub_address validator_address validators (ok (some delegation)) =
    elim (ltb delegation.can_redelegate.amount delegation.amount.amount) [
      | true ↦ ok []
      | false ↦ redelegation_msgs hub_address validator_address validators delegation
    ]

unfoldable pub remove_validator : Chain → MessageInfo → String → Store → Result (Response × Store)
unfolding removal_msgs query_validators
remove_validator chain info validator_address s = do
  config ← ok_or s.config not_found
  fail_if (not (str_eq info.sender config.owner)) (generic_err "unauthorized")
  let s' = record s { registry = remove string_key validator_address s.registry }
  unsorted ← query_validators chain s'
  fail_if (is_empty unsorted) (generic_err "Cannot remove the last validator in the registry")
  let validators = sort_by smaller_first unsorted
  let query = chain.query_delegation config.hub_contract validator_address
  messages ← removal_msgs config.hub_contract validator_address validators query
  ok (record { messages = messages; attributes = [] }, s')

unfoldable pub execute : Chain → MessageInfo → ExecuteMsg → Store → Result (Response × Store)
execute chain info (ExecuteMsg.add_validator validator) = add_validator info validator
execute chain info (ExecuteMsg.remove_validator address) = remove_validator chain info address
execute chain info (ExecuteMsg.update_config owner hub_contract) =
    execute_update_config chain info owner hub_contract

unfoldable pub query : Chain → QueryMsg → Store → Result Answer
unfolding query_validators
query chain QueryMsg.get_validators_for_delegation s = do
  validators ← query_validators chain s
  ok (Answer.validators (sort_by smaller_first validators))
query chain QueryMsg.config s = do config ← ok_or s.config not_found; ok (Answer.config config)

-- `migrate` keeps the storage.
unfoldable pub migrate : Store → Result (Response × Store)
migrate s = ok (no_messages, s)
