-- ===== src/Tests/Registry.antt =====
-- The registry: a validator is added and removed, and its delegation moves to the two that are left.
use mathlib.Core.List.{Perm}
use jullia_lp_staking.Registry.Listing.{ascending, query-ascending}
use jullia_lp_staking.Base.{ℕ, ◌≡◌, ◌≢◌, refl, String, true, false, List, [], ◌∷◌, some, ok}
use jullia_lp_staking.Base.Keys.{string_key}
use jullia_lp_staking.Base.Maps.{lookup, insert, remove, place}
use jullia_lp_staking.Base.Sort.{sort_by, insert_sorted}
use jullia_lp_staking.Cosmwasm.Uint.{add_u128, sub_or_panic, checked_sub}
use jullia_lp_staking.Cosmwasm.Types.{FullDelegation, MessageInfo}
use jullia_lp_staking.Basset.{ExecuteMsg, BondType, update_statom_exchange_rate}
use jullia_lp_staking.Messages.{Response, CosmosMsg, Payload}
use jullia_lp_staking.Registry.Common.{
  ValidatorResponse, sum_delegated, delegate_loop, calculate_delegations, nonzero_shares,
}
use jullia_lp_staking.Registry.Msg
use jullia_lp_staking.Registry.Msg.{RegistryConfig, Validator}
use jullia_lp_staking.Registry.Contract
use jullia_lp_staking.Registry.Contract.{
  Store, query_validators, delegations_by_validator, removal_msgs, redelegation_msgs,
  remove_validator, add_validator,
}
use jullia_lp_staking.Registry.Entries.{keyed, execute-keyed}
use jullia_lp_staking.Registry.Removal.{has_address, RemovalMsgs, remove_validator-Removed}
use jullia_lp_staking.Hub.Contract.{execute as hub_execute}
use jullia_lp_staking.System.Removal.{redelegated, remove_validator-execute}
use jullia_lp_staking.Hub.Store
use jullia_lp_staking.Hub.Store.{Chain}
use jullia_lp_staking.Hub.Bond.{find_payment, mint_amount, bonded_state, execute_bond}
use jullia_lp_staking.Hub.Rates.{decimal_division}
use jullia_lp_staking.Hub.Slashing.{
  slashing, query_actual_state, actual_total_bonded, query_total_statom_issued, slashed_state,
}
use jullia_lp_staking.Hub.Delegations.{delegated_coins}
use jullia_lp_staking.System.Bonding.{EachDelegation, Spread, query-execute_bond}
use jullia_lp_staking.Tests.{
  fixed_point, outcome, atoms, chain, env, owner, parameters, config, store,
}

abbrev no_response : Response
no_response = record { messages = []; attributes = [] }

abbrev entry : String → String × Validator
entry a = (a, record { address = a })

abbrev registry_config : RegistryConfig
registry_config = record { owner = "owner"; hub_contract = "hub" }

abbrev registry : Store
registry = record {
  config = some registry_config;
  registry = entry "v1" ∷ entry "v2" ∷ entry "v3" ∷ [];
}

abbrev delegated : String → FullDelegation
delegated v = record { amount = atoms 90; can_redelegate = atoms 90 }

abbrev registry_chain : Contract.Chain
registry_chain = record {
  addr_validate = ok;
  query_all_delegations = λ delegator. ok (
      record { validator = "v1"; amount = atoms 50 }
      ∷ record { validator = "v2"; amount = atoms 90 }
      ∷ []);
  query_delegation = λ delegator validator. ok (some (delegated validator));
}

abbrev added : Response × Store
added =
    outcome (no_response, registry)
      (Contract.execute registry_chain owner
        (Msg.ExecuteMsg.add_validator (record { address = "v4" })) registry)

execute-keyed_example : keyed added.1.registry ≡ true
unfolding Contract.execute add_validator insert remove place
execute-keyed_example =
    execute-keyed registry_chain owner (Msg.ExecuteMsg.add_validator (record { address = "v4" }))
      registry added.1 added.0 refl refl

abbrev removed : Response × Store
removed = outcome (no_response, registry) (remove_validator registry_chain owner "v2" registry)

removed_lem : remove_validator registry_chain owner "v2" registry ≡ ok removed
unfolding remove_validator query_validators delegations_by_validator removal_msgs redelegation_msgs
    remove insert place lookup sort_by insert_sorted calculate_delegations sum_delegated
    delegate_loop nonzero_shares add_u128 sub_or_panic checked_sub
removed_lem = refl

remove_validator-Removed_example :
    (owner.sender ≡ registry_config.owner)
    × (removed.1 ≡ record registry { registry = remove string_key "v2" registry.registry })
    × ((vs : List ValidatorResponse) × (query_validators registry_chain removed.1 ≡ ok vs)
        × (vs ≢ [])
        × (has_address "v2" vs ≡ false)
        × RemovalMsgs "hub" "v2" vs (ok (some (delegated "v2"))) removed.0.messages)
remove_validator-Removed_example =
    remove_validator-Removed registry_chain owner "v2" registry_config registry removed.1 removed.0
      refl refl removed_lem

abbrev first_of : List CosmosMsg → CosmosMsg
first_of [] = CosmosMsg.set_withdraw_address ""
first_of (m ∷ ms) = m

abbrev rest_of : List CosmosMsg → List CosmosMsg
rest_of [] = []
rest_of (m ∷ ms) = ms

removed_sends : removed.0.messages ≡ first_of removed.0.messages ∷ rest_of removed.0.messages
unfolding remove_validator query_validators delegations_by_validator removal_msgs redelegation_msgs
    remove insert place lookup sort_by insert_sorted calculate_delegations sum_delegated
    delegate_loop nonzero_shares add_u128 sub_or_panic checked_sub
removed_sends = refl

remove_validator-execute_example :
    (d : FullDelegation) × (msg : ExecuteMsg) × (vs : List ValidatorResponse) × (r : Response)
    × (registry_chain.query_delegation "hub" "v2" ≡ ok (some d))
    × (first_of removed.0.messages ≡ CosmosMsg.wasm_execute "hub" (Payload.to_hub msg) [])
    × (query_validators registry_chain removed.1 ≡ ok vs)
    × (has_address "v2" vs ≡ false)
    × (hub_execute chain env (record { sender = "registry"; funds = [] }) msg store ≡ ok (r, store))
    × (redelegated "v2" vs r.messages ≡ d.amount.amount)
remove_validator-execute_example =
    remove_validator-execute registry_chain owner "v2" registry_config registry removed.1 removed.0
      (first_of removed.0.messages) (rest_of removed.0.messages) chain env config store "registry"
      refl refl removed_lem removed_sends refl refl

abbrev delegated_amount : String → ℕ → ValidatorResponse
delegated_amount a n = record { total_delegated = n; address = a }

abbrev smallest_first : List ValidatorResponse
smallest_first = delegated_amount "v3" 0 ∷ delegated_amount "v1" 50 ∷ delegated_amount "v2" 90 ∷ []

query-ascending_example :
    (ascending smallest_first ≡ true)
    × Perm smallest_first
        (delegated_amount "v1" 50 ∷ delegated_amount "v2" 90 ∷ delegated_amount "v3" 0 ∷ [])
unfolding Contract.query query_validators delegations_by_validator insert remove place lookup
    sort_by insert_sorted
query-ascending_example =
    query-ascending registry_chain registry registry_config
      (record { validator = "v1"; amount = atoms 50 }
        ∷ record { validator = "v2"; amount = atoms 90 }
        ∷ [])
      smallest_first refl refl refl refl

-- The hub asks this registry where to delegate 100 more coins.
abbrev listing_chain : Chain
listing_chain = record chain { query_validators = λ address. ok smallest_first }

abbrev bonder : MessageInfo
bonder = record { sender = "alice"; funds = atoms 100 ∷ [] }

abbrev spread : Response × Store.Store
spread = outcome (no_response, store) (execute_bond listing_chain env bonder BondType.st_atom store)

spread_lem : execute_bond listing_chain env bonder BondType.st_atom store ≡ ok spread
unfolding execute_bond find_payment slashing query_actual_state actual_total_bonded
    query_total_statom_issued slashed_state update_statom_exchange_rate add_u128 mint_amount
    decimal_division bonded_state calculate_delegations sum_delegated delegate_loop sub_or_panic
    checked_sub nonzero_shares
spread_lem = refl

query-execute_bond_example :
    (delegated_coins spread.0.messages ≡ 100)
    × EachDelegation
        (Spread registry.registry
          (record { validator = "v1"; amount = atoms 50 }
            ∷ record { validator = "v2"; amount = atoms 90 }
            ∷ [])
          81)
        spread.0.messages
unfolding Contract.query query_validators delegations_by_validator insert remove place lookup
    sort_by insert_sorted find_payment
query-execute_bond_example =
    query-execute_bond registry_chain registry registry_config
      (record { validator = "v1"; amount = atoms 50 }
        ∷ record { validator = "v2"; amount = atoms 90 }
        ∷ [])
      smallest_first listing_chain env bonder parameters config "registry" (atoms 100) store
      spread.1 spread.0 refl refl refl refl refl refl refl refl refl spread_lem
