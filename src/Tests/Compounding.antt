-- ===== src/Tests/Compounding.antt =====
-- Bonds of rewards: by the dispatcher, without delegations, and at the end of a dispatch.
use jullia_lp_staking.Base.{◌+◌, ◌≤◌, ◌≡◌, ◌≢◌, refl, List, [], ◌∷◌, some, arith, ok}
use jullia_lp_staking.Cosmwasm.Uint.{add_u128, sub_or_panic, checked_sub}
use jullia_lp_staking.Cosmwasm.Types.{MessageInfo, Coin}
use jullia_lp_staking.Basset.{State, BondType, ExecuteMsg, update_statom_exchange_rate, is_paused}
use jullia_lp_staking.Messages.{Response, CosmosMsg}
use jullia_lp_staking.Registry.Common.{
  sum_delegated, delegate_loop, calculate_delegations, nonzero_shares,
}
use jullia_lp_staking.Dispatcher.Contract.{compute_lido_fee, execute_dispatch_rewards}
use jullia_lp_staking.Dispatcher.Fees.{sent_to}
use jullia_lp_staking.Hub.Store.{Store, Chain}
use jullia_lp_staking.Hub.Slashing.{
  query_total_statom_issued, actual_total_bonded, slashed_state, query_actual_state, slashing,
}
use jullia_lp_staking.Hub.Bond.{find_payment, mint_amount, bonded_state, execute_bond}
use jullia_lp_staking.Hub.Contract.{execute}
use jullia_lp_staking.Hub.Delegations.{delegated_coins}
use jullia_lp_staking.Hub.Rewards.{Compounded, execute_bond-Compounded}
use jullia_lp_staking.Hub.Rewards.Rate.{execute_bond_rewards_raises_rate}
use jullia_lp_staking.System.Rewards.{execute_dispatch_rewards-execute}
use jullia_lp_staking.Tests.{
  fixed_point, outcome, atoms, chain, env, parameters, config, current_batch, state, store,
}
use jullia_lp_staking.Tests.Rewards.{hub, fee_config, rewards_chain, dispatched}

abbrev dispatcher : MessageInfo
dispatcher = record { sender = "dispatcher"; funds = atoms 50 ∷ [] }

abbrev no_response : Response
no_response = record { messages = []; attributes = [] }

abbrev compounded : Response × Store
compounded =
    outcome (no_response, store) (execute_bond chain env dispatcher BondType.bond_rewards store)

compounded_lem : execute_bond chain env dispatcher BondType.bond_rewards store ≡ ok compounded
unfolding execute_bond find_payment slashing query_actual_state actual_total_bonded
    query_total_statom_issued slashed_state update_statom_exchange_rate add_u128 mint_amount
    bonded_state calculate_delegations sum_delegated delegate_loop sub_or_panic checked_sub
    nonzero_shares
compounded_lem = refl

execute_bond-Compounded_example :
    Compounded chain env dispatcher config current_batch (atoms 50) store compounded.1 compounded.0
unfolding find_payment
execute_bond-Compounded_example =
    execute_bond-Compounded chain env dispatcher parameters config current_batch (atoms 50) store
      compounded.1 compounded.0 refl refl refl refl compounded_lem

execute_bond_rewards_raises_rate_example :
    (checked : State) × (after : State) × (query_actual_state chain env store ≡ ok checked)
    × (compounded.1.state ≡ some after)
    × (checked.total_bond_statom_amount ≢ 0
        → checked.total_statom_issued + 20 ≢ 0
        → checked.statom_exchange_rate ≤ after.statom_exchange_rate)
unfolding find_payment
execute_bond_rewards_raises_rate_example =
    execute_bond_rewards_raises_rate chain env dispatcher parameters config current_batch state
      (record { validator = "v1"; amount = atoms 400 })
      (record { validator = "v2"; amount = atoms 500 } ∷ []) (atoms 50) store compounded.1
      compounded.0 refl refl refl refl refl (omega arith) refl compounded_lem

-- The validators have been removed and nothing is delegated: 700 tokens, of which 20 are requested.
abbrev idle_chain : Chain
idle_chain = record chain { query_all_delegations = λ delegator. ok [] }

abbrev idle : Response × Store
idle =
    outcome (no_response, store)
      (execute_bond idle_chain env dispatcher BondType.bond_rewards store)

-- The dispatcher's contract has the address "dispatcher" and 1010 coins, of which 50 are the fee.
abbrev left : List Coin
left = atoms 960 ∷ []

abbrev fee_msg : List CosmosMsg
fee_msg = CosmosMsg.bank_send "fees" (atoms 50 ∷ []) ∷ []

abbrev bonded : Response × Store
bonded =
    outcome (no_response, store)
      (execute chain env (record { sender = "dispatcher"; funds = left }) ExecuteMsg.bond_rewards
        store)

bonded_lem :
    execute chain env (record { sender = "dispatcher"; funds = left }) ExecuteMsg.bond_rewards store
    ≡ ok bonded
unfolding execute execute_bond find_payment slashing query_actual_state actual_total_bonded
    query_total_statom_issued slashed_state update_statom_exchange_rate add_u128 mint_amount
    bonded_state calculate_delegations sum_delegated delegate_loop sub_or_panic checked_sub
    nonzero_shares
bonded_lem = refl

execute_dispatch_rewards-execute_example :
    (ExecuteMsg.bond_rewards ≡ ExecuteMsg.bond_rewards)
    × (fee_config.hub_contract ≡ fee_config.hub_contract)
    × (config.reward_dispatcher_contract ≡ some "dispatcher")
    × (delegated_coins bonded.0.messages + sent_to "fees" fee_msg ≡ 1_010)
unfolding execute_dispatch_rewards is_paused compute_lido_fee checked_sub
execute_dispatch_rewards-execute_example =
    execute_dispatch_rewards-execute rewards_chain
      (record { contract_address = "dispatcher"; block_seconds = 100_000 }) hub fee_config
      (atoms 1_010) dispatched.1 dispatched.0 "hub" ExecuteMsg.bond_rewards left fee_msg chain env
      parameters config current_batch store bonded.1 bonded.0 refl refl refl refl refl refl refl
      bonded_lem
