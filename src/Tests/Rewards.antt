-- ===== src/Tests/Rewards.antt =====
-- The dispatch of rewards at a concrete input.
use jullia_lp_staking.Base.{◌+◌, ◌*◌, ◌/◌, ◌≡◌, refl, [], some, ok, arith, str_eq_iff}
use jullia_lp_staking.Cosmwasm.Uint.{checked_sub}
use jullia_lp_staking.Cosmwasm.Decimal.{decimal_one}
use jullia_lp_staking.Cosmwasm.Types.{MessageInfo}
use jullia_lp_staking.Basset.{is_paused}
use jullia_lp_staking.Messages.{Response}
use jullia_lp_staking.Dispatcher.Msg.{DispatcherConfig}
use jullia_lp_staking.Dispatcher.Contract
use jullia_lp_staking.Dispatcher.Contract.{compute_lido_fee, execute_dispatch_rewards}
use jullia_lp_staking.Dispatcher.Fees.{sent_to, execute_dispatch_rewards_splits}
use jullia_lp_staking.Tests.{fixed_point, outcome, atoms, env, parameters}

abbrev pub hub : MessageInfo
hub = record { sender = "hub"; funds = [] }

-- 5 % of the rewards
abbrev pub fee_config : DispatcherConfig
fee_config = record {
  owner = "owner";
  hub_contract = "hub";
  statom_reward_denom = "uatom";
  lido_fee_address = "fees";
  lido_fee_rate = 50_000_000_000_000_000;
}

abbrev pub rewards_chain : Contract.Chain
rewards_chain = record {
  addr_validate = ok;
  query_hub_parameters = λ contract. ok parameters;
  query_balance = λ contract denom. ok (atoms 1_010);
}

abbrev pub dispatched : Response × Contract.Store
dispatched =
    outcome (record { messages = []; attributes = [] }, some fee_config)
      (execute_dispatch_rewards rewards_chain env hub (some fee_config))

dispatched_lem : execute_dispatch_rewards rewards_chain env hub (some fee_config) ≡ ok dispatched
unfolding execute_dispatch_rewards is_paused compute_lido_fee checked_sub
dispatched_lem = refl

execute_dispatch_rewards_splits_example :
    (hub.sender ≡ fee_config.hub_contract)
    × (dispatched.1 ≡ some fee_config)
    × (sent_to "fees" dispatched.0.messages ≡ 1_010 * 50_000_000_000_000_000 / decimal_one)
    × (sent_to "hub" dispatched.0.messages + sent_to "fees" dispatched.0.messages ≡ 1_010)
execute_dispatch_rewards_splits_example =
    execute_dispatch_rewards_splits rewards_chain env hub fee_config (atoms 1_010) dispatched.1
      dispatched.0 refl (λ same. ground (arith, str_eq_iff "hub" "fees")) dispatched_lem
