-- ===== src/Dispatcher/Contract.antt =====
-- contracts/lido_cosmos_rewards_dispatcher/src/contract.rs
use jullia_lp_staking.Base.{
  ℕ, String, not, List, [], ◌∷◌, ◌++◌, Option, none, some, Result, ok, generic_err, not_found,
  panic, err, ok_or, fail_if, ◌>>=◌, ◌>>◌, ◌==◌, str_eq, if◌then◌else◌,
}
use jullia_lp_staking.Cosmwasm.Uint.{checked_sub}
use jullia_lp_staking.Cosmwasm.Decimal.{Decimals}
use jullia_lp_staking.Cosmwasm.Types.{Coin, Env, MessageInfo, Attribute, AttrValue}
use jullia_lp_staking.Basset
use jullia_lp_staking.Basset.{Parameters, is_paused}
use jullia_lp_staking.Dispatcher.Msg.{DispatcherConfig, InstantiateMsg, QueryMsg}
use jullia_lp_staking.Messages.{DispatcherExecuteMsg, CosmosMsg, Payload, Response}

-- The one item that the contract stores.
abbrev pub Store : Type 0
Store = Option DispatcherConfig

pub record Chain : Type 0 where
  pub addr_validate : String → Result String
  -- the parameters that the hub at an address returns
  pub query_hub_parameters : String → Result Parameters
  -- address, denom
  pub query_balance : String → String → Result Coin

abbrev pub no_messages : Response
no_messages = record { messages = []; attributes = [] }

unfoldable pub instantiate :
    Chain → MessageInfo → InstantiateMsg → Store → Result (Response × Store)
instantiate chain info msg s = do
  hub_contract ← chain.addr_validate msg.hub_contract
  lido_fee_address ← chain.addr_validate msg.lido_fee_address
  ok (
    no_messages,
    some (record {
      owner = info.sender;
      hub_contract = hub_contract;
      statom_reward_denom = msg.statom_reward_denom;
      lido_fee_address = lido_fee_address;
      lido_fee_rate = msg.lido_fee_rate;
    }),
  )

-- `if let Some(x) = item { addr_validate …; CONFIG.update … }`
abbrev pub update_address :
    Chain
    → Option String
    → (String → DispatcherConfig → DispatcherConfig)
    → DispatcherConfig
    → Result DispatcherConfig
update_address chain none f c = ok c
update_address chain (some x) f c = chain.addr_validate x >>= λ raw. ok (f raw c)

abbrev pub update_rate : Option ℕ → DispatcherConfig → DispatcherConfig
update_rate none c = c
update_rate (some r) c = record c { lido_fee_rate = r }

abbrev pub forbid : Option String → Result (Unit {0})
forbid none = ok tt
forbid (some _) = err (generic_err "updating statom reward denom is forbidden")

-- owner, hub contract, reward denom, fee address, fee rate
unfoldable pub execute_update_config :
    Chain
    → MessageInfo
    → Option String
    → Option String
    → Option String
    → Option String
    → Option ℕ
    → Store
    → Result (Response × Store)
execute_update_config chain info owner hub_contract denom fee_address fee_rate s = do
  conf ← ok_or s not_found
  sender_raw ← chain.addr_validate info.sender
  fail_if (not (str_eq sender_raw conf.owner)) (generic_err "unauthorized")
  c₁ ← update_address chain owner (λ raw c. record c { owner = raw }) conf
  c₂ ← update_address chain hub_contract (λ raw c. record c { hub_contract = raw }) c₁
  forbid denom
  let c₃ = update_rate fee_rate c₂
  c₄ ← update_address chain fee_address (λ raw c. record c { lido_fee_address = raw }) c₃
  ok (no_messages, some c₄)

-- The parts of the response that stand under an `if`.
abbrev pub fee_coin : DispatcherConfig → ℕ → Coin
fee_coin config fee = record { denom = config.statom_reward_denom; amount = fee }

abbrev pub fees_attrs : DispatcherConfig → ℕ → List Attribute
fees_attrs config fee =
    if fee == 0
    then []
    else record { key = "lido_statom_fee"; value = AttrValue.coin (fee_coin config fee) } ∷ []

abbrev pub bond_msgs : DispatcherConfig → Coin → List CosmosMsg
bond_msgs config rewards =
    if rewards.amount == 0
    then []
    else CosmosMsg.wasm_execute config.hub_contract (Payload.to_hub Basset.ExecuteMsg.bond_rewards)
        (rewards ∷ [])
      ∷ []

abbrev pub fee_msgs : DispatcherConfig → ℕ → List CosmosMsg
fee_msgs config fee =
    if fee == 0
    then []
    else CosmosMsg.bank_send config.lido_fee_address (fee_coin config fee ∷ []) ∷ []

module _ ⦃num : Decimals⦄ where
  unfoldable pub compute_lido_fee : ℕ → ℕ → Result ℕ
  compute_lido_fee amount fee_rate = num.mul amount fee_rate

  unfoldable pub execute_dispatch_rewards :
      Chain → Env → MessageInfo → Store → Result (Response × Store)
  execute_dispatch_rewards chain env info s = do
    config ← ok_or s not_found
    hub_paused ← is_paused chain.query_hub_parameters config.hub_contract
    fail_if hub_paused (generic_err "the contract is temporarily paused")
    fail_if (not (str_eq info.sender config.hub_contract)) (generic_err "unauthorized")
    statom_rewards ← chain.query_balance env.contract_address config.statom_reward_denom
    lido_statom_fee_amount ← compute_lido_fee statom_rewards.amount config.lido_fee_rate
    amount ← checked_sub statom_rewards.amount lido_statom_fee_amount
    let left = record statom_rewards { amount = amount }
    ok (
      record {
        messages = bond_msgs config left ++ fee_msgs config lido_statom_fee_amount;
        attributes =
            (record { key = "action"; value = AttrValue.text "claim_reward" }
              ∷ record { key = "statom_rewards"; value = AttrValue.coin left }
              ∷ [])
            ++ fees_attrs config lido_statom_fee_amount;
      },
      s,
    )

  unfoldable pub execute :
      Chain → Env → MessageInfo → DispatcherExecuteMsg → Store → Result (Response × Store)
  execute chain env info DispatcherExecuteMsg.dispatch_rewards =
      execute_dispatch_rewards chain env info
  execute chain env info
        (DispatcherExecuteMsg.update_config owner hub_contract denom fee_address fee_rate) =
      execute_update_config chain info owner hub_contract denom fee_address fee_rate

-- `GetBufferedRewards` is `unimplemented!()`.
unfoldable pub query : QueryMsg → Store → Result DispatcherConfig
query QueryMsg.config s = ok_or s not_found
query QueryMsg.get_buffered_rewards s = err panic

-- `migrate` keeps the storage.
unfoldable pub migrate : Store → Result (Response × Store)
migrate s = ok (no_messages, s)
