-- ===== src/Hub/Admin.antt =====
-- The handlers of contracts/lido_cosmos_hub/src/config.rs, and those of contract.rs for the guardians,
-- the pause, redelegations and rewards.
use jullia_lp_staking.Base.{
  ℕ, String, true, false, not, ◌||◌, List, [], ◌∷◌, ◌++◌, map, Option, none, some, Bool, Result, ok,
  generic_err, ok_or, unwrap_or, str_eq, ◌>>=◌ as bind,
}
use jullia_lp_staking.Base.Maps.{lookup, insert, remove}
use jullia_lp_staking.Base.Keys.{string_key}
use jullia_lp_staking.Cosmwasm.Decimal.{decimal_one}
use jullia_lp_staking.Cosmwasm.Types.{Coin, Env, MessageInfo, Delegation, Attribute, AttrValue}
use jullia_lp_staking.Basset.{InstantiateMsg, paused}
use jullia_lp_staking.Messages.{DispatcherExecuteMsg, CosmosMsg, Payload, Response}
use jullia_lp_staking.Hub.Store.{
  Store, Chain, Tx, ◌>>=◌, ◌>>◌, pure, fail_if, lift, load, save, save_config, save_parameters,
  save_current_batch, save_state,
}

abbrev pub action : String → Attribute
action name = record { key = "action"; value = AttrValue.text name }

unfoldable pub instantiate : Env → MessageInfo → InstantiateMsg → Tx Response
instantiate env info msg = do
  save_config (record {
    creator = info.sender;
    reward_dispatcher_contract = none;
    validators_registry_contract = none;
    statom_token_contract = none;
  })
  save_state (record {
    total_statom_issued = 0;
    statom_exchange_rate = decimal_one;
    total_bond_statom_amount = 0;
    prev_hub_balance = 0;
    last_unbonded_time = env.block_seconds;
    last_processed_batch = 0;
  })
  save_parameters (record {
    epoch_period = msg.epoch_period;
    underlying_coin_denom = msg.underlying_coin_denom;
    unbonding_period = msg.unbonding_period;
    paused = some false;
  })
  save_current_batch (record { id = 1; requested_statom = 0 })
  pure (record { messages = []; attributes = [] })

unfoldable pub execute_update_params : MessageInfo → Option ℕ → Option ℕ → Tx Response
execute_update_params info epoch_period unbonding_period = do
  config ← load Store.config
  fail_if (not (str_eq info.sender config.creator)) (generic_err "unauthorized")
  params ← load Store.parameters
  save_parameters (record {
    epoch_period = unwrap_or epoch_period params.epoch_period;
    underlying_coin_denom = params.underlying_coin_denom;
    unbonding_period = unwrap_or unbonding_period params.unbonding_period;
    paused = params.paused;
  })
  pure (record { messages = []; attributes = action "update_params" ∷ [] })

-- `if let Some(x) = item { … }`
abbrev pub if_some : {A : Type 0} → Option A → (A → Tx Unit) → Tx Unit
if_some none f = pure tt
if_some (some a) f = f a

unfoldable pub update_owner : Chain → String → Tx Unit
update_owner chain o = do
  owner_raw ← lift (chain.addr_validate o)
  last_config ← load Store.config
  save_config (record last_config { creator = owner_raw })

unfoldable pub update_reward_dispatcher : Chain → String → Tx Unit
update_reward_dispatcher chain reward = do
  reward_raw ← lift (chain.addr_validate reward)
  last_config ← load Store.config
  save_config (record last_config { reward_dispatcher_contract = some reward_raw })

abbrev pub is_some {ℓ} : {A : Type ℓ} → Option A → Bool
is_some none = false
is_some (some a) = true

unfoldable pub update_token : Chain → String → Tx Unit
update_token chain token = do
  token_raw ← lift (chain.addr_validate token)
  last_config ← load Store.config
  fail_if (is_some last_config.statom_token_contract)
      (generic_err "updating stAtom token address is forbidden")
  save_config (record last_config { statom_token_contract = some token_raw })

unfoldable pub update_validators_registry : Chain → String → Tx Unit
update_validators_registry chain validators_registry = do
  validators_raw ← lift (chain.addr_validate validators_registry)
  last_config ← load Store.config
  save_config (record last_config { validators_registry_contract = some validators_raw })

abbrev pub withdraw_address_msgs : Option String → List CosmosMsg
withdraw_address_msgs none = []
withdraw_address_msgs (some reward) = CosmosMsg.set_withdraw_address reward ∷ []

-- owner, rewards dispatcher, token, validators registry
unfoldable pub execute_update_config :
    Chain
    → MessageInfo
    → Option String
    → Option String
    → Option String
    → Option String
    → Tx Response
unfolding update_owner update_reward_dispatcher update_token update_validators_registry
execute_update_config chain info owner dispatcher token registry = do
  conf ← load Store.config
  fail_if (not (str_eq info.sender conf.creator)) (generic_err "unauthorized")
  if_some owner (update_owner chain)
  if_some dispatcher (update_reward_dispatcher chain)
  if_some token (update_token chain)
  if_some registry (update_validators_registry chain)
  pure (record {
    messages = withdraw_address_msgs dispatcher;
    attributes = action "update_config" ∷ [];
  })

unfoldable pub save_guardians : List String → List (String × Bool) → List (String × Bool)
save_guardians [] m = m
save_guardians (g ∷ gs) m = save_guardians gs (insert string_key g true m)

unfoldable pub drop_guardians : List String → List (String × Bool) → List (String × Bool)
drop_guardians [] m = m
drop_guardians (g ∷ gs) m = drop_guardians gs (remove string_key g m)

unfoldable pub execute_add_guardians : MessageInfo → List String → Tx Response
execute_add_guardians info guardians = do
  config ← load Store.config
  fail_if (not (str_eq info.sender config.creator)) (generic_err "unauthorized")
  save (λ s. record s { guardians = save_guardians guardians s.guardians })
  pure (record {
    messages = [];
    attributes =
        action "add_guardians"
        ∷ map (λ g. record { key = "address"; value = AttrValue.text g }) guardians;
  })

unfoldable pub execute_remove_guardians : MessageInfo → List String → Tx Response
execute_remove_guardians info guardians = do
  config ← load Store.config
  fail_if (not (str_eq info.sender config.creator)) (generic_err "unauthorized")
  save (λ s. record s { guardians = drop_guardians guardians s.guardians })
  pure (record {
    messages = [];
    attributes =
        action "remove_guardians"
        ∷ map (λ g. record { key = "value"; value = AttrValue.text g }) guardians;
  })

-- `GUARDIANS.has`
unfoldable pub is_guardian : String → Store → Bool
is_guardian a s = is_some (lookup string_key a s.guardians)

unfoldable pub execute_pause_contracts : MessageInfo → Tx Response
execute_pause_contracts info = do
  config ← load Store.config
  guardian ← λ s. ok (is_guardian info.sender s, s)
  fail_if (not (str_eq info.sender config.creator || guardian)) (generic_err "unauthorized")
  params ← load Store.parameters
  save_parameters (record params { paused = some true })
  pure (record { messages = []; attributes = action "pause_contracts" ∷ [] })

unfoldable pub execute_unpause_contracts : MessageInfo → Tx Response
execute_unpause_contracts info = do
  config ← load Store.config
  fail_if (not (str_eq info.sender config.creator)) (generic_err "unauthorized")
  params ← load Store.parameters
  save_parameters (record params { paused = some false })
  pure (record { messages = []; attributes = action "unpause_contracts" ∷ [] })

abbrev pub redelegate_msg : String → String × Coin → CosmosMsg
redelegate_msg src_validator (dst_validator, amount) =
    CosmosMsg.redelegate src_validator dst_validator amount

unfoldable pub execute_redelegate_proxy : MessageInfo → String → List (String × Coin) → Tx Response
execute_redelegate_proxy info src_validator redelegations = do
  conf ← load Store.config
  validators_registry_contract ← lift (
      ok_or conf.validators_registry_contract
        (generic_err "the validator registry contract must have been registered"))
  fail_if (not (str_eq info.sender validators_registry_contract || str_eq info.sender conf.creator))
      (generic_err "unauthorized")
  pure (record { messages = map (redelegate_msg src_validator) redelegations; attributes = [] })

unfoldable pub withdraw_all_rewards : Chain → String → Result (List CosmosMsg)
withdraw_all_rewards chain delegator = bind (chain.query_all_delegations delegator) λ delegations.
    ok (map (λ d. CosmosMsg.withdraw_delegator_reward (Delegation.validator d)) delegations)

unfoldable pub execute_dispatch_rewards : Chain → Env → Tx Response
unfolding withdraw_all_rewards
execute_dispatch_rewards chain env = do
  params ← load Store.parameters
  fail_if (paused params) (generic_err "the contract is temporarily paused")
  config ← load Store.config
  reward_addr_dispatcher ← lift (
      ok_or config.reward_dispatcher_contract
        (generic_err "the reward contract must have been registered"))
  withdraw_msgs ← lift (withdraw_all_rewards chain env.contract_address)
  pure (record {
    messages =
        withdraw_msgs
        ++ CosmosMsg.wasm_execute reward_addr_dispatcher
            (Payload.to_dispatcher DispatcherExecuteMsg.dispatch_rewards) []
          ∷ [];
    attributes = action "dispatch_rewards" ∷ [];
  })
