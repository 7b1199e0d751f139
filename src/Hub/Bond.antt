-- ===== src/Hub/Bond.antt =====
-- contracts/lido_cosmos_hub/src/bond.rs
use Prim.Native.String
use jullia_lp_staking.Base.{
  ℕ, String, true, false, not, ◌&&◌, List, [], ◌∷◌, ◌++◌, Option, none, some, Bool, Result, ok,
  generic_err, ok_or, ltb, length, str_eq, ◌>>=◌ as bind, if◌then◌else◌,
}
use jullia_lp_staking.Cosmwasm.Uint.{add_u128}
use jullia_lp_staking.Cosmwasm.Decimal.{Decimals}
use jullia_lp_staking.Cosmwasm.Types.{Coin, Env, MessageInfo, AttrValue}
use jullia_lp_staking.Basset.{State, BondType, update_statom_exchange_rate, paused}
use jullia_lp_staking.Messages.{CosmosMsg, Payload, Response}
use jullia_lp_staking.Registry.Common.{calculate_delegations, nonzero_shares}
use jullia_lp_staking.Hub.Store.{
  Store, Chain, Tx, ◌>>=◌, ◌>>◌, pure, fail_if, lift, load, save_state,
}
use jullia_lp_staking.Hub.Rates.{decimal_division}
use jullia_lp_staking.Hub.Slashing.{slashing, is_empty}

abbrev pub is_bond_rewards : BondType → Bool
is_bond_rewards BondType.st_atom = false
is_bond_rewards BondType.bond_rewards = true

-- `info.funds.iter().find(…)`
unfoldable pub find_payment : String → List Coin → Option Coin
find_payment coin_denom [] = none
find_payment coin_denom (x ∷ xs) =
    let rest = find_payment coin_denom xs in
    if str_eq x.denom coin_denom && ltb 0 x.amount then some x else rest

abbrev pub delegate_msg : String → String → ℕ → CosmosMsg
delegate_msg denom validator amount =
    CosmosMsg.delegate validator (record { denom = denom; amount = amount })

module _ ⦃num : Decimals⦄ where
  unfoldable pub mint_amount : BondType → ℕ → State → Result ℕ
  mint_amount BondType.st_atom payment state = decimal_division payment state.statom_exchange_rate
  mint_amount BondType.bond_rewards payment state = ok 0

  -- The closure of `STATE.update`.
  unfoldable pub bonded_state : BondType → ℕ → ℕ → ℕ → State → Result State
  bonded_state bond_type payment total_supply requested_with_fee prev_state =
      bind (add_u128 prev_state.total_bond_statom_amount payment) λ total.
        let st = record prev_state { total_bond_statom_amount = total } in
        if is_bond_rewards bond_type
        then update_statom_exchange_rate st total_supply requested_with_fee
        else ok st

  unfoldable pub execute_bond : Chain → Env → MessageInfo → BondType → Tx Response
  execute_bond chain env info bond_type = do
    params ← load Store.parameters
    fail_if (paused params) (generic_err "the contract is temporarily paused")
    let coin_denom = params.underlying_coin_denom
    config ← load Store.config
    reward_dispatcher_addr ← lift (
        ok_or config.reward_dispatcher_contract
          (generic_err "the reward dispatcher contract must have been registered"))
    fail_if (is_bond_rewards bond_type && not (str_eq info.sender reward_dispatcher_addr))
        (generic_err "unauthorized")
    current_batch ← load Store.current_batch
    let requested_with_fee = current_batch.requested_statom
    fail_if (ltb 1 (length info.funds))
        (generic_err "More than one coin is sent; only one asset is supported")
    payment ← lift (
        ok_or (find_payment coin_denom info.funds)
          (generic_err (String.◌++◌ "No " (String.◌++◌ coin_denom " assets are provided to bond"))))
    state ← slashing chain env
    minted ← lift (mint_amount bond_type payment.amount state)
    total_supply ← lift (add_u128 state.total_statom_issued minted)
    prev_state ← load Store.state
    state' ← lift (bonded_state bond_type payment.amount total_supply requested_with_fee prev_state)
    save_state state'
    validators_registry_contract ← lift (
        ok_or config.validators_registry_contract
          (generic_err "Validators registry contract address is empty"))
    validators ← lift (chain.query_validators validators_registry_contract)
    fail_if (is_empty validators) (generic_err "Validators registry is empty")
    delegations ← lift (calculate_delegations payment.amount validators)
    external_call_msgs ← lift (nonzero_shares (delegate_msg payment.denom) validators delegations)
    if is_bond_rewards bond_type
        then pure (record {
          messages = external_call_msgs;
          attributes =
              record { key = "action"; value = AttrValue.text "bond_rewards" }
              ∷ record { key = "from"; value = AttrValue.text info.sender }
              ∷ record { key = "bonded"; value = AttrValue.uint payment.amount }
              ∷ [];
        })
        else do
          token_address ← lift (
              ok_or config.statom_token_contract
                (generic_err "the token contract must have been registered"))
          pure (record {
            messages =
                external_call_msgs
                ++ CosmosMsg.wasm_execute token_address (Payload.mint info.sender minted) [] ∷ [];
            attributes =
                record { key = "action"; value = AttrValue.text "mint" }
                ∷ record { key = "from"; value = AttrValue.text info.sender }
                ∷ record { key = "bonded"; value = AttrValue.uint payment.amount }
                ∷ record { key = "minted"; value = AttrValue.uint minted }
                ∷ [];
          })
