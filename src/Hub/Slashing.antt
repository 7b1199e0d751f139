-- ===== src/Hub/Slashing.antt =====
-- The check of the bonded amount against the delegations
-- (contracts/lido_cosmos_hub/src/contract.rs).
use jullia_lp_staking.Base.{
  ℕ, String, true, false, List, [], ◌∷◌, Bool, Result, ok, generic_err, not_found, ok_or, ltb, ◌==◌,
  str_eq, if◌then◌else◌, ◌>>=◌ as bind,
}
use jullia_lp_staking.Cosmwasm.Uint.{add_u128}
use jullia_lp_staking.Cosmwasm.Decimal.{Decimals}
use jullia_lp_staking.Cosmwasm.Types.{Env, Delegation, AttrValue}
use jullia_lp_staking.Basset.{State, update_statom_exchange_rate, paused}
use jullia_lp_staking.Messages.{Response}
use jullia_lp_staking.Hub.Store.{
  Store, Chain, Tx, ◌>>=◌, ◌>>◌, pure, fail_if, reads, load, save_state,
}

unfoldable pub query_total_statom_issued : Chain → Store → Result ℕ
query_total_statom_issued chain s = bind (ok_or s.config not_found) λ config.
    bind
      (ok_or config.statom_token_contract (generic_err "token contract must have been registered"))
      chain.query_total_supply

-- The loop that adds up the delegations in the bonded denom.
unfoldable pub actual_total_bonded : String → List Delegation → ℕ → Result ℕ
actual_total_bonded coin_denom [] acc = ok acc
actual_total_bonded coin_denom (d ∷ ds) acc =
    bind (if str_eq d.amount.denom coin_denom then add_u128 acc d.amount.amount else ok acc)
      (actual_total_bonded coin_denom ds)

abbrev pub is_empty {ℓ} : {A : Type ℓ} → List A → Bool
is_empty [] = true
is_empty (x ∷ xs) = false

module _ ⦃num : Decimals⦄ where
  -- The last part of `query_actual_state`, with the supply known.
  unfoldable pub slashed_state : State → ℕ → ℕ → Result State
  slashed_state state actual requested =
      let st =
        if ltb actual state.total_bond_statom_amount
        then record state { total_bond_statom_amount = actual }
        else state in
      update_statom_exchange_rate st st.total_statom_issued requested

  unfoldable pub query_actual_state : Chain → Env → Store → Result State
  query_actual_state chain env s = bind (ok_or s.state not_found) λ state.
      bind (chain.query_all_delegations env.contract_address) λ delegations.
        if is_empty delegations
        then ok state
        else (bind (ok_or s.parameters not_found) λ params.
            bind (actual_total_bonded params.underlying_coin_denom delegations 0) λ actual.
              if state.total_bond_statom_amount == 0
              then ok state
              else (bind (query_total_statom_issued chain s) λ issued.
                  bind (ok_or s.current_batch not_found) λ current_batch.
                    slashed_state (record state { total_statom_issued = issued }) actual
                      current_batch.requested_statom))

  unfoldable pub slashing : Chain → Env → Tx State
  slashing chain env = do state ← reads (query_actual_state chain env); save_state state; pure state

  unfoldable pub execute_slashing : Chain → Env → Tx Response
  execute_slashing chain env = do
    params ← load Store.parameters
    fail_if (paused params) (generic_err "the contract is temporarily paused")
    state ← slashing chain env
    pure (record {
      messages = [];
      attributes =
          record { key = "action"; value = AttrValue.text "check_slashing" }
          ∷ record {
            key = "new_statom_exchange_rate";
            value = AttrValue.decimal state.statom_exchange_rate;
          }
          ∷ [];
    })
