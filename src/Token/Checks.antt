-- ===== src/Token/Checks.antt =====
-- What the token adds to the ledger: the pause of the hub, and the checks for slashing at a burn.
use jullia_lp_staking.Base.{
  ◌≡◌, ◌≢◌, String, Bool, true, false, ◌&&◌, List, [], ◌∷◌, some, Option-cases, arith, ok,
  Result-cases, inl, inr, str_eq, str_eq_iff,
}
use jullia_lp_staking.Cosmwasm.Types.{Env, MessageInfo}
use jullia_lp_staking.Basset
use jullia_lp_staking.Basset.{is_paused}
use jullia_lp_staking.Messages.{CosmosMsg, Payload, Response}
use jullia_lp_staking.Token.Msg.{Cw20Types, TokenExecuteMsg, Cw20Base}
use jullia_lp_staking.Token.Contract.{
  Chain, TokenStore, execute, dispatch, execute_burn, execute_burn_from, execute_transfer,
  execute_mint, execute_send, execute_transfer_from, execute_send_from, execute_update_marketing,
  execute_upload_logo,
}

-- Checks for slashing that a hub is asked for, and nothing else.
abbrev pub only_checks : String → List CosmosMsg → Bool
only_checks hub [] = true
only_checks hub
      (CosmosMsg.wasm_execute a (Payload.to_hub Basset.ExecuteMsg.check_slashing) [] ∷ ms) =
    str_eq a hub && only_checks hub ms
only_checks hub (m ∷ ms) = false

module _ (T : Cw20Types) (cw20 : Cw20Base T) where
  abbrev pub is_burn : TokenExecuteMsg T → Bool
  is_burn (TokenExecuteMsg.burn amount) = true
  is_burn (TokenExecuteMsg.burn_from owner amount) = true
  is_burn _ = false

  dispatch-checks :
      (env : Env) (info : MessageInfo) (msg : TokenExecuteMsg T) (s s' : TokenStore T cw20)
      (r : Response) (hub : String)
      → s.hub_contract ≡ some hub
      → dispatch T cw20 env info msg s ≡ ok (r, s')
      → (s'.hub_contract ≡ some hub)
        × (is_burn msg ≡ true → (r.messages ≢ []) × (only_checks hub r.messages ≡ true))
  unfolding dispatch execute_burn execute_burn_from execute_transfer execute_mint execute_send
      execute_transfer_from execute_send_from execute_update_marketing execute_upload_logo
  dispatch-checks env info (TokenExecuteMsg.burn amount) s s' r hub registered h =
      (ground arith, λ b. ground (arith, str_eq_iff hub hub))
  dispatch-checks env info (TokenExecuteMsg.burn_from owner amount) s s' r hub registered h =
      (ground arith, λ b. ground (arith, str_eq_iff hub hub))
  dispatch-checks env info _ s s' r hub registered h = (ground arith, λ b. absurd (cc))

  -- A message to the token succeeds only where the hub is registered and not paused; the registered hub
  -- stays; and after a burn the messages are checks for slashing to this hub, at least one.
  pub execute-checks :
      (chain : Chain) (env : Env) (info : MessageInfo) (msg : TokenExecuteMsg T)
      (s s' : TokenStore T cw20) (r : Response)
      → execute T cw20 chain env info msg s ≡ ok (r, s')
      → (hub : String) × (s.hub_contract ≡ some hub)
        × (s'.hub_contract ≡ some hub)
        × (is_paused chain.query_hub_parameters hub ≡ ok false)
        × (is_burn msg ≡ true → (r.messages ≢ []) × (only_checks hub r.messages ≡ true))
  unfolding execute
  execute-checks chain env info msg s s' r h = elim (Option-cases s.hub_contract) [
    | inl missing ↦ absurd (ground arith)
    | inr (hub, registered) ↦ elim (Result-cases (is_paused chain.query_hub_parameters hub)) [
      | inr (e, fails) ↦ absurd (ground arith)
      | inl (p, answered) ↦
          let (stays, checks) = dispatch-checks env info msg s s' r hub registered (ground arith) in
          (hub, registered, stays, ground arith, checks)
    ]
  ]
