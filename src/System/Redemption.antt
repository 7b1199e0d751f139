-- ===== src/System/Redemption.antt =====
-- The burn that the hub asks the token for when a user unbonds.
use jullia_lp_staking.Base.{
  ◌≡◌, String, List, [], ◌∷◌, ◌++◌, some, arith, ok, str_eq_iff, Result-cases, inl, inr,
}
use jullia_lp_staking.Cosmwasm.Decimal.{Decimals}
use jullia_lp_staking.Cosmwasm.Types.{Env, MessageInfo, Cw20ReceiveMsg}
use jullia_lp_staking.Basset.{Config, Parameters, CurrentBatch, ExecuteMsg, is_paused}
use jullia_lp_staking.Messages.{CosmosMsg, Payload, Response}
use jullia_lp_staking.Token.Msg.{Cw20Types, TokenExecuteMsg, Cw20Base}
use jullia_lp_staking.Token.Contract
use jullia_lp_staking.Token.Contract.{TokenStore, check_slashing_msg, dispatch, execute_burn}
use jullia_lp_staking.Hub.Store.{Store, Chain}
use jullia_lp_staking.Hub.Queue.Unbonding.{execute_unbond_statom_steps}
use jullia_lp_staking.Hub.Unbond.{execute_unbond_statom}
use jullia_lp_staking.Hub.Frames.{execute_unbond_statom-store}
use jullia_lp_staking.Hub.Contract.{execute, receive_cw20, receive_hook}

module _ ⦃num : Decimals⦄ where
  -- Tokens that the hub takes come from the token contract that it has registered.
  receive_cw20-execute_unbond_statom :
      (chain : Chain) (env : Env) (info : MessageInfo) (m : Cw20ReceiveMsg) (p : Parameters)
      (s s' : Store) (r : Response) (c : Config) (token : String)
      → s.parameters ≡ some p
      → s.config ≡ some c
      → c.statom_token_contract ≡ some token
      → execute chain env info (ExecuteMsg.receive m) s ≡ ok (r, s')
      → (chain.addr_validate info.sender ≡ ok token)
        × (execute_unbond_statom chain env m.amount m.sender s ≡ ok (r, s'))
  unfolding execute receive_cw20 receive_hook
  receive_cw20-execute_unbond_statom chain env info m p s s' r c token params config registered h =
      elim (Result-cases (chain.addr_validate info.sender)) [
        | inr (e, fails) ↦ absurd (ground arith)
        | inl (a, valid) ↦ (ground (arith, str_eq_iff a token), ground (arith, str_eq_iff a token))
      ]

module _ (T : Cw20Types) (cw20 : Cw20Base T) ⦃num : Decimals⦄ where
  -- When a user's tokens reach the hub and it unbonds them, they came from the token contract that the hub
  -- has registered, and the last message goes to this contract and asks it to burn just this amount; and a
  -- token that knows this hub, hears its parameters and whose ledger can burn the amount for the hub
  -- executes the message, and asks the hub for exactly one check for slashing.
  pub receive-execute_burn :
      (chain : Chain) (env : Env) (info : MessageInfo) (m : Cw20ReceiveMsg) (p : Parameters)
      (s s' : Store) (r : Response) (tchain : Contract.Chain) (tenv : Env) (t : TokenStore T cw20)
      (lr : Response) (l : T.Ledger) (b : CurrentBatch) (c : Config) (token : String)
      → s.parameters ≡ some p
      → s.current_batch ≡ some b
      → s.config ≡ some c
      → c.statom_token_contract ≡ some token
      → execute chain env info (ExecuteMsg.receive m) s ≡ ok (r, s')
      → t.hub_contract ≡ some env.contract_address
      → tchain.query_hub_parameters env.contract_address ≡ ok p
      → cw20.burn tenv (record { sender = env.contract_address; funds = [] }) m.amount t.ledger
        ≡ ok (lr, l)
      → (chain.addr_validate info.sender ≡ ok token)
        × (before : List CosmosMsg) × (r.messages
            ≡ before ++ CosmosMsg.wasm_execute token (Payload.burn m.amount) [] ∷ [])
        × (Contract.execute T cw20 tchain tenv
              (record { sender = env.contract_address; funds = [] })
              (TokenExecuteMsg.burn m.amount)
              t
            ≡ ok (
              record {
                messages = check_slashing_msg env.contract_address ∷ [];
                attributes = lr.attributes;
              },
              record t { ledger = l },
            ))
  unfolding execute receive_cw20 receive_hook Contract.execute dispatch execute_burn is_paused
  receive-execute_burn chain env info m p s s' r tchain tenv t lr l b c token params batch config
        registered h known heard burnt =
      let (from, unbonds) =
        receive_cw20-execute_unbond_statom chain env info m p s s' r c token params config
          registered h in
      let q = execute_unbond_statom_steps chain env m.amount m.sender s s' r b batch unbonds in
      let frame = execute_unbond_statom-store chain env m.amount m.sender s s' r unbonds in
      let here : q.token ≡ token = ground (arith, frame, q.has_config, q.registered) in
      (
        from,
        q.undelegation.messages,
        rw here at q.messages,
        ground (arith, str_eq_iff env.contract_address env.contract_address),
      )
