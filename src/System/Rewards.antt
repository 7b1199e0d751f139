-- ===== src/System/Rewards.antt =====
-- The way of the rewards: from the dispatcher's balance to the fee address and, through the hub, to the
-- validators.
use jullia_lp_staking.Base.{
  ℕ, ◌+◌, ◌-◌, ◌≤◌, ◌≡◌, ◌++◌, String, List, [], ◌∷◌, some, arith, ok, str_eq_iff, Result-cases,
  inl, inr,
}
use jullia_lp_staking.Cosmwasm.Decimal.{Decimals}
use jullia_lp_staking.Cosmwasm.Uint.{checked_sub}
use jullia_lp_staking.Cosmwasm.Types.{Coin, Env, MessageInfo}
use jullia_lp_staking.Basset.{Config, Parameters, CurrentBatch, ExecuteMsg, is_paused}
use jullia_lp_staking.Messages.{CosmosMsg, Payload, Response}
use jullia_lp_staking.Dispatcher.Msg.{DispatcherConfig}
use jullia_lp_staking.Dispatcher.Contract
use jullia_lp_staking.Dispatcher.Contract.{
  execute_dispatch_rewards, compute_lido_fee, bond_msgs, fee_msgs,
}
use jullia_lp_staking.Dispatcher.Fees.{sent_to}
use jullia_lp_staking.Hub.Store.{Store, Chain}
use jullia_lp_staking.Hub.Bond.{find_payment}
use jullia_lp_staking.Hub.Contract.{execute}
use jullia_lp_staking.Hub.Delegations.{delegated_coins}
use jullia_lp_staking.Hub.Rewards.{execute_bond-Compounded}

module _ ⦃num : Decimals⦄ where
  -- The messages of a dispatch: rewards that are left go to the hub, then the fee to its address.
  dispatched_msgs :
      (dispatcher : Contract.Chain) (denv : Env) (dinfo : MessageInfo) (dc : DispatcherConfig)
      (balance : Coin) (t' : Contract.Store) (r : Response)
      → dispatcher.query_balance denv.contract_address dc.statom_reward_denom ≡ ok balance
      → execute_dispatch_rewards dispatcher denv dinfo (some dc) ≡ ok (r, t')
      → (fee : ℕ) × (fee ≤ balance.amount)
        × (r.messages
            ≡ bond_msgs dc (record balance { amount = balance.amount - fee }) ++ fee_msgs dc fee)
  unfolding execute_dispatch_rewards compute_lido_fee checked_sub
  dispatched_msgs dispatcher denv dinfo dc balance t' r asked h =
      elim (Result-cases (is_paused dispatcher.query_hub_parameters dc.hub_contract)) [
        | inr (e, fails) ↦ absurd (ground arith)
        | inl (p, answered) ↦ elim (Result-cases (num.mul balance.amount dc.lido_fee_rate)) [
          | inr (e, fails) ↦ absurd (ground arith)
          | inl (fee, fee_is) ↦ (fee, ground arith, ground arith)
        ]
      ]

  sent_fee : (dc : DispatcherConfig) (fee : ℕ) → sent_to dc.lido_fee_address (fee_msgs dc fee) ≡ fee
  sent_fee dc fee = ground (arith, str_eq_iff dc.lido_fee_address dc.lido_fee_address)

  -- A dispatch whose first message calls a contract, and a hub that executes this message, when both
  -- succeed: the message bonds rewards, and what the hub delegates and what the other messages send to the
  -- fee address are together the balance of the dispatcher.
  pub execute_dispatch_rewards-execute :
      (dispatcher : Contract.Chain) (denv : Env) (dinfo : MessageInfo) (dc : DispatcherConfig)
      (balance : Coin) (t' : Contract.Store) (r : Response) (hub : String) (msg : ExecuteMsg)
      (funds : List Coin) (rest : List CosmosMsg) (chain : Chain) (env : Env) (p : Parameters)
      (c : Config) (b : CurrentBatch) (s s' : Store) (r' : Response)
      → dispatcher.query_balance denv.contract_address dc.statom_reward_denom ≡ ok balance
      → execute_dispatch_rewards dispatcher denv dinfo (some dc) ≡ ok (r, t')
      → r.messages ≡ CosmosMsg.wasm_execute hub (Payload.to_hub msg) funds ∷ rest
      → s.parameters ≡ some p
      → s.config ≡ some c
      → s.current_batch ≡ some b
      → balance.denom ≡ p.underlying_coin_denom
      → execute chain env (record { sender = denv.contract_address; funds = funds }) msg s
        ≡ ok (r', s')
      → (msg ≡ ExecuteMsg.bond_rewards)
        × (hub ≡ dc.hub_contract)
        × (c.reward_dispatcher_contract ≡ some denv.contract_address)
        × (delegated_coins r'.messages + sent_to dc.lido_fee_address rest ≡ balance.amount)
  unfolding execute find_payment
  execute_dispatch_rewards-execute dispatcher denv dinfo dc balance t' r hub msg funds rest chain
        env p c b s s' r' asked dispatched sent params config batch denom h =
      let (fee, le, msgs) =
        dispatched_msgs dispatcher denv dinfo dc balance t' r asked dispatched in
      let left : Coin = record balance { amount = balance.amount - fee } in
      let is_bond : msg ≡ ExecuteMsg.bond_rewards = ground arith in
      let funds_lem : funds ≡ left ∷ [] = ground arith in
      let rest_lem : rest ≡ fee_msgs dc fee = ground arith in
      let found : find_payment p.underlying_coin_denom funds ≡ some left =
        ground (arith, str_eq_iff balance.denom p.underlying_coin_denom) in
      let w =
        execute_bond-Compounded chain env (record { sender = denv.contract_address; funds = funds })
          p c b left s s' r' params config batch found (rw is_bond at h) in
      (is_bond, ground arith, w.sender, ground (arith, w.delegated, sent_fee dc fee))
