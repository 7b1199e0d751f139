-- ===== src/Dispatcher/Fees.antt =====
-- The dispatch of rewards: the balance is split between the hub and the fee address.
use jullia_lp_staking.Base.{
  ℕ, ◌+◌, ◌*◌, ◌/◌, ◌≡◌, String, some, List, [], ◌∷◌, arith, ok, false, true, Result-cases,
  Bool-cases, inl, inr, str_eq, str_eq_iff, ◌≢◌, if◌then◌else◌, sym, refl,
}
use jullia_lp_staking.Cosmwasm.Uint.{checked_sub}
use jullia_lp_staking.Cosmwasm.Decimal.{Decimals, decimal_one}
use jullia_lp_staking.Cosmwasm.Types.{Coin, Env, MessageInfo}
use jullia_lp_staking.Basset.{is_paused}
use jullia_lp_staking.Messages.{CosmosMsg, Response}
use jullia_lp_staking.Dispatcher.Msg.{DispatcherConfig}
use jullia_lp_staking.Dispatcher.Contract.{Store, Chain, compute_lido_fee, execute_dispatch_rewards}

abbrev amounts : List Coin → ℕ
amounts [] = 0
amounts (c ∷ cs) = c.amount + amounts cs

-- The coins that the messages send to a contract or an account.
abbrev pub sent_to : String → List CosmosMsg → ℕ
sent_to address [] = 0
sent_to address (CosmosMsg.wasm_execute c m funds ∷ ms) =
    let rest = sent_to address ms in if str_eq c address then amounts funds + rest else rest
sent_to address (CosmosMsg.bank_send a coins ∷ ms) =
    let rest = sent_to address ms in if str_eq a address then amounts coins + rest else rest
sent_to address (m ∷ ms) = sent_to address ms

str_eq_refl : (a : String) → str_eq a a ≡ true
str_eq_refl a = (str_eq_iff a a).1 refl

str_eq_apart : (a b : String) → a ≢ b → str_eq a b ≡ false
str_eq_apart a b apart = elim (Bool-cases (str_eq a b)) [
  | inl same ↦ absurd (apart ((str_eq_iff a b).0 same))
  | inr differ ↦ differ
]

module _ ⦃num : Decimals⦄ where
  -- A dispatch that succeeds was called by the hub, and splits the balance between two addresses: the fee
  -- address gets the balance times the fee rate, rounded down, and the hub all the rest, where the two
  -- differ. The config does not change.
  pub execute_dispatch_rewards_splits :
      (chain : Chain) (env : Env) (info : MessageInfo) (c : DispatcherConfig) (balance : Coin)
      (s' : Store) (r : Response)
      → chain.query_balance env.contract_address c.statom_reward_denom ≡ ok balance
      → c.hub_contract ≢ c.lido_fee_address
      → execute_dispatch_rewards chain env info (some c) ≡ ok (r, s')
      → (info.sender ≡ c.hub_contract)
        × (s' ≡ some c)
        × (sent_to c.lido_fee_address r.messages ≡ balance.amount * c.lido_fee_rate / decimal_one)
        × (sent_to c.hub_contract r.messages + sent_to c.lido_fee_address r.messages
            ≡ balance.amount)
  unfolding execute_dispatch_rewards compute_lido_fee checked_sub
  execute_dispatch_rewards_splits chain env info c balance s' r asked apart h =
      elim (Result-cases (is_paused chain.query_hub_parameters c.hub_contract)) [
        | inr (e, fails) ↦ absurd (ground arith)
        | inl (p, answered) ↦ elim (Result-cases (num.mul balance.amount c.lido_fee_rate)) [
          | inr (e, fails) ↦ absurd (ground arith)
          | inl (fee, fee_is) ↦
              let fee_lem = num.mul_ok balance.amount c.lido_fee_rate fee fee_is in
              let same = str_eq_refl c.hub_contract in
              let same' = str_eq_refl c.lido_fee_address in
              let differ = str_eq_apart _ _ apart in
              let differ' = str_eq_apart _ _ (λ e. apart (sym e)) in
              ground (arith, str_eq_iff info.sender c.hub_contract)
        ]
      ]
