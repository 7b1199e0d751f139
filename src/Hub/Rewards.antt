-- ===== src/Hub/Rewards.antt =====
-- Bonding the rewards: nothing is minted, so each token is worth more.
use jullia_lp_staking.Base.{
  ℕ, ◌+◌, ◌*◌, ◌/◌, ◌≤◌, ◌<◌, ◌≡◌, ◌≢◌, ◌⊎◌, refl, ◌∙◌, String, List, [], ◌∷◌, Option, none, some,
  Option-cases, arith, ok, Result-cases, inl, inr, sum, not, ◌&&◌, Bool, true, false, str_eq,
  str_eq_iff,
}
use jullia_lp_staking.Cosmwasm.Uint.{add_u128}
use jullia_lp_staking.Cosmwasm.Decimal.{Decimals, decimal_one}
use jullia_lp_staking.Cosmwasm.Types.{Coin, Env, MessageInfo, Delegation}
use jullia_lp_staking.Basset.{
  State, Parameters, Config, CurrentBatch, BondType, update_statom_exchange_rate,
}
use jullia_lp_staking.Messages.{CosmosMsg, Payload, Response}
use jullia_lp_staking.Registry.Common.{ValidatorResponse, calculate_delegations, nonzero_shares}
use jullia_lp_staking.Registry.Delegation.{calculate_delegations-sum}
use jullia_lp_staking.Hub.Store.{Store, Chain, stored_state}
use jullia_lp_staking.Hub.Slashing.{slashing, query_actual_state}
use jullia_lp_staking.Hub.Frames.{slashing-store}
use jullia_lp_staking.Hub.Bond.{execute_bond, delegate_msg, find_payment, bonded_state, mint_amount}
use jullia_lp_staking.Hub.Exchange.{query_actual_state_covered}
use jullia_lp_staking.Hub.Delegations.{
  delegated_coins, delegated_coins-nonzero_shares, only_delegates, only_delegates-nonzero_shares,
}
pub mod Rate

module _ ⦃num : Decimals⦄ where
  -- A bond of rewards that succeeds under the config `c` and the current batch `b`.
  pub record Compounded (chain : Chain) (env : Env) (info : MessageInfo) (c : Config)
      (b : CurrentBatch) (pay : Coin) (s s' : Store) (r : Response) : Type 0 where
    pub sender : c.reward_dispatcher_contract ≡ some info.sender
    -- the state and the storage after the check for slashing
    pub checked : State
    pub store : Store
    pub slashed : slashing chain env s ≡ ok (checked, store)
    -- all messages delegate, and what they delegate is the payment
    pub delegates : only_delegates r.messages ≡ true
    pub delegated : delegated_coins r.messages ≡ pay.amount
    -- the payment is booked, and the exchange rate is that of the supply which the check has found
    pub state : State
    pub updated :
        update_statom_exchange_rate
          (record (stored_state checked) {
            total_bond_statom_amount = checked.total_bond_statom_amount + pay.amount;
          })
          checked.total_statom_issued
          b.requested_statom
        ≡ ok state
    pub booked : s' ≡ record s { state = some (stored_state state) }

  -- When a bond of rewards succeeds, it was sent by the rewards dispatcher; its messages delegate the
  -- whole payment and mint nothing; and the state has the payment booked and a new exchange rate.
  pub execute_bond-Compounded :
      (chain : Chain) (env : Env) (info : MessageInfo) (p : Parameters) (c : Config)
      (b : CurrentBatch) (pay : Coin) (s s' : Store) (r : Response)
      → s.parameters ≡ some p
      → s.config ≡ some c
      → s.current_batch ≡ some b
      → find_payment p.underlying_coin_denom info.funds ≡ some pay
      → execute_bond chain env info BondType.bond_rewards s ≡ ok (r, s')
      → Compounded chain env info c b pay s s' r
  unfolding execute_bond mint_amount bonded_state add_u128
  execute_bond-Compounded chain env info p c b pay s s' r params config batch found h =
      elim (Option-cases c.reward_dispatcher_contract) [
        | inl missing ↦ absurd (ground arith)
        | inr (dispatcher, has_dispatcher) ↦ elim (Result-cases (slashing chain env s)) [
          | inr (e, fails) ↦ absurd (ground arith)
          | inl ((st, s₁), slashed) ↦
              let checked = slashing-store chain env s s₁ st slashed in
              let base : State = record (stored_state st) {
                total_bond_statom_amount = st.total_bond_statom_amount + pay.amount;
              } in
              elim (Result-cases
                (update_statom_exchange_rate base st.total_statom_issued b.requested_statom)) [
                  | inr (e, fails) ↦ absurd (ground (arith, checked))
                  | inl (st', updated) ↦ elim (Option-cases c.validators_registry_contract) [
                    | inl missing ↦ absurd (ground (arith, checked))
                    | inr (reg, has_registry) ↦ elim (Result-cases (chain.query_validators reg)) [
                      | inr (e, fails) ↦ absurd (ground (arith, checked))
                      | inl (vs, listed) ↦
                          elim (Result-cases (calculate_delegations pay.amount vs)) [
                            | inr (e, fails) ↦ absurd (ground (arith, checked))
                            | inl (ds, split) ↦
                                elim (Result-cases
                                  (nonzero_shares (delegate_msg pay.denom) vs ds)) [
                                    | inr (e, fails) ↦ absurd (ground (arith, checked))
                                    | inl (ms, built) ↦
                                        let sent : r.messages ≡ ms = ground (arith, checked) in
                                        record {
                                          sender =
                                              ground (arith, str_eq_iff info.sender dispatcher);
                                          checked = st;
                                          store = s₁;
                                          slashed = slashed;
                                          delegates = rw sent (
                                              only_delegates-nonzero_shares pay.denom vs ds ms
                                                built);
                                          delegated = rw sent (
                                              delegated_coins-nonzero_shares pay.denom vs ds ms
                                                built
                                              ∙ calculate_delegations-sum pay.amount vs ds split);
                                          state = st';
                                          updated = updated;
                                          booked = ground (arith, checked);
                                        }
                                  ]
                          ]
                    ]
                  ]
                ]
        ]
      ]
