-- ===== src/Hub/Rewards/Rate.antt =====
-- The exchange rate after rewards.
use native.Mathlib.Nat.{le-div_iff_mul-le}
use jullia_lp_staking.Base.{◌+◌, ◌*◌, ◌≤◌, ◌≡◌, ◌≢◌, List, ◌∷◌, some, arith, ok}
use jullia_lp_staking.Cosmwasm.Decimal.{Decimals, decimal_one}
use jullia_lp_staking.Cosmwasm.Types.{Coin, Env, MessageInfo, Delegation}
use jullia_lp_staking.Basset.{State, Parameters, Config, CurrentBatch, BondType}
use jullia_lp_staking.Messages.{Response}
use jullia_lp_staking.Hub.Store.{Store, Chain, stored_state}
use jullia_lp_staking.Hub.Slashing.{slashing, query_actual_state}
use jullia_lp_staking.Hub.Bond.{execute_bond, find_payment}
use jullia_lp_staking.Hub.Exchange.{query_actual_state_covered, update_statom_exchange_rate_lem}
use jullia_lp_staking.Hub.Rewards.{execute_bond-Compounded}

module _ ⦃num : Decimals⦄ where
  -- Rewards never lower the exchange rate: where the hub has delegations, bonded coins that are not all
  -- slashed and a supply, the stored rate after the rewards is at least the one that the check for
  -- slashing has found before them.
  pub execute_bond_rewards_raises_rate :
      (chain : Chain) (env : Env) (info : MessageInfo) (p : Parameters) (c : Config)
      (b : CurrentBatch) (st : State) (d : Delegation) (ds : List Delegation) (pay : Coin)
      (s s' : Store) (r : Response)
      → s.parameters ≡ some p
      → s.config ≡ some c
      → s.current_batch ≡ some b
      → s.state ≡ some st
      → chain.query_all_delegations env.contract_address ≡ ok (d ∷ ds)
      → st.total_bond_statom_amount ≢ 0
      → find_payment p.underlying_coin_denom info.funds ≡ some pay
      → execute_bond chain env info BondType.bond_rewards s ≡ ok (r, s')
      → (checked : State) × (after : State) × (query_actual_state chain env s ≡ ok checked)
        × (s'.state ≡ some after)
        × (checked.total_bond_statom_amount ≢ 0
            → checked.total_statom_issued + b.requested_statom ≢ 0
            → checked.statom_exchange_rate ≤ after.statom_exchange_rate)
  unfolding slashing
  execute_bond_rewards_raises_rate chain env info p c b st d ds pay s s' r params config batch state
        delegated some_bond found h =
      let w = execute_bond-Compounded chain env info p c b pay s s' r params config batch found h in
      let asked : query_actual_state chain env s ≡ ok w.checked = ground (arith, w.slashed) in
      let (issued, books, covered) =
        query_actual_state_covered chain env s p b st w.checked d ds params batch state delegated
          some_bond asked in
      (
        w.checked,
        stored_state w.state,
        asked,
        ground (arith, w.booked),
        λ ne₁ ne₂.
            let total = w.checked.total_bond_statom_amount in
            let supply = w.checked.total_statom_issued + b.requested_statom in
            let before : w.checked.statom_exchange_rate * supply
                ≤ (total + pay.amount) * decimal_one =
              grind (arith, covered ne₁ ne₂) in
            let rate =
              update_statom_exchange_rate_lem _ w.state w.checked.total_statom_issued
                b.requested_statom w.updated (omega arith) ne₂ in
            rw rate ((le-div_iff_mul-le (omega arith)).1 before),
      )
