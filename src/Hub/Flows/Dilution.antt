-- ===== src/Hub/Flows/Dilution.antt =====
-- A bond of a user and the exchange rate of those who hold tokens already.
use native.Mathlib.Nat.{le-div_iff_mul-le}
use jullia_lp_staking.Base.{
  ℕ, ◌+◌, ◌*◌, ◌≤◌, ◌<◌, ◌≡◌, ◌≢◌, String, List, ◌∷◌, some, arith, ok, min,
}
use jullia_lp_staking.Cosmwasm.Decimal.{Decimals, decimal_one}
use jullia_lp_staking.Cosmwasm.Types.{Coin, Env, MessageInfo, Delegation}
use jullia_lp_staking.Basset.{State, Parameters, CurrentBatch, Config, BondType}
use jullia_lp_staking.Messages.{Response}
use jullia_lp_staking.Hub.Store.{Store, Chain, stored_state}
use jullia_lp_staking.Hub.Slashing.{slashing, query_actual_state, query_total_statom_issued}
use jullia_lp_staking.Hub.Bond.{execute_bond, find_payment}
use jullia_lp_staking.Hub.Exchange.{
  bonded_in, decimal_division_floor, query_actual_state_covered, query_actual_state_updates,
  update_statom_exchange_rate_lem, update_statom_exchange_rate_covered,
}
use jullia_lp_staking.Hub.Delegations.{minted_tokens, minted_tokens-append}
use jullia_lp_staking.Hub.Flows.{execute_bond-Bonded}

-- A rate that the coins cover stays covered when coins come at that rate.
rate_stays :
    (rate supply minted bonded pay c : ℕ)
    → rate * supply ≤ bonded * c
    → minted * rate ≤ pay * c
    → rate * (supply + minted) ≤ (bonded + pay) * c
rate_stays rate supply minted bonded pay c h₁ h₂ = grind arith

module _ ⦃num : Decimals⦄ where
  -- A check that finds nothing slashed keeps the books, and its rate is not below one that they cover.
  unslashed_check_rate :
      (chain : Chain) (env : Env) (s : Store) (p : Parameters) (b : CurrentBatch) (st next : State)
      (d : Delegation) (ds : List Delegation) (rate issued : ℕ)
      → s.parameters ≡ some p
      → s.current_batch ≡ some b
      → s.state ≡ some st
      → query_total_statom_issued chain s ≡ ok issued
      → chain.query_all_delegations env.contract_address ≡ ok (d ∷ ds)
      → st.total_bond_statom_amount ≢ 0
      → issued + b.requested_statom ≢ 0
      → st.total_bond_statom_amount ≤ bonded_in p.underlying_coin_denom (d ∷ ds)
      → rate * (issued + b.requested_statom) ≤ st.total_bond_statom_amount * decimal_one
      → query_actual_state chain env s ≡ ok next
      → (next.total_bond_statom_amount ≡ st.total_bond_statom_amount)
        × (rate ≤ next.statom_exchange_rate)
  unslashed_check_rate chain env s p b st next d ds rate issued params batch state supply delegated
        some_bond supplied kept covered asked =
      let (issued', counted, updated) =
        query_actual_state_updates chain env s p b st next d ds params batch state delegated
          some_bond asked in
      let more : issued ≡ issued' = ground arith in
      let whole : min st.total_bond_statom_amount (bonded_in p.underlying_coin_denom (d ∷ ds))
          ≡ st.total_bond_statom_amount =
        omega arith in
      let (only_rate, _, _) =
        update_statom_exchange_rate_covered _ next issued' b.requested_statom updated in
      let new =
        update_statom_exchange_rate_lem _ next issued' b.requested_statom updated (omega arith)
          (omega arith) in
      let positive : 0 < issued' + b.requested_statom = omega arith in
      let bound : rate * (issued' + b.requested_statom)
          ≤ st.total_bond_statom_amount * decimal_one =
        rw more at covered in
      (ground (arith, only_rate, whole), rw new (rw whole ((le-div_iff_mul-le positive).1 bound)))

  -- A bond of a user dilutes nobody: where the hub has delegations, bonded coins that are not all slashed
  -- and a supply or a request, and after the bond the supply has grown by what the messages of the bond ask
  -- the token contract to mint and nothing more is slashed, the next check finds an exchange rate that is
  -- not below the one of the bond, and the books raised by the payment.
  pub execute_bond_keeps_rate :
      (chain : Chain) (env : Env) (info : MessageInfo) (p : Parameters) (b : CurrentBatch)
      (st checked : State) (d : Delegation) (ds : List Delegation) (pay : Coin) (c : Config)
      (token : String) (s s' : Store) (r : Response) (chain' : Chain) (env' : Env) (next : State)
      (d' : Delegation) (ds' : List Delegation)
      → s.parameters ≡ some p
      → s.current_batch ≡ some b
      → s.state ≡ some st
      → chain.query_all_delegations env.contract_address ≡ ok (d ∷ ds)
      → st.total_bond_statom_amount ≢ 0
      → query_actual_state chain env s ≡ ok checked
      → checked.total_bond_statom_amount ≢ 0
      → checked.total_statom_issued + b.requested_statom ≢ 0
      → find_payment p.underlying_coin_denom info.funds ≡ some pay
      → s.config ≡ some c
      → c.statom_token_contract ≡ some token
      → execute_bond chain env info BondType.st_atom s ≡ ok (r, s')
      → query_total_statom_issued chain' s'
        ≡ ok (checked.total_statom_issued + minted_tokens token r.messages)
      → chain'.query_all_delegations env'.contract_address ≡ ok (d' ∷ ds')
      → checked.total_bond_statom_amount + pay.amount ≤ bonded_in p.underlying_coin_denom (d' ∷ ds')
      → query_actual_state chain' env' s' ≡ ok next
      → (next.total_bond_statom_amount ≡ checked.total_bond_statom_amount + pay.amount)
        × (checked.statom_exchange_rate ≤ next.statom_exchange_rate)
  unfolding slashing
  execute_bond_keeps_rate chain env info p b st checked d ds pay c token s s' r chain' env' next d'
        ds' params batch state delegated some_bond asked left supplied found config known h supply
        delegated' kept asked' =
      let w = execute_bond-Bonded chain env info p pay s s' r params found h in
      let same : w.checked ≡ checked = ground (arith, w.slashed) in
      let here : token ≡ w.token = ground (arith, w.has_config, w.registered) in
      let asked_for : minted_tokens token r.messages ≡ w.minted =
        rw (here, w.messages)
          (minted_tokens-append w.token info.sender w.minted w.delegations w.delegates) in
      let booked = w.booked in
      let (issued, books, covered) =
        query_actual_state_covered chain env s p b st checked d ds params batch state delegated
          some_bond asked in
      let (positive, floor, above) =
        decimal_division_floor pay.amount checked.statom_exchange_rate w.minted
          (rw same at w.worth) in
      let stays =
        rate_stays checked.statom_exchange_rate (checked.total_statom_issued + b.requested_statom)
          w.minted checked.total_bond_statom_amount pay.amount decimal_one (covered left supplied)
          floor in
      let (raised, rate) =
        unslashed_check_rate chain' env' s' p b
          (stored_state (record w.checked {
            total_bond_statom_amount = w.checked.total_bond_statom_amount + pay.amount;
          }))
          next d' ds' checked.statom_exchange_rate (checked.total_statom_issued + w.minted)
          (ground (arith, booked)) (ground (arith, booked)) (ground (arith, booked))
          (rw asked_for at supply) delegated' (rw same (omega arith)) (omega arith) (rw same kept)
          (rw same (omega (arith, stays))) asked' in
      (rw same at raised, rate)
