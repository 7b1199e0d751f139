-- ===== src/Hub/Exchange.antt =====
-- Rates: what bonding mints, how the exchange rate follows the bonded coins, and the worth of a
-- released batch.
use jullia_lp_staking.Base.{
  ℕ, ◌+◌, ◌-◌, ◌*◌, ◌/◌, ◌≤◌, ◌<◌, ◌≡◌, ◌≢◌, ◌⊎◌, String, List, [], ◌∷◌, some, arith, ok,
  Result-cases, inl, inr, false, ltb, if◌then◌else◌, min, str_eq,
}
use jullia_lp_staking.Cosmwasm.Uint.{u128_mod, add_u128, add_u256_fits, to_u128_fits}
use jullia_lp_staking.Cosmwasm.Decimal.{Decimals, decimal_one}
use jullia_lp_staking.Cosmwasm.Types.{Env, Delegation}
use jullia_lp_staking.Basset.{State, CurrentBatch, Parameters, update_statom_exchange_rate}
use jullia_lp_staking.SignedInt.{from_subtraction}
use jullia_lp_staking.Hub.Store.{Store, Chain}
use jullia_lp_staking.Hub.Slashing.{
  query_actual_state, slashed_state, actual_total_bonded, query_total_statom_issued,
}
use jullia_lp_staking.Hub.Rates.{decimal_division, decimal_fractional, actual_unbonded}

pub div_mul_le : (a d : ℕ) → 0 < d → (a / d) * d ≤ a
div_mul_le a d h = grind arith

pub lt_suc_div_mul : (a d : ℕ) → 0 < d → a < (a / d + 1) * d
lt_suc_div_mul a d h = grind arith

mul_div_cancel : (a : ℕ) → decimal_one * a / decimal_one ≡ a
mul_div_cancel a = omega arith

-- The coins delegated in the bonded denom.
abbrev pub bonded_in : String → List Delegation → ℕ
bonded_in denom [] = 0
bonded_in denom (d ∷ ds) =
    (if str_eq d.amount.denom denom then d.amount.amount else 0) + bonded_in denom ds

actual_total_bonded_lem :
    (denom : String) (ds : List Delegation) (acc a : ℕ)
    → actual_total_bonded denom ds acc ≡ ok a
    → a ≡ acc + bonded_in denom ds
unfolding actual_total_bonded add_u128
actual_total_bonded_lem denom [] acc a h = ground arith
actual_total_bonded_lem denom (d ∷ ds) acc a h = ground (
  arith,
  actual_total_bonded_lem denom ds acc a,
  actual_total_bonded_lem denom ds (acc + d.amount.amount) a,
)

module _ ⦃num : Decimals⦄ where
  -- `decimal_division a b` is a divided by the decimal b, rounded down: it never mints more than the
  -- payment is worth, nor a whole unit less.
  pub decimal_division_floor :
      (a b m : ℕ)
      → decimal_division a b ≡ ok m
      → (0 < b) × (m * b ≤ a * decimal_one) × (a * decimal_one < (m + 1) * b)
  unfolding decimal_division
  decimal_division_floor a b m h = elim (Result-cases (num.mul decimal_fractional b)) [
    | inr (e, fails) ↦ absurd (ground arith)
    | inl (x, scaled) ↦ elim (Result-cases (num.from_ratio a x)) [
      | inr (e, fails) ↦ absurd (ground arith)
      | inl (y, ratio) ↦
          let e₁ = num.mul_ok decimal_fractional b x scaled in
          let e₂ = num.from_ratio_ok a x y ratio in
          let e₃ = num.mul_ok decimal_fractional y m (ground arith) in
          let x_lem : x ≡ b = omega (arith, e₁.0) in
          let m_lem : m ≡ y = omega (arith, e₃.0) in
          rw (← x_lem, m_lem, e₂.1)
            (e₂.0, div_mul_le (a * decimal_one) x e₂.0, lt_suc_div_mul (a * decimal_one) x e₂.0)
    ]
  ]

  -- The new exchange rate values the whole supply at no more than the bonded coins, where there are any of
  -- both, and is one otherwise; nothing else of the state changes.
  pub update_statom_exchange_rate_covered :
      (s s' : State) (issued requested : ℕ)
      → update_statom_exchange_rate s issued requested ≡ ok s'
      → (s' ≡ record s { statom_exchange_rate = s'.statom_exchange_rate })
        × (((s.total_bond_statom_amount ≡ 0) ⊎ (issued + requested ≡ 0))
            → s'.statom_exchange_rate ≡ decimal_one)
        × (s.total_bond_statom_amount ≢ 0
            → issued + requested ≢ 0
            → s'.statom_exchange_rate * (issued + requested)
              ≤ s.total_bond_statom_amount * decimal_one)
  unfolding update_statom_exchange_rate add_u128
  update_statom_exchange_rate_covered s s' issued requested h =
      let total = s.total_bond_statom_amount in
      elim (Result-cases (num.from_ratio total (issued + requested))) [
        | inr (e, fails) ↦ (ground arith, ground arith, λ ne₁ ne₂. absurd (ground arith))
        | inl (r, ratio) ↦
            let e = num.from_ratio_ok total (issued + requested) r ratio in
            (
              ground arith,
              ground arith,
              λ ne₁ ne₂.
                  let new : s'.statom_exchange_rate ≡ r = ground arith in
                  rw (new, e.1) (div_mul_le (total * decimal_one) (issued + requested) e.0),
            )
      ]

  -- The updated rate, where there are bonded coins and a supply.
  pub update_statom_exchange_rate_lem :
      (s s' : State) (issued requested : ℕ)
      → update_statom_exchange_rate s issued requested ≡ ok s'
      → s.total_bond_statom_amount ≢ 0
      → issued + requested ≢ 0
      → s'.statom_exchange_rate ≡ s.total_bond_statom_amount * decimal_one / (issued + requested)
  unfolding update_statom_exchange_rate add_u128
  update_statom_exchange_rate_lem s s' issued requested h some_bond some_supply =
      elim (Result-cases (num.from_ratio s.total_bond_statom_amount (issued + requested))) [
        | inr (e, fails) ↦ absurd (ground arith)
        | inl (r, ratio) ↦
            ground
              (arith, num.from_ratio_ok s.total_bond_statom_amount (issued + requested) r ratio)
      ]

  -- The state to which the check for slashing applies the new rate.
  pub query_actual_state_updates :
      (chain : Chain) (env : Env) (s : Store) (p : Parameters) (b : CurrentBatch) (st st' : State)
      (d : Delegation) (ds : List Delegation)
      → s.parameters ≡ some p
      → s.current_batch ≡ some b
      → s.state ≡ some st
      → chain.query_all_delegations env.contract_address ≡ ok (d ∷ ds)
      → st.total_bond_statom_amount ≢ 0
      → query_actual_state chain env s ≡ ok st'
      → (issued : ℕ) × (query_total_statom_issued chain s ≡ ok issued)
        × (update_statom_exchange_rate
              (record st {
                total_statom_issued = issued;
                total_bond_statom_amount =
                    min st.total_bond_statom_amount (bonded_in p.underlying_coin_denom (d ∷ ds));
              })
              issued
              b.requested_statom
            ≡ ok st')
  unfolding query_actual_state slashed_state
  query_actual_state_updates chain env s p b st st' d ds params batch state delegated some_bond h =
      elim (Result-cases (actual_total_bonded p.underlying_coin_denom (d ∷ ds) 0)) [
        | inr (e, fails) ↦ absurd (ground arith)
        | inl (a, sum) ↦ elim (Result-cases (query_total_statom_issued chain s)) [
          | inr (e, fails) ↦ absurd (ground arith)
          | inl (issued, asked) ↦
              let a_lem = actual_total_bonded_lem p.underlying_coin_denom (d ∷ ds) 0 a sum in
              let total =
                if ltb a st.total_bond_statom_amount then a else st.total_bond_statom_amount in
              let total_lem : total
                  ≡ min st.total_bond_statom_amount (bonded_in p.underlying_coin_denom (d ∷ ds)) =
                ground arith in
              (issued, asked, rw (← total_lem) (ground arith))
        ]
      ]

  -- A check for slashing that succeeds, where there are delegations and bonded coins on the books: it takes
  -- the supply that the token reports, and the books become the smaller of what they were and what is
  -- delegated in the hub's coin; and where the new books are not zero and there is a supply or a request,
  -- the new exchange rate values both together at no more than the new books.
  pub query_actual_state_covered :
      (chain : Chain) (env : Env) (s : Store) (p : Parameters) (b : CurrentBatch) (st st' : State)
      (d : Delegation) (ds : List Delegation)
      → s.parameters ≡ some p
      → s.current_batch ≡ some b
      → s.state ≡ some st
      → chain.query_all_delegations env.contract_address ≡ ok (d ∷ ds)
      → st.total_bond_statom_amount ≢ 0
      → query_actual_state chain env s ≡ ok st'
      → (query_total_statom_issued chain s ≡ ok st'.total_statom_issued)
        × (st'.total_bond_statom_amount
            ≡ min st.total_bond_statom_amount (bonded_in p.underlying_coin_denom (d ∷ ds)))
        × (st'.total_bond_statom_amount ≢ 0
            → st'.total_statom_issued + b.requested_statom ≢ 0
            → st'.statom_exchange_rate * (st'.total_statom_issued + b.requested_statom)
              ≤ st'.total_bond_statom_amount * decimal_one)
  query_actual_state_covered chain env s p b st st' d ds params batch state delegated some_bond h =
      let (issued, asked, updated) =
        query_actual_state_updates chain env s p b st st' d ds params batch state delegated
          some_bond h in
      let (same, _, covered) =
        update_statom_exchange_rate_covered _ st' issued b.requested_statom updated in
      (ground (arith, same), ground (arith, same), λ ne₁ ne₂. ground (arith, same, covered))

  -- A batch whose share of the missing coins is not less than its own coins is still worth coins: with
  -- `actual_unbonded` the part that is missing beyond the batch, plus one, is credited to it.
  pub actual_unbonded_over_slashed :
      (unbonded slashed m : ℕ)
      → 0 < m
      → unbonded ≤ slashed
      → slashed + 1 < u128_mod
      → actual_unbonded unbonded slashed (record { magnitude = m; negative = false })
        ≡ ok (slashed + 1 - unbonded)
  unfolding actual_unbonded from_subtraction
  actual_unbonded_over_slashed unbonded slashed m some_missing over small =
      ground (arith, add_u256_fits slashed 1, to_u128_fits unbonded, to_u128_fits (slashed + 1))
