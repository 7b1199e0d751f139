-- ===== src/Tests/Bonds.antt =====
-- The exchange rate and bonding at concrete inputs.
use jullia_lp_staking.Base.{◌+◌, ◌*◌, ◌≤◌, ◌≡◌, ◌≢◌, refl, arith, [], ◌∷◌, ok, min}
use jullia_lp_staking.Cosmwasm.Decimal.{decimal_one}
use jullia_lp_staking.Cosmwasm.Uint.{add_u128, sub_or_panic, checked_sub}
use jullia_lp_staking.Cosmwasm.Types.{MessageInfo}
use jullia_lp_staking.Basset.{State, BondType, update_statom_exchange_rate}
use jullia_lp_staking.Messages.{Response}
use jullia_lp_staking.Registry.Common.{
  sum_delegated, delegate_loop, calculate_delegations, nonzero_shares,
}
use jullia_lp_staking.Hub.Store.{Store}
use jullia_lp_staking.Hub.Rates.{decimal_division}
use jullia_lp_staking.Hub.Slashing.{
  query_total_statom_issued, actual_total_bonded, slashed_state, query_actual_state, slashing,
}
use jullia_lp_staking.Hub.Bond.{find_payment, mint_amount, bonded_state, execute_bond}
use jullia_lp_staking.Hub.Exchange.{query_actual_state_covered}
use jullia_lp_staking.Hub.Store.{Chain}
use jullia_lp_staking.Hub.Flows.Dilution.{execute_bond_keeps_rate}
use jullia_lp_staking.Hub.Delegations.{minted_tokens}
use jullia_lp_staking.Hub.Flows.{Bonded, execute_bond-Bonded}
use jullia_lp_staking.Tests.{
  fixed_point, outcome, atoms, chain, env, config, parameters, current_batch, state, store,
}

-- 100 of the 1000 coins on the books are slashed.
abbrev slashed : State
slashed = record state {
  total_statom_issued = 700;
  total_bond_statom_amount = 900;
  statom_exchange_rate = 1_250_000_000_000_000_000;
}

slashed_lem : query_actual_state chain env store ≡ ok slashed
unfolding query_actual_state actual_total_bonded query_total_statom_issued slashed_state
    update_statom_exchange_rate add_u128
slashed_lem = refl

query_actual_state_covered_example :
    (query_total_statom_issued chain store ≡ ok 700)
    × (900 ≡ min 1_000 900)
    × (slashed.total_bond_statom_amount ≢ 0
        → 700 + 20 ≢ 0
        → slashed.statom_exchange_rate * (700 + 20) ≤ 900 * decimal_one)
query_actual_state_covered_example =
    query_actual_state_covered chain env store parameters current_batch state slashed
      (record { validator = "v1"; amount = atoms 400 })
      (record { validator = "v2"; amount = atoms 500 } ∷ []) refl refl refl refl (omega arith)
      slashed_lem

abbrev pub payer : MessageInfo
payer = record { sender = "alice"; funds = atoms 50 ∷ [] }

abbrev bonded : Response × Store
bonded =
    outcome (record { messages = []; attributes = [] }, store)
      (execute_bond chain env payer BondType.st_atom store)

bonded_lem : execute_bond chain env payer BondType.st_atom store ≡ ok bonded
unfolding execute_bond find_payment slashing query_actual_state actual_total_bonded
    query_total_statom_issued slashed_state update_statom_exchange_rate add_u128 mint_amount
    decimal_division bonded_state calculate_delegations sum_delegated delegate_loop sub_or_panic
    checked_sub nonzero_shares
bonded_lem = refl

execute_bond-Bonded_example : Bonded chain env payer (atoms 50) store bonded.1 bonded.0
unfolding find_payment
execute_bond-Bonded_example =
    execute_bond-Bonded chain env payer parameters (atoms 50) store bonded.1 bonded.0 refl refl
      bonded_lem

-- The token has minted 40 for the payment, and the 50 coins are delegated.
abbrev next_chain : Chain
next_chain = record chain {
  query_total_supply = λ token. ok 740;
  query_all_delegations = λ delegator. ok (
      record { validator = "v1"; amount = atoms 400 }
      ∷ record { validator = "v2"; amount = atoms 550 }
      ∷ []);
}

abbrev next : State
next = record state {
  total_statom_issued = 740;
  total_bond_statom_amount = 950;
  statom_exchange_rate = 1_250_000_000_000_000_000;
}

next_lem : query_actual_state next_chain env bonded.1 ≡ ok next
unfolding execute_bond find_payment slashing query_actual_state actual_total_bonded
    query_total_statom_issued slashed_state update_statom_exchange_rate add_u128 mint_amount
    decimal_division bonded_state calculate_delegations sum_delegated delegate_loop sub_or_panic
    checked_sub nonzero_shares
next_lem = refl

supply_lem :
    query_total_statom_issued next_chain bonded.1
    ≡ ok (700 + minted_tokens "token" bonded.0.messages)
unfolding execute_bond find_payment slashing query_actual_state actual_total_bonded
    query_total_statom_issued slashed_state update_statom_exchange_rate add_u128 mint_amount
    decimal_division bonded_state calculate_delegations sum_delegated delegate_loop sub_or_panic
    checked_sub nonzero_shares
supply_lem = refl

execute_bond_keeps_rate_example :
    (next.total_bond_statom_amount ≡ 950)
    × (slashed.statom_exchange_rate ≤ next.statom_exchange_rate)
unfolding find_payment decimal_division
execute_bond_keeps_rate_example =
    execute_bond_keeps_rate chain env payer parameters current_batch state slashed
      (record { validator = "v1"; amount = atoms 400 })
      (record { validator = "v2"; amount = atoms 500 } ∷ []) (atoms 50) config "token" store
      bonded.1 bonded.0 next_chain env next (record { validator = "v1"; amount = atoms 400 })
      (record { validator = "v2"; amount = atoms 550 } ∷ []) refl refl refl refl (omega arith)
      slashed_lem (omega arith) (omega arith) refl refl refl bonded_lem supply_lem refl
      (omega arith) next_lem
