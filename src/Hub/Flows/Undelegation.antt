-- ===== src/Hub/Flows/Undelegation.antt =====
-- The coins that the messages of `undelegate` take back.
use jullia_lp_staking.Base.{
  ℕ, ◌+◌, ◌≡◌, ◌∙◌, String, List, [], ◌∷◌, Option-cases, arith, ok, Result-cases, inl, inr, sum,
  map,
}
use jullia_lp_staking.Base.Sort.{sort_by}
use jullia_lp_staking.Messages.{CosmosMsg}
use jullia_lp_staking.Registry.Common.{ValidatorResponse, calculate_undelegations, nonzero_shares}
use jullia_lp_staking.Registry.Undelegation.{calculate_undelegations-sum}
use jullia_lp_staking.Hub.Store.{Store, Chain}
use jullia_lp_staking.Hub.Unbond.{undelegate, undelegate_msg, to_validator, larger_first}

-- The coins that a list of messages takes back.
abbrev undelegated_coins : List CosmosMsg → ℕ
undelegated_coins [] = 0
undelegated_coins (CosmosMsg.undelegate v c ∷ ms) = c.amount + undelegated_coins ms
undelegated_coins (m ∷ ms) = undelegated_coins ms

undelegated_coins-nonzero_shares :
    (denom : String) (vs : List ValidatorResponse) (ds : List ℕ) (ms : List CosmosMsg)
    → nonzero_shares (undelegate_msg denom) vs ds ≡ ok ms
    → undelegated_coins ms ≡ sum ds
unfolding nonzero_shares
undelegated_coins-nonzero_shares denom vs [] ms h = ground arith
undelegated_coins-nonzero_shares denom [] (d ∷ ds) ms h = ground arith
undelegated_coins-nonzero_shares denom (v ∷ vs) (d ∷ ds) ms h =
    elim (Result-cases (nonzero_shares (undelegate_msg denom) vs ds)) [
      | inr (e, fails) ↦ absurd (ground arith)
      | inl (rest, done) ↦ ground (arith, undelegated_coins-nonzero_shares denom vs ds rest)
    ]

-- Undelegation messages, when they can be made, take back exactly the claim.
undelegate_claim :
    (chain : Chain) (claim : ℕ) (delegator : String) (s : Store) (ms : List CosmosMsg)
    → undelegate chain claim delegator s ≡ ok ms
    → undelegated_coins ms ≡ claim
unfolding undelegate
undelegate_claim chain claim delegator s ms h = elim (Option-cases s.parameters) [
  | inl missing ↦ absurd (ground arith)
  | inr (p, params) ↦ elim (Result-cases (chain.query_all_delegations delegator)) [
    | inr (e, fails) ↦ absurd (ground arith)
    | inl (all, asked) ↦
        let vs = sort_by larger_first (map to_validator all) in
        elim (Result-cases (calculate_undelegations claim vs)) [
          | inr (e, fails) ↦ absurd (ground arith)
          | inl (us, split) ↦
              undelegated_coins-nonzero_shares p.underlying_coin_denom vs us ms (ground arith)
              ∙ calculate_undelegations-sum claim vs us split
        ]
  ]
]
