-- ===== src/Hub/Withdrawable.antt =====
-- The query for withdrawable coins against what a withdrawal pays.
use jullia_lp_staking.Base.{
  ℕ, ◌+◌, ◌-◌, ◌<◌, ◌≤◌, ◌≡◌, ◌⊎◌, String, List, [], ◌∷◌, true, false, none, some, arith, ok, ltb,
  Option-cases, Result-cases, inl, inr,
}
use jullia_lp_staking.Cosmwasm.Uint.{add_u64, sub_or_panic_fits}
use jullia_lp_staking.Cosmwasm.Decimal.{Decimals}
use jullia_lp_staking.Cosmwasm.Types.{Env, MessageInfo}
use jullia_lp_staking.Basset.{State, UnbondHistory, UnbondWaitEntity, Parameters}
use jullia_lp_staking.Hub.Store.{Store, Chain}
use jullia_lp_staking.Hub.Lists.{
  Bucket, read_unbond_history, finished_step, finished_loop, get_finished_amount,
  query_finished_step, query_finished_loop, query_get_finished_amount,
}
use jullia_lp_staking.Hub.Queries.{query_withdrawable_unbonded}
use jullia_lp_staking.Hub.Release.{batch, add_u64_ok}
use jullia_lp_staking.Hub.Withdraw.{
  unprocessed, newly_added_loop, calculate_newly_added_unbonded_amount, process_withdraw_rate,
  execute_withdraw_unbonded,
}
use jullia_lp_staking.Hub.Payout.{payout}
use jullia_lp_staking.Hub.Withdrawal.{execute_withdraw_unbonded-Withdrawn}
use jullia_lp_staking.Messages.{CosmosMsg, Response}

not_unprocessed :
    (time k : ℕ) (s : Store)
    → ((b : UnbondHistory) → batch k s ≡ some b → (b.released ≡ true) ⊎ (time < b.time))
    → unprocessed time k s ≡ none
unfolding unprocessed read_unbond_history
not_unprocessed time k s out = elim (Option-cases (batch k s)) [
  | inl missing ↦ ground arith
  | inr (b, found) ↦ ground (arith, out b found)
]

module _ ⦃num : Decimals⦄ where
  query_finished_step-finished_step :
      (s : Store) (time k : ℕ) (v : UnbondWaitEntity) (a : ℕ) (ks : List ℕ) (a' : ℕ) (ks' : List ℕ)
      → ((h : UnbondHistory) → batch k s ≡ some h → h.released ≡ ltb h.time time)
      → finished_step s k v (a, ks) ≡ ok (a', ks')
      → query_finished_step s time k v a ≡ ok a'
  unfolding finished_step query_finished_step read_unbond_history
  query_finished_step-finished_step s time k v a ks a' ks' released h =
      elim (Option-cases (batch k s)) [
        | inl missing ↦ ground arith
        | inr (b, found) ↦ ground (arith, released b found)
      ]

  query_finished_loop-finished_loop :
      (s : Store) (time : ℕ) (b : Bucket) (a : ℕ) (ks : List ℕ) (a' : ℕ) (ks' : List ℕ)
      → ((k : ℕ) (h : UnbondHistory) → batch k s ≡ some h → h.released ≡ ltb h.time time)
      → finished_loop s b (a, ks) ≡ ok (a', ks')
      → query_finished_loop s time b a ≡ ok a'
  unfolding finished_loop query_finished_loop
  query_finished_loop-finished_loop s time [] a ks a' ks' released h = ground arith
  query_finished_loop-finished_loop s time ((k, v) ∷ b) a ks a' ks' released h =
      elim (Result-cases (finished_step s k v (a, ks))) [
        | inr (e, fails) ↦ absurd (ground arith)
        | inl ((a₁, ks₁), step) ↦
            let one = query_finished_step-finished_step s time k v a ks a₁ ks₁ (released k) step in
            let rest =
              query_finished_loop-finished_loop s time b a₁ ks₁ a' ks' released (ground arith) in
            ground (arith, one, rest)
      ]

  -- Where exactly the batches that closed before the unbonding period are released, the query for
  -- withdrawable coins answers the amount that `get_finished_amount` finds.
  query_withdrawable_unbonded-get_finished_amount :
      (address : String) (env : Env) (s : Store) (p : Parameters) (amount : ℕ) (ids : List ℕ)
      → s.parameters ≡ some p
      → p.unbonding_period ≤ env.block_seconds
      → ((k : ℕ) (h : UnbondHistory)
          → batch k s ≡ some h
          → h.released ≡ ltb h.time (env.block_seconds - p.unbonding_period))
      → get_finished_amount address s ≡ ok (amount, ids)
      → query_withdrawable_unbonded address env s ≡ ok (record { withdrawable = amount })
  unfolding query_withdrawable_unbonded query_get_finished_amount get_finished_amount
  query_withdrawable_unbonded-get_finished_amount address env s p amount ids params past released
        h =
      let time = env.block_seconds - p.unbonding_period in
      ground (
        arith,
        sub_or_panic_fits env.block_seconds p.unbonding_period,
        query_finished_loop-finished_loop s time (s.wait address) 0 [] amount ids released h,
      )

  -- Where no batch is due, a release changes nothing.
  process_withdraw_rate_unchanged :
      (time balance : ℕ) (s s' : Store) (st : State)
      → s.state ≡ some st
      → unprocessed time (st.last_processed_batch + 1) s ≡ none
      → process_withdraw_rate time balance s ≡ ok (tt, s')
      → s' ≡ s
  unfolding process_withdraw_rate calculate_newly_added_unbonded_amount newly_added_loop
  process_withdraw_rate_unchanged time balance s s' st loaded idle h =
      elim (Result-cases (add_u64 st.last_processed_batch 1)) [
        | inr (e, fails) ↦ absurd (ground arith)
        | inl (i, next) ↦
            let i_lem = add_u64_ok st.last_processed_batch 1 i next in ground (arith, i_lem)
      ]

  processed_without_state :
      (time balance : ℕ) (s s' : Store)
      → s.state ≡ none
      → process_withdraw_rate time balance s ≡ ok (tt, s')
      → ⊥
  unfolding process_withdraw_rate
  processed_without_state time balance s s' missing h = ground arith

  -- Where each batch has closed before the limit and is released, or has closed after it and is not, the
  -- query for withdrawable coins answers just the coins that a withdrawal, when it succeeds, sends.
  pub query_withdrawable_unbonded-execute_withdraw_unbonded :
      (chain : Chain) (env : Env) (info : MessageInfo) (s s' : Store) (p : Parameters)
      (r : Response)
      → s.parameters ≡ some p
      → p.unbonding_period ≤ env.block_seconds
      → ((k : ℕ) (h : UnbondHistory)
          → batch k s ≡ some h
          → ((h.released ≡ true) × (h.time < env.block_seconds - p.unbonding_period))
            ⊎ ((h.released ≡ false) × (env.block_seconds - p.unbonding_period < h.time)))
      → execute_withdraw_unbonded chain env info s ≡ ok (r, s')
      → (amount : ℕ) × (query_withdrawable_unbonded info.sender env s
          ≡ ok (record { withdrawable = amount }))
        × (r.messages
            ≡ CosmosMsg.bank_send info.sender
                (record { denom = p.underlying_coin_denom; amount = amount } ∷ [])
              ∷ [])
  query_withdrawable_unbonded-execute_withdraw_unbonded chain env info s s' p r params past sorted
        h =
      let w = execute_withdraw_unbonded-Withdrawn chain env info p s s' r params h in
      let time = env.block_seconds - p.unbonding_period in
      let released : (k : ℕ) (b : UnbondHistory)
          → batch k s ≡ some b
          → b.released ≡ ltb b.time time =
        λ k b found. ground (arith, sorted k b found) in
      let idle = λ (k : ℕ). not_unprocessed time k s λ b found. elim (sorted k b found) [
        | inl (before, early) ↦ inl before
        | inr (not_yet, late) ↦ inr late
      ] in
      elim (Option-cases s.state) [
        | inl missing ↦
            absurd (processed_without_state time w.balance.amount s w.released missing w.processed)
        | inr (st, loaded) ↦
            let same : w.released ≡ s =
              process_withdraw_rate_unchanged time w.balance.amount s w.released st loaded
                (idle (st.last_processed_batch + 1)) w.processed in
            (
              payout s (s.wait info.sender),
              query_withdrawable_unbonded-get_finished_amount info.sender env s p _ _ params past
                  released (rw same at w.found),
              rw same at w.paid,
            )
      ]
