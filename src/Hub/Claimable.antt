-- ===== src/Hub/Claimable.antt =====
-- When a withdrawal succeeds.
use mathlib.Core.List.{append-nil}
use jullia_lp_staking.Base.{
  ℕ, ◌+◌, ◌-◌, ◌≤◌, ◌<◌, ◌≡◌, ap, ◌∙◌, List, [], ◌∷◌, ◌++◌, none, some, Option-cases, false, arith,
  ok, Result-cases, inl, inr,
}
use jullia_lp_staking.Cosmwasm.Uint.{
  u64_mod, u128_mod, add_u128, add_u64_fits, sub_or_panic, checked_sub,
}
use jullia_lp_staking.Cosmwasm.Decimal.{Decimals}
use jullia_lp_staking.Cosmwasm.Types.{Coin, Env, MessageInfo}
use jullia_lp_staking.Basset.{Parameters, State, UnbondWaitEntity, paused}
use jullia_lp_staking.Messages.{CosmosMsg, Response}
use jullia_lp_staking.Hub.Store.{Store, Chain}
use jullia_lp_staking.Hub.Lists.{
  Bucket, read_unbond_history, finished_step, finished_loop, get_finished_amount,
  remove_unbond_wait_list,
}
use jullia_lp_staking.Hub.Withdraw.{
  unprocessed, newly_added_loop, calculate_newly_added_unbonded_amount, process_withdraw_rate,
  execute_withdraw_unbonded,
}
use jullia_lp_staking.Hub.Release.{batch}
use jullia_lp_staking.Hub.Released.{process_withdraw_rate-Released}
use jullia_lp_staking.Hub.Payout.{rate_of, share, payout, released_ids, add_id, add_id-append}

module _ ⦃num : Decimals⦄ where
  finished_step_fits :
      (s : Store) (k : ℕ) (v : UnbondWaitEntity) (a : ℕ) (ks : List ℕ)
      → a + share (rate_of k s) v.statom_amount < u128_mod
      → finished_step s k v (a, ks)
        ≡ ok (a + share (rate_of k s) v.statom_amount, ks ++ add_id (rate_of k s) k [])
  unfolding finished_step read_unbond_history add_u128
  finished_step_fits s k v a ks fits = elim (Option-cases (batch k s)) [
    | inl e ↦ ground (arith, append-nil ks)
    | inr (b, e) ↦
        ground (arith, append-nil ks, num.mul_fits v.statom_amount b.statom_withdraw_rate)
  ]

  -- The loop over the wait list ends with the payout, where this is a word.
  pub finished_loop_fits :
      (s : Store) (b : Bucket) (a : ℕ) (ks : List ℕ)
      → a + payout s b < u128_mod
      → finished_loop s b (a, ks) ≡ ok (a + payout s b, ks ++ released_ids s b)
  unfolding finished_loop
  finished_loop_fits s [] a ks fits = ground (arith, append-nil ks)
  finished_loop_fits s ((k, v) ∷ b) a ks fits =
      let a₁ = a + share (rate_of k s) v.statom_amount in
      let ks₁ = ks ++ add_id (rate_of k s) k [] in
      let step = finished_step_fits s k v a ks (omega arith) in
      let rest = finished_loop_fits s b a₁ ks₁ (omega arith) in
      ground (arith, step, rest, add_id-append (rate_of k s) k ks (released_ids s b))

  -- A release without a due batch changes nothing.
  process_withdraw_rate_idle :
      (time balance : ℕ) (s : Store) (st : State)
      → s.state ≡ some st
      → st.last_processed_batch + 1 < u64_mod
      → unprocessed time (st.last_processed_batch + 1) s ≡ none
      → process_withdraw_rate time balance s ≡ ok (tt, s)
  unfolding process_withdraw_rate calculate_newly_added_unbonded_amount newly_added_loop
  process_withdraw_rate_idle time balance s st loaded small idle =
      ground (arith, add_u64_fits st.last_processed_batch 1)

  -- Right after a release, another one at the same time finds no due batch and changes nothing, whatever
  -- the balance is.
  process_withdraw_rate_twice :
      (time balance balance' : ℕ) (s s' : Store) (st st' : State)
      → s.state ≡ some st
      → process_withdraw_rate time balance s ≡ ok (tt, s')
      → s'.state ≡ some st'
      → st'.last_processed_batch + 1 < u64_mod
      → process_withdraw_rate time balance' s' ≡ ok (tt, s')
  process_withdraw_rate_twice time balance balance' s s' st st' loaded h loaded' small =
      let r = process_withdraw_rate-Released time balance s s' st loaded h in
      let last : r.last ≡ st'.last_processed_batch = ground (arith, r.stored) in
      process_withdraw_rate_idle time balance' s' st' loaded' small (rw last at r.complete)

  -- A user who has claims on released batches is paid at once: where the hub is not paused, the release
  -- of due batches succeeds, or there is none, and the claims are worth something, a word and no more than
  -- the hub's balance, a withdrawal succeeds and sends what they are worth.
  pub execute_withdraw_unbonded_pays :
      (chain : Chain) (env : Env) (info : MessageInfo) (p : Parameters) (balance : Coin)
      (s s₁ : Store) (st : State)
      → s.parameters ≡ some p
      → paused p ≡ false
      → p.unbonding_period ≤ env.block_seconds
      → chain.query_balance env.contract_address p.underlying_coin_denom ≡ ok balance
      → process_withdraw_rate (env.block_seconds - p.unbonding_period) balance.amount s
        ≡ ok (tt, s₁)
      → s₁.state ≡ some st
      → 0 < payout s₁ (s₁.wait info.sender)
      → payout s₁ (s₁.wait info.sender) ≤ balance.amount
      → payout s₁ (s₁.wait info.sender) < u128_mod
      → (r : Response) × (s' : Store) × (execute_withdraw_unbonded chain env info s ≡ ok (r, s'))
        × (r.messages
            ≡ CosmosMsg.bank_send info.sender (
                record { denom = p.underlying_coin_denom; amount = payout s₁ (s₁.wait info.sender) }
                ∷ [])
              ∷ [])
  unfolding execute_withdraw_unbonded get_finished_amount remove_unbond_wait_list sub_or_panic
      checked_sub
  execute_withdraw_unbonded_pays chain env info p balance s s₁ st params active past asked processed
        state some_worth covered word =
      let bucket = s₁.wait info.sender in
      let due = payout s₁ bucket in
      let finished : finished_loop s₁ bucket (0, []) ≡ ok (due, released_ids s₁ bucket) =
        finished_loop_fits s₁ bucket 0 [] (omega arith)
        ∙ ap (λ n. ok (n, released_ids s₁ bucket)) (omega arith) in
      elim (Result-cases (execute_withdraw_unbonded chain env info s)) [
        | inr (e, fails) ↦ absurd (ground (arith, finished))
        | inl ((r, s'), succeeds) ↦ (r, s', succeeds, ground (arith, finished))
      ]
