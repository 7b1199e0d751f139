-- ===== src/Hub/Solvency/Kept.antt =====
-- The messages other than a withdrawal: they keep what is due to the users, and the balance that was noted.
use jullia_lp_staking.Base.{
  ℕ, ◌+◌, ◌≡◌, ◌<◌, ◌≢◌, refl, String, some, none, Option, Option-cases, Result-cases, ok, arith,
  inl, inr,
}
use jullia_lp_staking.Cosmwasm.Decimal.{Decimals}
use jullia_lp_staking.Cosmwasm.Types.{Env, MessageInfo}
use jullia_lp_staking.Basset.{State, ExecuteMsg, BondType, update_statom_exchange_rate}
use jullia_lp_staking.Messages.{Response}
use jullia_lp_staking.Hub.Store.{Store, Chain}
use jullia_lp_staking.Hub.Slashing.{slashing, query_actual_state, slashed_state, execute_slashing}
use jullia_lp_staking.Hub.Bond.{execute_bond, bonded_state}
use jullia_lp_staking.Hub.Unbond.{end_epoch, process_undelegations, execute_unbond_statom}
use jullia_lp_staking.Hub.Admin.{
  execute_update_params, execute_update_config, execute_pause_contracts, execute_unpause_contracts,
  execute_redelegate_proxy, execute_dispatch_rewards, execute_add_guardians,
  execute_remove_guardians,
}
use jullia_lp_staking.Hub.Contract.{execute, receive_cw20}
use jullia_lp_staking.Hub.Frames.{
  execute_bond-store, execute_slashing-store, slashing-store, store_unbond_wait_list-store,
}
use jullia_lp_staking.Hub.Lists.{store_unbond_history}
use jullia_lp_staking.Hub.Release.{batch, batch-store}
use jullia_lp_staking.Hub.Queue.Unbonding.{
  end_epoch-cases, execute_unbond_statom_steps, execute_unbond_statom-QueueIsValid,
}
use jullia_lp_staking.Hub.Book.Views.{store_unbond_wait_list-claim}
use jullia_lp_staking.Hub.Buckets.{BucketsOnce, store_unbond_wait_list-BucketsOnce}
use jullia_lp_staking.Hub.Queue.{QueueIsValid, slashing-last}
use jullia_lp_staking.Hub.Solvency.Dues.{dues, dues-same}

abbrev prev_in : Option State → Option ℕ
prev_in none = none
prev_in (some st) = some st.prev_hub_balance

-- `prev_hub_balance`, where the state is stored.
abbrev pub prev_of : Store → Option ℕ
prev_of s = prev_in s.state

pub record Kept (s s' : Store) : Type 0 where
  pub prev : prev_of s' ≡ prev_of s
  pub once : BucketsOnce s → BucketsOnce s'
  pub same : BucketsOnce s → (a : String) → dues s' a ≡ dues s a

Kept-same :
    (s s' : Store) → prev_of s' ≡ prev_of s → s'.wait ≡ s.wait → s'.history ≡ s.history → Kept s s'
Kept-same s s' prev wait history = record {
  prev = prev;
  once = λ once a. rw wait (once a);
  same = λ once a. rw (wait, history) refl;
}

module _ ⦃num : Decimals⦄ where
  slashing-prev :
      (chain : Chain) (env : Env) (s s' : Store) (st : State)
      → slashing chain env s ≡ ok (st, s')
      → (prev_of s' ≡ prev_of s) × (prev_of s ≡ some st.prev_hub_balance)
  unfolding slashing query_actual_state slashed_state update_statom_exchange_rate
  slashing-prev chain env s s' st h = ground arith

  execute_bond-prev :
      (chain : Chain) (env : Env) (info : MessageInfo) (t : BondType) (s s' : Store) (r : Response)
      → execute_bond chain env info t s ≡ ok (r, s')
      → prev_of s' ≡ prev_of s
  unfolding execute_bond bonded_state update_statom_exchange_rate
  execute_bond-prev chain env info t s s' r h = elim (Result-cases (slashing chain env s)) [
    | inr (e, fails) ↦ absurd (ground arith)
    | inl ((st, s₁), done) ↦ ground (arith, slashing-prev chain env s s₁ st done)
  ]

  execute_slashing-prev :
      (chain : Chain) (env : Env) (s s' : Store) (r : Response)
      → execute_slashing chain env s ≡ ok (r, s')
      → prev_of s' ≡ prev_of s
  unfolding execute_slashing
  execute_slashing-prev chain env s s' r h = elim (Result-cases (slashing chain env s)) [
    | inr (e, fails) ↦ absurd (ground arith)
    | inl ((st, s₁), done) ↦ ground (arith, slashing-prev chain env s s₁ st done)
  ]

  execute_unbond_statom-prev :
      (chain : Chain) (env : Env) (amount : ℕ) (sender : String) (s s' : Store) (r : Response)
      → execute_unbond_statom chain env amount sender s ≡ ok (r, s')
      → prev_of s' ≡ prev_of s
  unfolding execute_unbond_statom end_epoch process_undelegations
  execute_unbond_statom-prev chain env amount sender s s' r h =
      elim (Result-cases (slashing chain env s)) [
        | inr (e, fails) ↦ absurd (ground arith)
        | inl ((st, s₁), done) ↦ ground (arith, slashing-prev chain env s s₁ st done)
      ]

  -- A request changes neither the released batches nor the claims on them.
  execute_unbond_statom-Kept :
      (chain : Chain) (env : Env) (amount : ℕ) (sender : String) (s s' : Store) (r : Response)
      → execute_unbond_statom chain env amount sender s ≡ ok (r, s')
      → QueueIsValid s
      → Kept s s'
  unfolding store_unbond_history
  execute_unbond_statom-Kept chain env amount sender s s' r h v =
      elim (Option-cases s.current_batch) [
        | inl missing ↦ absurd (ground (arith, v.has_current))
        | inr (c, current) ↦
            let q = execute_unbond_statom_steps chain env amount sender s s' r c current h in
            let v' = execute_unbond_statom-QueueIsValid chain env amount sender s s' r h v in
            let frame₁ = slashing-store chain env s q.store q.checked q.slashed in
            let frame₂ =
              store_unbond_wait_list-store chain c.id sender amount q.store q.waiting q.waits in
            let last_lem = slashing-last chain env s q.store q.checked q.slashed in
            let (same_last, cases) =
              end_epoch-cases chain env q.passed q.period
                (record c { requested_statom = c.requested_statom + amount }) q.checked q.waiting
                q.epoch q.undelegation q.ended in
            let id : c.id ≡ v.current = ground (arith, v.has_current) in
            let last : v'.last ≡ v.last =
              ground (arith, v'.has_last, v.has_last, q.last, same_last, last_lem) in
            let wait : s'.wait ≡ q.waiting.wait = elim cases [
              | inl (early, same) ↦ ground (arith, q.wait)
              | inr (g, unreleased, amounts, closed, next) ↦ ground (arith, q.wait)
            ] in
            let old : (k : ℕ) → k < v.current → batch k s' ≡ batch k s = λ k lt. elim cases [
              | inl (early, same) ↦ ground (arith, q.history, frame₁, frame₂)
              | inr (g, unreleased, amounts, closed, next) ↦
                  ground (arith, q.history, frame₁, frame₂, batch-store k c.id g q.waiting)
            ] in
            let once = λ (one : BucketsOnce s).
              store_unbond_wait_list-BucketsOnce chain c.id sender amount q.store q.waiting q.waits
                (λ a. rw frame₁ (one a)) in
            record {
              prev = execute_unbond_statom-prev chain env amount sender s s' r h;
              once = λ one a. rw wait (once one a);
              same = λ one a.
                  dues-same s s' v v' a last one (λ u. rw wait (once one u))
                    (λ k le. old k (omega (arith, v.behind)))
                    λ k le. rw wait (
                      ground (
                        arith,
                        store_unbond_wait_list-claim chain c.id sender amount q.store q.waiting a k
                            q.waits,
                        frame₁,
                        id,
                        v.behind,
                      ));
            }
      ]

  -- Every message but a withdrawal keeps what is due to the users.
  pub execute-Kept :
      (chain : Chain) (env : Env) (info : MessageInfo) (msg : ExecuteMsg) (s s' : Store)
      (r : Response)
      → execute chain env info msg s ≡ ok (r, s')
      → msg ≢ ExecuteMsg.withdraw_unbonded
      → QueueIsValid s
      → Kept s s'
  unfolding execute receive_cw20 execute_update_params execute_update_config execute_pause_contracts
      execute_unpause_contracts execute_redelegate_proxy execute_dispatch_rewards
      execute_add_guardians execute_remove_guardians
  execute-Kept chain env info (ExecuteMsg.receive m) s s' r h other v =
      execute_unbond_statom-Kept chain env m.amount m.sender s s' r (ground arith) v
  execute-Kept chain env info ExecuteMsg.bond_for_st_atom s s' r h other v =
      let frame = execute_bond-store chain env info BondType.st_atom s s' r h in
      Kept-same s s' (execute_bond-prev chain env info BondType.st_atom s s' r h)
        (ground (arith, frame)) (ground (arith, frame))
  execute-Kept chain env info ExecuteMsg.bond_rewards s s' r h other v =
      let frame = execute_bond-store chain env info BondType.bond_rewards s s' r h in
      Kept-same s s' (execute_bond-prev chain env info BondType.bond_rewards s s' r h)
        (ground (arith, frame)) (ground (arith, frame))
  execute-Kept chain env info ExecuteMsg.withdraw_unbonded s s' r h other v = absurd (other refl)
  execute-Kept chain env info ExecuteMsg.check_slashing s s' r h other v =
      let frame = execute_slashing-store chain env s s' r h in
      Kept-same s s' (execute_slashing-prev chain env s s' r h) (ground (arith, frame))
        (ground (arith, frame))
  execute-Kept chain env info _ s s' r h other v =
      Kept-same s s' (ground arith) (ground arith) (ground arith)
