-- ===== src/Hub/Solvency/Funds.antt =====
-- A withdrawal and the solvency of the hub: the balance that it has noted covers what all users may
-- withdraw.
use jullia_lp_staking.Base.{
  ℕ, ◌-◌, ◌≤◌, ◌≡◌, ◌≢◌, refl, sym, String, List, [], true, some, ok, arith, str_eq, str_eq_iff,
  Bool-cases, Option-cases, inl, inr,
}
use jullia_lp_staking.Cosmwasm.Decimal.{Decimals}
use jullia_lp_staking.Cosmwasm.Types.{Env, MessageInfo}
use jullia_lp_staking.Basset.{State, Parameters}
use jullia_lp_staking.Messages.{Response}
use jullia_lp_staking.Hub.Store.{Store, Chain}
use jullia_lp_staking.Hub.Withdraw.{process_withdraw_rate, execute_withdraw_unbonded}
use jullia_lp_staking.Hub.Withdrawal.{
  Withdrawn, execute_withdraw_unbonded_once, get_finished_amount_lem,
}
use jullia_lp_staking.Hub.Frames.{process_withdraw_rate-store}
use jullia_lp_staking.Hub.Buckets.{BucketsOnce, KeysOnce-remove_batches}
use jullia_lp_staking.Hub.Book.{distinct}
use jullia_lp_staking.Hub.Book.Users.{total, total-congr, total-others, without}
use jullia_lp_staking.Hub.Book.Reach.{Reached}
use jullia_lp_staking.Hub.Solvency.Dues.{dues, Funding, process_withdraw_rate-dues}
use jullia_lp_staking.Hub.Solvency.Kept.{Kept}

-- The balance that the hub has noted covers what any different users may withdraw at once.
abbrev pub Solvent : Store → Type 0
Solvent s =
    (users : List String) (st : State)
    → distinct users ≡ true
    → s.state ≡ some st
    → total (dues s) users ≤ st.prev_hub_balance

module _ ⦃num : Decimals⦄ where
  pub Withdrawn-BucketsOnce :
      (chain : Chain) (env : Env) (info : MessageInfo) (p : Parameters) (s s' : Store)
      (r : Response)
      → Withdrawn chain env info p s s' r
      → BucketsOnce s
      → BucketsOnce s'
  Withdrawn-BucketsOnce chain env info p s s' r w once a =
      let frame = process_withdraw_rate-store _ _ s w.released w.processed in
      let before : w.released.wait ≡ s.wait = ground (arith, frame) in
      elim (Bool-cases (str_eq info.sender a)) [
        | inl own ↦
            let e : info.sender ≡ a = (str_eq_iff info.sender a).0 own in
            rw (← e, w.bucket) (KeysOnce-remove_batches chain _ _ (rw before (once info.sender)))
        | inr other ↦
            let e : a ≢ info.sender = λ e. ground (arith, str_eq_iff info.sender a) in
            rw (w.other_users a e, before) (once a)
      ]

  -- After a withdrawal the user may withdraw nothing, and all others what they could before.
  Withdrawn-dues :
      (chain : Chain) (env : Env) (info : MessageInfo) (p : Parameters) (s s' : Store)
      (r : Response) (w : Withdrawn chain env info p s s' r) (a : String)
      → s.parameters ≡ some p
      → execute_withdraw_unbonded chain env info s ≡ ok (r, s')
      → dues s' a ≡ without info.sender (dues w.released) a
  Withdrawn-dues chain env info p s s' r w a params h = elim (Bool-cases (str_eq info.sender a)) [
    | inl own ↦
        let e : info.sender ≡ a = (str_eq_iff info.sender a).0 own in
        let nothing =
          get_finished_amount_lem info.sender s' 0 []
            (execute_withdraw_unbonded_once chain env info p s s' r params h) in
        rw own (rw (← e) (sym nothing.0))
    | inr other ↦
        let e : a ≢ info.sender = λ e. ground (arith, str_eq_iff info.sender a) in
        rw other (rw (w.other_users a e, w.same_history) refl)
  ]

  -- What all users may withdraw after a release is within the balance.
  pub process_withdraw_rate-covered :
      (time balance : ℕ) (s s' : Store) (st st' : State) (users : List String)
      → Reached s
      → BucketsOnce s
      → Solvent s
      → s.state ≡ some st
      → s'.state ≡ some st'
      → Funding time balance s st st'
      → process_withdraw_rate time balance s ≡ ok (tt, s')
      → distinct users ≡ true
      → total (dues s') users ≤ balance
  process_withdraw_rate-covered time balance s s' st st' users reached once solvent loaded stored f
        h different =
      omega (
        arith,
        solvent users st different loaded,
        process_withdraw_rate-dues time balance s s' st st' users reached once loaded stored f
            different h,
        f.grown,
      )

  pub Withdrawn-Solvent :
      (chain : Chain) (env : Env) (info : MessageInfo) (p : Parameters) (st st' : State)
      (s s' : Store) (r : Response) (w : Withdrawn chain env info p s s' r)
      → Reached s
      → BucketsOnce s
      → Solvent s
      → s.parameters ≡ some p
      → s.state ≡ some st
      → w.released.state ≡ some st'
      → Funding (env.block_seconds - p.unbonding_period) w.balance.amount s st st'
      → execute_withdraw_unbonded chain env info s ≡ ok (r, s')
      → Solvent s'
  Withdrawn-Solvent chain env info p st st' s s' r w reached once solvent params loaded stored f h
        users st₁ different loaded₁ =
      let (st₂, released, noted) = w.noted in
      let left = total-others info.sender (dues w.released) w.balance.amount users different (λ vs.
        process_withdraw_rate-covered _ w.balance.amount s w.released st st' vs reached once solvent
          loaded stored f w.processed) in
      let same =
        total-congr (dues s') (without info.sender (dues w.released)) users
          (λ a. Withdrawn-dues chain env info p s s' r w a params h) in
      let prev : st₁.prev_hub_balance ≡ w.balance.amount - dues w.released info.sender =
        ground (arith, noted) in
      omega (arith, left, same, prev, w.covered)

  pub Kept-Solvent : (s s' : Store) → Kept s s' → BucketsOnce s → Solvent s → Solvent s'
  Kept-Solvent s s' k once solvent users st different loaded = elim (Option-cases s.state) [
    | inl missing ↦ absurd (ground (arith, k.prev))
    | inr (st₀, before) ↦
        let prev : st.prev_hub_balance ≡ st₀.prev_hub_balance = ground (arith, k.prev) in
        omega (
          arith,
          prev,
          solvent users st₀ different before,
          total-congr (dues s') (dues s) users (k.same once),
        )
  ]
