-- ===== src/Hub/Solvency/Funded.antt =====
-- The solvency of the hub over time, from its instantiation on.
use jullia_lp_staking.Base.{
  ◌-◌, ◌≤◌, ◌<◌, ◌≡◌, ◌≢◌, refl, String, List, [], ◌∷◌, true, false, some, ok, arith,
}
use jullia_lp_staking.Cosmwasm.Uint.{u128_mod}
use jullia_lp_staking.Cosmwasm.Decimal.{Decimals}
use jullia_lp_staking.Cosmwasm.Types.{Coin, Env, MessageInfo}
use jullia_lp_staking.Basset.{State, Parameters, ExecuteMsg, InstantiateMsg, paused}
use jullia_lp_staking.Messages.{CosmosMsg, Response}
use jullia_lp_staking.Hub.Store.{Store, Chain}
use jullia_lp_staking.Hub.Withdraw.{process_withdraw_rate, execute_withdraw_unbonded}
use jullia_lp_staking.Hub.Admin.{instantiate}
use jullia_lp_staking.Hub.Contract.{execute}
use jullia_lp_staking.Hub.Withdrawal.{Withdrawn, execute_withdraw_unbonded-Withdrawn}
use jullia_lp_staking.Hub.Claimable.{execute_withdraw_unbonded_pays}
use jullia_lp_staking.Hub.Payout.{payout}
use jullia_lp_staking.Hub.Buckets.{BucketsOnce}
use jullia_lp_staking.Hub.Book.{distinct}
use jullia_lp_staking.Hub.Book.Users.{total, total-congr}
use jullia_lp_staking.Hub.Book.Reach.{empty_store, Reached, Reached-QueueIsValid}
use jullia_lp_staking.Hub.Solvency.Claims.{total_zero}
use jullia_lp_staking.Hub.Solvency.Dues.{dues, Funding}
use jullia_lp_staking.Hub.Solvency.Kept.{execute-Kept}
use jullia_lp_staking.Hub.Solvency.Funds.{
  Solvent, Withdrawn-BucketsOnce, process_withdraw_rate-covered, Withdrawn-Solvent, Kept-Solvent,
}

module _ ⦃num : Decimals⦄ where
  -- The storages that a hub comes to, where at each withdrawal the coins have come that `Funding` asks for.
  pub data Funded : Store → Type 0 where
    instantiated :
        {s : Store}
        → (env : Env) (info : MessageInfo) (msg : InstantiateMsg) (r : Response)
        → instantiate env info msg empty_store ≡ ok (r, s)
        → Funded s
    executed :
        {s s' : Store}
        → Funded s
        → (chain : Chain) (env : Env) (info : MessageInfo) (msg : ExecuteMsg) (r : Response)
        → msg ≢ ExecuteMsg.withdraw_unbonded
        → execute chain env info msg s ≡ ok (r, s')
        → Funded s'
    withdrawn :
        {s s' : Store}
        → Funded s
        → (chain : Chain) (env : Env) (info : MessageInfo) (r : Response) (p : Parameters)
          (balance : Coin) (s₁ : Store) (st st' : State)
        → s.parameters ≡ some p
        → s.state ≡ some st
        → chain.query_balance env.contract_address p.underlying_coin_denom ≡ ok balance
        → process_withdraw_rate (env.block_seconds - p.unbonding_period) balance.amount s
          ≡ ok (tt, s₁)
        → s₁.state ≡ some st'
        → Funding (env.block_seconds - p.unbonding_period) balance.amount s st st'
        → execute chain env info ExecuteMsg.withdraw_unbonded s ≡ ok (r, s')
        → Funded s'

  pub Funded-Reached : {s : Store} → Funded s → Reached s
  Funded-Reached (Funded.instantiated env info msg r h) = Reached.instantiated env info msg r h
  Funded-Reached (Funded.executed before chain env info msg r other h) =
      Reached.executed (Funded-Reached before) chain env info msg r h
  Funded-Reached
        (Funded.withdrawn before chain env info r p balance s₁ st st' params loaded asked processed
          stored f h) =
      Reached.executed (Funded-Reached before) chain env info ExecuteMsg.withdraw_unbonded r h

  instantiate-wait :
      (env : Env) (info : MessageInfo) (msg : InstantiateMsg) (s : Store) (r : Response)
      (a : String)
      → instantiate env info msg empty_store ≡ ok (r, s)
      → s.wait a ≡ []
  unfolding instantiate
  instantiate-wait env info msg s r a h = ground arith

  -- The release and the balance of a withdrawal that succeeds are those that the chain gives.
  Withdrawn-asked :
      (chain : Chain) (env : Env) (info : MessageInfo) (p : Parameters) (s s' s₁ : Store)
      (r : Response) (balance : Coin) (w : Withdrawn chain env info p s s' r)
      → chain.query_balance env.contract_address p.underlying_coin_denom ≡ ok balance
      → process_withdraw_rate (env.block_seconds - p.unbonding_period) balance.amount s
        ≡ ok (tt, s₁)
      → (balance ≡ w.balance) × (s₁ ≡ w.released)
  Withdrawn-asked chain env info p s s' s₁ r balance w asked processed =
      let e : balance ≡ w.balance = ground (arith, w.asked) in
      (e, ground (arith, rw e at processed, w.processed))

  Funded-invariant : {s : Store} → Funded s → BucketsOnce s × Solvent s
  unfolding execute
  Funded-invariant {s} (Funded.instantiated env info msg r h) = (
    λ a. rw (instantiate-wait env info msg s r a h) tt,
    λ users st different loaded.
        let same =
          total-congr (dues s) (λ u. 0) users
            λ a. rw (instantiate-wait env info msg s r a h) refl in
        omega (arith, same, total_zero users),
  )
  Funded-invariant {s = s'} (Funded.executed {s} before chain env info msg r other h) =
      let (once, solvent) = Funded-invariant before in
      let k =
        execute-Kept chain env info msg s s' r h other
          (Reached-QueueIsValid (Funded-Reached before)) in
      (k.once once, Kept-Solvent s s' k once solvent)
  Funded-invariant {s = s'}
        (Funded.withdrawn {s} before chain env info r p balance s₁ st st' params loaded asked
          processed stored f h) =
      let (once, solvent) = Funded-invariant before in
      let w = execute_withdraw_unbonded-Withdrawn chain env info p s s' r params h in
      let (e, e₁) = Withdrawn-asked chain env info p s s' s₁ r balance w asked processed in
      (
        Withdrawn-BucketsOnce chain env info p s s' r w once,
        Withdrawn-Solvent chain env info p st st' s s' r w (Funded-Reached before) once solvent
            params loaded (rw e₁ at stored) (rw e at f) h,
      )

  -- In every storage that a hub comes to from its instantiation on, the balance that it has noted covers
  -- what any different users may withdraw at once; where, at each withdrawal, coins have only come since
  -- the last one, some have come if a batch is released, each due batch is worth something, and the coins
  -- that are missing for the released batches, once for each of them, are fewer than 10 ^ 18.
  pub Funded-Solvent :
      (s : Store) (st : State) (users : List String)
      → Funded s
      → s.state ≡ some st
      → distinct users ≡ true
      → total (λ u. payout s (s.wait u)) users ≤ st.prev_hub_balance
  Funded-Solvent s st users funded loaded different =
      (Funded-invariant funded).1 users st different loaded

  -- In every such storage, once the due batches are released, a user with claims that are worth something
  -- is paid.
  pub Funded-execute_withdraw_unbonded :
      (chain : Chain) (env : Env) (info : MessageInfo) (p : Parameters) (balance : Coin)
      (s s₁ : Store) (st st' : State)
      → Funded s
      → s.parameters ≡ some p
      → paused p ≡ false
      → p.unbonding_period ≤ env.block_seconds
      → chain.query_balance env.contract_address p.underlying_coin_denom ≡ ok balance
      → balance.amount < u128_mod
      → process_withdraw_rate (env.block_seconds - p.unbonding_period) balance.amount s
        ≡ ok (tt, s₁)
      → s.state ≡ some st
      → s₁.state ≡ some st'
      → Funding (env.block_seconds - p.unbonding_period) balance.amount s st st'
      → 0 < payout s₁ (s₁.wait info.sender)
      → (r : Response) × (s' : Store) × (execute_withdraw_unbonded chain env info s ≡ ok (r, s'))
        × (r.messages
            ≡ CosmosMsg.bank_send info.sender (
                record { denom = p.underlying_coin_denom; amount = payout s₁ (s₁.wait info.sender) }
                ∷ [])
              ∷ [])
  Funded-execute_withdraw_unbonded chain env info p balance s s₁ st st' funded params active past
        asked word processed loaded stored f some_worth =
      let (once, solvent) = Funded-invariant funded in
      let all =
        process_withdraw_rate-covered _ balance.amount s s₁ st st' (info.sender ∷ [])
          (Funded-Reached funded) once solvent loaded stored f processed refl in
      execute_withdraw_unbonded_pays chain env info p balance s s₁ st' params active past asked
        processed stored some_worth (omega (arith, all)) (omega (arith, all))
