-- ===== src/Hub/Frames.antt =====
-- What each step of the hub leaves alone.
use jullia_lp_staking.Base.{ℕ, String, ◌≡◌, some, arith, ok, Option-cases, inl, inr}
use jullia_lp_staking.Cosmwasm.Decimal.{Decimals}
use jullia_lp_staking.Cosmwasm.Types.{Env, MessageInfo}
use jullia_lp_staking.Basset.{State, CurrentBatch, BondType}
use jullia_lp_staking.Messages.{Response}
use jullia_lp_staking.Hub.Store.{Store, Chain, stored_state}
use jullia_lp_staking.Hub.Lists.{
  store_unbond_wait_list, store_unbond_history, remove_unbond_wait_list,
}
use jullia_lp_staking.Hub.Slashing.{slashing, execute_slashing}
use jullia_lp_staking.Hub.Bond.{execute_bond}
use jullia_lp_staking.Hub.Unbond.{
  Undelegation, process_undelegations, end_epoch, execute_unbond_statom,
}
use jullia_lp_staking.Hub.Withdraw.{process_withdraw_rate, execute_withdraw_unbonded}
use jullia_lp_staking.Hub.Released.{process_withdraw_rate-Released}

module _ ⦃num : Decimals⦄ where
  pub slashing-store :
      (chain : Chain) (env : Env) (s s' : Store) (st : State)
      → slashing chain env s ≡ ok (st, s')
      → s' ≡ record s { state = some (stored_state st) }
  unfolding slashing
  slashing-store chain env s s' st h = ground arith

  pub execute_slashing-store :
      (chain : Chain) (env : Env) (s s' : Store) (r : Response)
      → execute_slashing chain env s ≡ ok (r, s')
      → s' ≡ record s { state = s'.state }
  unfolding execute_slashing slashing
  execute_slashing-store chain env s s' r h = ground arith

  pub execute_bond-store :
      (chain : Chain) (env : Env) (info : MessageInfo) (t : BondType) (s s' : Store) (r : Response)
      → execute_bond chain env info t s ≡ ok (r, s')
      → s' ≡ record s { state = s'.state }
  unfolding execute_bond slashing
  execute_bond-store chain env info t s s' r h = ground arith

  pub process_undelegations-store :
      (chain : Chain) (env : Env) (b : CurrentBatch) (st : State) (s s' : Store) (u : Undelegation)
      → process_undelegations chain env b st s ≡ ok (u, s')
      → s' ≡ record s { history = s'.history }
  unfolding process_undelegations store_unbond_history
  process_undelegations-store chain env b st s s' u h = ground arith

  pub store_unbond_wait_list-store :
      (chain : Chain) (id : ℕ) (sender : String) (amount : ℕ) (s s' : Store)
      → store_unbond_wait_list chain id sender amount s ≡ ok s'
      → s' ≡ record s { wait = s'.wait }
  unfolding store_unbond_wait_list
  store_unbond_wait_list-store chain id sender amount s s' h = ground arith

  pub execute_unbond_statom-store :
      (chain : Chain) (env : Env) (amount : ℕ) (sender : String) (s s' : Store) (r : Response)
      → execute_unbond_statom chain env amount sender s ≡ ok (r, s')
      → s' ≡ record s {
        state = s'.state;
        current_batch = s'.current_batch;
        wait = s'.wait;
        history = s'.history;
      }
  unfolding execute_unbond_statom end_epoch process_undelegations store_unbond_wait_list slashing
      store_unbond_history
  execute_unbond_statom-store chain env amount sender s s' r h = ground arith

  pub process_withdraw_rate-store :
      (time balance : ℕ) (s s' : Store)
      → process_withdraw_rate time balance s ≡ ok (tt, s')
      → s' ≡ record s { state = s'.state; history = s'.history }
  process_withdraw_rate-store time balance s s' h = elim (Option-cases s.state) [
    | inl missing ↦ absurd (unfold process_withdraw_rate in ground arith)
    | inr (st, loaded) ↦
        let r = process_withdraw_rate-Released time balance s s' st loaded h in
        ground (arith, r.frame)
  ]

  pub execute_withdraw_unbonded-store :
      (chain : Chain) (env : Env) (info : MessageInfo) (s s' : Store) (r : Response)
      → execute_withdraw_unbonded chain env info s ≡ ok (r, s')
      → s' ≡ record s { state = s'.state; wait = s'.wait; history = s'.history }
  unfolding execute_withdraw_unbonded remove_unbond_wait_list
  execute_withdraw_unbonded-store chain env info s s' r h =
      grind (arith, process_withdraw_rate-store)
