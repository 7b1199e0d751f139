-- ===== src/Hub/Queue/Steps.antt =====
-- The messages of the hub and the queue of batches.
use jullia_lp_staking.Base.{ℕ, ◌-◌, ◌≡◌, Option-cases, arith, ok, inl, inr}
use jullia_lp_staking.Cosmwasm.Decimal.{Decimals}
use jullia_lp_staking.Cosmwasm.Types.{Env, MessageInfo}
use jullia_lp_staking.Basset.{ExecuteMsg, BondType}
use jullia_lp_staking.Messages.{Response}
use jullia_lp_staking.Hub.Store.{Store, Chain}
use jullia_lp_staking.Hub.Withdraw.{process_withdraw_rate, execute_withdraw_unbonded}
use jullia_lp_staking.Hub.Admin.{
  execute_update_params, execute_update_config, execute_pause_contracts, execute_unpause_contracts,
  execute_redelegate_proxy, execute_dispatch_rewards, execute_add_guardians,
  execute_remove_guardians,
}
use jullia_lp_staking.Hub.Contract.{execute, receive_cw20}
use jullia_lp_staking.Hub.Withdrawal.{execute_withdraw_unbonded-Withdrawn}
use jullia_lp_staking.Hub.Released.{process_withdraw_rate-Released}
use jullia_lp_staking.Hub.Frames.{
  process_withdraw_rate-store, execute_bond-store, execute_slashing-store,
  execute_withdraw_unbonded-store,
}
use jullia_lp_staking.Hub.Queue.{
  QueueIsValid, QueueIsValid-same, execute_bond-last, execute_slashing-last,
}
use jullia_lp_staking.Hub.Queue.Epochs.{Released-QueueIsValid}
use jullia_lp_staking.Hub.Queue.Unbonding.{execute_unbond_statom-QueueIsValid}

module _ ⦃num : Decimals⦄ where
  pub process_withdraw_rate-QueueIsValid :
      (time balance : ℕ) (s s' : Store)
      → process_withdraw_rate time balance s ≡ ok (tt, s')
      → QueueIsValid s
      → QueueIsValid s'
  process_withdraw_rate-QueueIsValid time balance s s' h v = elim (Option-cases s.state) [
    | inl missing ↦ absurd (ground (arith, v.has_last))
    | inr (st, loaded) ↦
        Released-QueueIsValid loaded
          (ground (arith, process_withdraw_rate-store time balance s s' h))
          (process_withdraw_rate-Released time balance s s' st loaded h) v
  ]

  execute_withdraw_unbonded-QueueIsValid :
      (chain : Chain) (env : Env) (info : MessageInfo) (s s' : Store) (r : Response)
      → execute_withdraw_unbonded chain env info s ≡ ok (r, s')
      → QueueIsValid s
      → QueueIsValid s'
  execute_withdraw_unbonded-QueueIsValid chain env info s s' r h v =
      elim (Option-cases s.parameters) [
        | inl missing ↦ absurd (unfold execute_withdraw_unbonded in ground arith)
        | inr (p, params) ↦
            let w = execute_withdraw_unbonded-Withdrawn chain env info p s s' r params h in
            let frame = execute_withdraw_unbonded-store chain env info s s' r h in
            let frame₁ =
              process_withdraw_rate-store (env.block_seconds - p.unbonding_period) w.balance.amount
                s w.released w.processed in
            QueueIsValid-same w.released s' (ground (arith, w.noted))
              (ground (arith, frame, frame₁)) w.same_history
              (process_withdraw_rate-QueueIsValid _ _ s w.released w.processed v)
      ]

  -- Every message that succeeds keeps the queue valid: the stored batches are those from 1 up to the
  -- current one, released exactly up to the last processed one.
  pub execute-QueueIsValid :
      (chain : Chain) (env : Env) (info : MessageInfo) (msg : ExecuteMsg) (s s' : Store)
      (r : Response)
      → execute chain env info msg s ≡ ok (r, s')
      → QueueIsValid s
      → QueueIsValid s'
  unfolding execute receive_cw20 execute_update_params execute_update_config execute_pause_contracts
      execute_unpause_contracts execute_redelegate_proxy execute_dispatch_rewards
      execute_add_guardians execute_remove_guardians
  execute-QueueIsValid chain env info (ExecuteMsg.receive m) s s' r h v =
      execute_unbond_statom-QueueIsValid chain env m.amount m.sender s s' r (ground arith) v
  execute-QueueIsValid chain env info ExecuteMsg.bond_for_st_atom s s' r h v =
      let frame = execute_bond-store chain env info BondType.st_atom s s' r h in
      QueueIsValid-same s s' (execute_bond-last chain env info BondType.st_atom s s' r h)
        (ground (arith, frame)) (ground (arith, frame)) v
  execute-QueueIsValid chain env info ExecuteMsg.bond_rewards s s' r h v =
      let frame = execute_bond-store chain env info BondType.bond_rewards s s' r h in
      QueueIsValid-same s s' (execute_bond-last chain env info BondType.bond_rewards s s' r h)
        (ground (arith, frame)) (ground (arith, frame)) v
  execute-QueueIsValid chain env info ExecuteMsg.withdraw_unbonded s s' r h v =
      execute_withdraw_unbonded-QueueIsValid chain env info s s' r h v
  execute-QueueIsValid chain env info ExecuteMsg.check_slashing s s' r h v =
      let frame = execute_slashing-store chain env s s' r h in
      QueueIsValid-same s s' (execute_slashing-last chain env s s' r h) (ground (arith, frame))
        (ground (arith, frame)) v
  execute-QueueIsValid chain env info _ s s' r h v =
      QueueIsValid-same s s' (ground arith) (ground arith) (ground arith) v
