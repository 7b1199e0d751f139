-- ===== src/Hub/Book/Refinement.antt =====
-- The messages of the hub against the rules of the book.
use jullia_lp_staking.Base.{ℕ, ◌+◌, ◌≡◌, String, arith, ok, Option-cases, inl, inr}
use jullia_lp_staking.Cosmwasm.Decimal.{Decimals}
use jullia_lp_staking.Cosmwasm.Types.{Env, MessageInfo}
use jullia_lp_staking.Basset.{ExecuteMsg, BondType}
use jullia_lp_staking.Messages.{Response}
use jullia_lp_staking.Hub.Store.{Store, Chain}
use jullia_lp_staking.Hub.Lists.{store_unbond_history}
use jullia_lp_staking.Hub.Admin.{
  execute_update_params, execute_update_config, execute_pause_contracts, execute_unpause_contracts,
  execute_redelegate_proxy, execute_dispatch_rewards, execute_add_guardians,
  execute_remove_guardians,
}
use jullia_lp_staking.Hub.Unbond.{execute_unbond_statom}
use jullia_lp_staking.Hub.Contract.{execute, receive_cw20}
use jullia_lp_staking.Hub.Release.{batch-store}
use jullia_lp_staking.Hub.Frames.{
  slashing-store, execute_bond-store, execute_slashing-store, store_unbond_wait_list-store,
}
use jullia_lp_staking.Hub.Queue.{
  QueueIsValid, slashing-last, execute_bond-last, execute_slashing-last,
}
use jullia_lp_staking.Hub.Queue.Unbonding.{end_epoch-cases, execute_unbond_statom_steps}
use jullia_lp_staking.Hub.Book.{Book, Moves, request, close}
use jullia_lp_staking.Hub.Book.Withdrawals.{execute_withdraw_unbonded-Refines}
use jullia_lp_staking.Hub.Book.Views.{Refines, Refines-same, store_unbond_wait_list-claim}

module _ ⦃num : Decimals⦄ where
  execute_unbond_statom-Refines :
      (chain : Chain) (env : Env) (amount : ℕ) (sender : String) (s s' : Store) (r : Response)
      (b : Book)
      → execute_unbond_statom chain env amount sender s ≡ ok (r, s')
      → QueueIsValid s
      → Refines b s
      → (b' : Book) × Moves b b' × Refines b' s'
  unfolding store_unbond_history
  execute_unbond_statom-Refines chain env amount sender s s' r b h v f =
      elim (Option-cases s.current_batch) [
        | inl missing ↦ absurd (ground (arith, v.has_current))
        | inr (c, current) ↦
            let q = execute_unbond_statom_steps chain env amount sender s s' r c current h in
            let frame₁ = slashing-store chain env s q.store q.checked q.slashed in
            let frame₂ =
              store_unbond_wait_list-store chain c.id sender amount q.store q.waiting q.waits in
            let last_lem = slashing-last chain env s q.store q.checked q.slashed in
            let claims = λ (a : String) (k : ℕ).
              store_unbond_wait_list-claim chain c.id sender amount q.store q.waiting a k q.waits in
            let (same_last, cases) =
              end_epoch-cases chain env q.passed q.period
                (record c { requested_statom = c.requested_statom + amount }) q.checked q.waiting
                q.epoch q.undelegation q.ended in
            elim cases [
              | inl (early, same) ↦ (
                request sender amount b,
                Moves.requests sender amount Moves.stay,
                record {
                  has_last = ground (arith, q.last, f.has_last);
                  has_current = ground (arith, q.batch, f.has_current);
                  has_claim = λ a k.
                      ground (arith, q.wait, claims a k, f.has_claim a k, f.has_current, frame₁);
                  has_total = λ k.
                      ground
                        (arith, q.batch, q.history, f.has_total k, f.has_current, frame₁, frame₂);
                },
              )
              | inr (g, unreleased, amounts, closed, next) ↦ (
                close (request sender amount b),
                Moves.requests sender amount (Moves.closes Moves.stay),
                record {
                  has_last = ground (arith, q.last, f.has_last);
                  has_current = ground (arith, q.batch, f.has_current);
                  has_claim = λ a k.
                      ground (arith, q.wait, claims a k, f.has_claim a k, f.has_current, frame₁);
                  has_total = λ k. ground (
                    arith,
                    q.batch,
                    q.history,
                    batch-store k c.id g q.waiting,
                    f.has_total k,
                    f.has_current,
                    v.has_current,
                    v.bounded k,
                    frame₁,
                    frame₂,
                  );
                },
              )
            ]
      ]

  -- The hub implements the book: from a storage that stands for a book, each message that succeeds makes
  -- moves of the book, and leads to a storage that stands for the new book.
  pub execute-Refines :
      (chain : Chain) (env : Env) (info : MessageInfo) (msg : ExecuteMsg) (s s' : Store)
      (r : Response) (b : Book)
      → execute chain env info msg s ≡ ok (r, s')
      → QueueIsValid s
      → Refines b s
      → (b' : Book) × Moves b b' × Refines b' s'
  unfolding execute receive_cw20 execute_update_params execute_update_config execute_pause_contracts
      execute_unpause_contracts execute_redelegate_proxy execute_dispatch_rewards
      execute_add_guardians execute_remove_guardians
  execute-Refines chain env info (ExecuteMsg.receive m) s s' r b h v f =
      execute_unbond_statom-Refines chain env m.amount m.sender s s' r b (ground arith) v f
  execute-Refines chain env info ExecuteMsg.bond_for_st_atom s s' r b h v f =
      let frame = execute_bond-store chain env info BondType.st_atom s s' r h in
      (
        b,
        Moves.stay,
        Refines-same b s s' (execute_bond-last chain env info BondType.st_atom s s' r h)
            (ground (arith, frame)) (ground (arith, frame)) (ground (arith, frame)) f,
      )
  execute-Refines chain env info ExecuteMsg.bond_rewards s s' r b h v f =
      let frame = execute_bond-store chain env info BondType.bond_rewards s s' r h in
      (
        b,
        Moves.stay,
        Refines-same b s s' (execute_bond-last chain env info BondType.bond_rewards s s' r h)
            (ground (arith, frame)) (ground (arith, frame)) (ground (arith, frame)) f,
      )
  execute-Refines chain env info ExecuteMsg.withdraw_unbonded s s' r b h v f =
      execute_withdraw_unbonded-Refines chain env info s s' r b h v f
  execute-Refines chain env info ExecuteMsg.check_slashing s s' r b h v f =
      let frame = execute_slashing-store chain env s s' r h in
      (
        b,
        Moves.stay,
        Refines-same b s s' (execute_slashing-last chain env s s' r h) (ground (arith, frame))
            (ground (arith, frame)) (ground (arith, frame)) f,
      )
  execute-Refines chain env info _ s s' r b h v f = (
    b,
    Moves.stay,
    Refines-same b s s' (ground arith) (ground arith) (ground arith) (ground arith) f,
  )
