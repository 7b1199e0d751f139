-- ===== src/Hub/Withdrawal.antt =====
-- `execute_withdraw_unbonded`: what a user is paid, and that no batch is paid twice.
use jullia_lp_staking.Base.{
  ℕ, ◌-◌, ◌≤◌, ◌<◌, ◌≡◌, ◌≢◌, String, List, [], ◌∷◌, none, some, Option-cases, arith, ok,
  Result-cases, inl, inr, str_eq_iff,
}
use jullia_lp_staking.Base.Maps.{lookup}
use jullia_lp_staking.Base.Keys.{ordered_key}
use jullia_lp_staking.Cosmwasm.Uint.{checked_sub, sub_or_panic, sub_or_panic_ok}
use jullia_lp_staking.Cosmwasm.Decimal.{Decimals}
use jullia_lp_staking.Cosmwasm.Types.{Coin, Env, MessageInfo}
use jullia_lp_staking.Basset.{Parameters, State}
use jullia_lp_staking.Messages.{CosmosMsg, Response}
use jullia_lp_staking.Hub.Store.{Store, Chain, stored_state}
use jullia_lp_staking.Hub.Lists.{get_finished_amount, remove_unbond_wait_list, remove_batches}
use jullia_lp_staking.Hub.Withdraw.{process_withdraw_rate, execute_withdraw_unbonded}
use jullia_lp_staking.Hub.Payout.{
  rate_of, payout, released_ids, finished_loop_lem, finished_loop_pending, lookup-remove_released,
}

module _ ⦃num : Decimals⦄ where
  -- A withdrawal that began in `s` under the parameters `p` and ended in `s'`.
  pub record Withdrawn (chain : Chain) (env : Env) (info : MessageInfo) (p : Parameters)
      (s s' : Store) (r : Response) : Type 0 where
    -- the hub's balance, and the storage once the due batches are released
    pub balance : Coin
    pub released : Store
    pub processed :
        process_withdraw_rate (env.block_seconds - p.unbonding_period) balance.amount s
        ≡ ok (tt, released)
    pub found :
        get_finished_amount info.sender released
        ≡ ok (
          payout released (released.wait info.sender),
          released_ids released (released.wait info.sender),
        )
    pub asked : chain.query_balance env.contract_address p.underlying_coin_denom ≡ ok balance
    -- the user is sent what the released batches of the wait list are worth, and this is not nothing
    pub paid :
        r.messages
        ≡ CosmosMsg.bank_send info.sender (
            record {
              denom = p.underlying_coin_denom;
              amount = payout released (released.wait info.sender);
            }
            ∷ [])
          ∷ []
    pub some_coins : 0 < payout released (released.wait info.sender)
    pub covered : payout released (released.wait info.sender) ≤ balance.amount
    -- the entries of released batches are gone, the others stay
    pub dropped :
        (k : ℕ)
        → rate_of k released ≢ none
        → lookup (ordered_key chain.wait_before) k (s'.wait info.sender) ≡ none
    pub kept :
        (k : ℕ)
        → rate_of k released ≡ none
        → lookup (ordered_key chain.wait_before) k (s'.wait info.sender)
          ≡ lookup (ordered_key chain.wait_before) k (released.wait info.sender)
    pub bucket :
        s'.wait info.sender
        ≡ remove_batches chain
            (released_ids released (released.wait info.sender))
            (released.wait info.sender)
    -- the lists of other users and the history stay
    pub other_users : (a : String) → a ≢ info.sender → s'.wait a ≡ released.wait a
    pub same_history : s'.history ≡ released.history
    -- the balance that is left is noted for the next release
    pub noted :
        (st : State) × (released.state ≡ some st)
        × (s'.state
            ≡ some (
                stored_state (record st {
                  prev_hub_balance = balance.amount - payout released (released.wait info.sender);
                })))

  pub get_finished_amount_lem :
      (sender : String) (s : Store) (a : ℕ) (ks : List ℕ)
      → get_finished_amount sender s ≡ ok (a, ks)
      → (a ≡ payout s (s.wait sender)) × (ks ≡ released_ids s (s.wait sender))
  unfolding get_finished_amount
  get_finished_amount_lem sender s a ks h =
      let t = finished_loop_lem s (s.wait sender) 0 [] a ks h in (omega (arith, t.0), t.1)

  -- When `execute_withdraw_unbonded` succeeds, the user is sent exactly the worth of the released batches
  -- of the wait list, which is not zero and not more than the hub's balance; the entries of those batches
  -- are gone, all other entries, users and batches stay, and the rest of the balance is noted.
  pub execute_withdraw_unbonded-Withdrawn :
      (chain : Chain) (env : Env) (info : MessageInfo) (p : Parameters) (s s' : Store)
      (r : Response)
      → s.parameters ≡ some p
      → execute_withdraw_unbonded chain env info s ≡ ok (r, s')
      → Withdrawn chain env info p s s' r
  unfolding execute_withdraw_unbonded remove_unbond_wait_list checked_sub
  execute_withdraw_unbonded-Withdrawn chain env info p s s' r params h =
      elim (Result-cases (sub_or_panic env.block_seconds p.unbonding_period)) [
        | inr (e, fails) ↦ absurd (ground arith)
        | inl (time, past) ↦
            elim (Result-cases (chain.query_balance env.contract_address p.underlying_coin_denom)) [
              | inr (e, fails) ↦ absurd (ground arith)
              | inl (balance, asked) ↦
                  elim (Result-cases (process_withdraw_rate time balance.amount s)) [
                    | inr (e, fails) ↦ absurd (ground arith)
                    | inl ((_, s₁), done) ↦
                        elim (Result-cases (get_finished_amount info.sender s₁)) [
                          | inr (e, fails) ↦ absurd (ground arith)
                          | inl ((a, ks), finished) ↦ elim (Option-cases s₁.state) [
                            | inl missing ↦ absurd (ground arith)
                            | inr (st, state) ↦
                                let (amount, ids) =
                                  get_finished_amount_lem info.sender s₁ a ks finished in
                                let bucket : s'.wait info.sender
                                    ≡ remove_batches chain (released_ids s₁ (s₁.wait info.sender))
                                        (s₁.wait info.sender) =
                                  ground (arith, str_eq_iff info.sender info.sender) in
                                record {
                                  balance = balance;
                                  released = s₁;
                                  processed =
                                      rw
                                        (← (sub_or_panic_ok env.block_seconds p.unbonding_period
                                          time past).1)
                                        done;
                                  found = rw (amount, ids) at finished;
                                  asked = asked;
                                  paid = ground arith;
                                  some_coins = ground arith;
                                  covered = ground arith;
                                  dropped = λ k r. rw bucket (
                                      (lookup-remove_released chain s₁ k (s₁.wait info.sender)).0
                                        r);
                                  kept = λ k r. rw bucket (
                                      (lookup-remove_released chain s₁ k (s₁.wait info.sender)).1
                                        r);
                                  bucket = bucket;
                                  other_users = λ u ne. ground (arith, str_eq_iff info.sender u);
                                  same_history = ground arith;
                                  noted = (st, state, ground arith);
                                }
                          ]
                        ]
                  ]
            ]
      ]

  -- After a withdrawal that succeeds, the user's wait list is worth nothing until another batch is
  -- released: no batch is paid twice.
  pub execute_withdraw_unbonded_once :
      (chain : Chain) (env : Env) (info : MessageInfo) (p : Parameters) (s s' : Store)
      (r : Response)
      → s.parameters ≡ some p
      → execute_withdraw_unbonded chain env info s ≡ ok (r, s')
      → get_finished_amount info.sender s' ≡ ok (0, [])
  unfolding get_finished_amount
  execute_withdraw_unbonded_once chain env info p s s' r params h =
      let w = execute_withdraw_unbonded-Withdrawn chain env info p s s' r params h in
      finished_loop_pending s' chain.wait_before (s'.wait info.sender) (0, [])
        (λ k some_rate. w.dropped k (rw w.same_history at some_rate))
