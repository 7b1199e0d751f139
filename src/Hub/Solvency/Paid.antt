-- ===== src/Hub/Solvency/Paid.antt =====
-- When a withdrawal pays, and when it does not, from what is known before it.
use native.Mathlib.Nat.{mul-le-mul, mul-le-mul_right}
use Prim.Native.String
use jullia_lp_staking.Base.{
  ℕ, zero, suc, ◌+◌, ◌-◌, ◌*◌, ◌≤◌, ◌<◌, ◌≡◌, ap, ◌∙◌, Failure, String, [], ◌∷◌, some, ok, err,
  generic_err, arith, Bool-cases, inl, inr, false, ◌⊎◌, ◌==◌,
}
use jullia_lp_staking.Cosmwasm.Uint.{u64_mod, sub_or_panic}
use jullia_lp_staking.Cosmwasm.Decimal.{Decimals, decimal_one}
use jullia_lp_staking.Cosmwasm.Types.{Coin, Env, MessageInfo}
use jullia_lp_staking.Basset.{State, CurrentBatch, Parameters, paused}
use jullia_lp_staking.Messages.{CosmosMsg, Response}
use jullia_lp_staking.Hub.Store.{Store, Chain}
use jullia_lp_staking.Hub.Lists.{finished_loop, get_finished_amount}
use jullia_lp_staking.Hub.Withdraw.{process_withdraw_rate, execute_withdraw_unbonded}
use jullia_lp_staking.Hub.Released.{process_withdraw_rate-Released}
use jullia_lp_staking.Hub.Payout.{payout, released_ids}
use jullia_lp_staking.Hub.Claimable.{finished_loop_fits}
use jullia_lp_staking.Hub.Queue.{QueueIsValid}
use jullia_lp_staking.Hub.Queue.Steps.{process_withdraw_rate-QueueIsValid}
use jullia_lp_staking.Hub.Frames.{process_withdraw_rate-store}
use jullia_lp_staking.Hub.Book.Reach.{Reached-QueueIsValid}
use jullia_lp_staking.Hub.Solvency.Release.{worths, Valued}
use jullia_lp_staking.Hub.Solvency.Dues.{Funding}
use jullia_lp_staking.Hub.Solvency.Funded.{Funded, Funded-Reached, Funded-execute_withdraw_unbonded}
use jullia_lp_staking.Hub.Progress.Loops.{worths_le, process_withdraw_rate_succeeds}

-- What the hub says to a user to whom nothing is due.
abbrev pub no_assets : String → Failure
no_assets coin_denom =
    generic_err
      (String.◌++◌ "No withdrawable " (String.◌++◌ coin_denom " assets are available yet"))

module _ ⦃num : Decimals⦄ where
  -- The batches that are not released, and the one that collects requests, before a withdrawal: coins have
  -- come since the last one, each due batch is worth something, and all of them together, once for each
  -- batch, are worth less than `decimal_one`.
  pub record Ready (time balance : ℕ) (s : Store) (st : State) (b : CurrentBatch) : Type 0 where
    pub loaded : s.state ≡ some st
    pub collecting : s.current_batch ≡ some b
    pub ids : b.id < u64_mod
    pub word : balance < u64_mod
    pub grown : st.prev_hub_balance < balance
    pub valued : Valued time (st.last_processed_batch + 1) s
    pub few :
        (b.id - (st.last_processed_batch + 1))
          * worths (b.id - (st.last_processed_batch + 1)) (st.last_processed_batch + 1) s
        < decimal_one

  small_if_few :
      (n : ℕ) (s : Store) (i : ℕ) → n * worths n i s < decimal_one → worths n i s < u64_mod
  small_if_few zero s i few = omega arith
  small_if_few (suc n) s i few =
      let least : 1 * worths (suc n) i s ≤ suc n * worths (suc n) i s =
        mul-le-mul_right (worths (suc n) i s) (omega arith) in
      omega (arith, least, few)

  -- A release leaves the batches before the current one, so it pays for no more than those.
  Ready-Funding :
      (time balance : ℕ) (s s' : Store) (st st' : State) (b : CurrentBatch)
      → QueueIsValid s
      → Ready time balance s st b
      → process_withdraw_rate time balance s ≡ ok (tt, s')
      → s'.state ≡ some st'
      → Funding time balance s st st'
  Ready-Funding time balance s s' st st' b v ready h stored =
      let v' = process_withdraw_rate-QueueIsValid time balance s s' h v in
      let frame = process_withdraw_rate-store time balance s s' h in
      let last' : v'.last ≡ st'.last_processed_batch = ground (arith, v'.has_last) in
      let current : v'.current ≡ b.id = ground (arith, v'.has_current, ready.collecting) in
      let m = st'.last_processed_batch - st.last_processed_batch in
      let n = b.id - (st.last_processed_batch + 1) in
      let i = st.last_processed_batch + 1 in
      let le : m ≤ n = omega (arith, v'.behind) in
      let less : worths m i s - (balance - st.prev_hub_balance) ≤ worths n i s =
        omega (arith, worths_le m n i s le) in
      let product = mul-le-mul le less in
      record {
        grown = omega (arith, ready.grown);
        arrived = λ more. ready.grown;
        valued = ready.valued;
        few = omega (arith, product, ready.few);
      }

  -- Where nothing is due to the user, a withdrawal fails and says so.
  execute_withdraw_unbonded_refuses :
      (chain : Chain) (env : Env) (info : MessageInfo) (p : Parameters) (balance : Coin)
      (s s₁ : Store)
      → s.parameters ≡ some p
      → paused p ≡ false
      → p.unbonding_period ≤ env.block_seconds
      → chain.query_balance env.contract_address p.underlying_coin_denom ≡ ok balance
      → process_withdraw_rate (env.block_seconds - p.unbonding_period) balance.amount s
        ≡ ok (tt, s₁)
      → payout s₁ (s₁.wait info.sender) ≡ 0
      → execute_withdraw_unbonded chain env info s ≡ err (no_assets p.underlying_coin_denom)
  unfolding execute_withdraw_unbonded get_finished_amount sub_or_panic
  execute_withdraw_unbonded_refuses chain env info p balance s s₁ params active past asked processed
        nothing =
      let bucket = s₁.wait info.sender in
      let finished : finished_loop s₁ bucket (0, []) ≡ ok (0, released_ids s₁ bucket) =
        finished_loop_fits s₁ bucket 0 [] (omega arith)
        ∙ ap (λ n. ok (n, released_ids s₁ bucket)) (omega arith) in
      ground (arith, finished)

  -- In every such storage, where the hub is not paused, the unbonding period is not longer than the time of
  -- the block, coins have come since the last withdrawal, each due
  -- batch is worth something, all pending batches together, once for each, are worth less than 10 ^ 18, and
  -- the balance and the id of the current batch are within 64 bits, the release of due batches succeeds;
  -- and a withdrawal then either has nothing to pay, and says so, or succeeds and sends what the claims of
  -- the user are worth.
  pub Funded-pays :
      (chain : Chain) (env : Env) (info : MessageInfo) (p : Parameters) (balance : Coin) (s : Store)
      (st : State) (b : CurrentBatch)
      → Funded s
      → s.parameters ≡ some p
      → paused p ≡ false
      → p.unbonding_period ≤ env.block_seconds
      → chain.query_balance env.contract_address p.underlying_coin_denom ≡ ok balance
      → Ready (env.block_seconds - p.unbonding_period) balance.amount s st b
      → (s₁ : Store) × (process_withdraw_rate
            (env.block_seconds - p.unbonding_period)
            balance.amount
            s
          ≡ ok (tt, s₁))
        × (((payout s₁ (s₁.wait info.sender) ≡ 0)
              × (execute_withdraw_unbonded chain env info s
                  ≡ err (no_assets p.underlying_coin_denom)))
            ⊎ ((0 < payout s₁ (s₁.wait info.sender))
                × (r : Response) × (s' : Store) × (execute_withdraw_unbonded chain env info s
                    ≡ ok (r, s'))
                × (r.messages
                    ≡ CosmosMsg.bank_send info.sender (
                        record {
                          denom = p.underlying_coin_denom;
                          amount = payout s₁ (s₁.wait info.sender);
                        }
                        ∷ [])
                      ∷ [])))
  Funded-pays chain env info p balance s st b funded params active past asked ready =
      let v = Reached-QueueIsValid (Funded-Reached funded) in
      let time = env.block_seconds - p.unbonding_period in
      let small = small_if_few _ s _ ready.few in
      let (s₁, processed) =
        process_withdraw_rate_succeeds time balance.amount s st b v ready.loaded ready.collecting
          ready.ids small ready.word (omega (arith, ready.grown, ready.word)) in
      let (st', stored, at) =
        (process_withdraw_rate-Released time balance.amount s s₁ st ready.loaded
          processed).stored in
      let f = Ready-Funding time balance.amount s s₁ st st' b v ready processed stored in
      (
        s₁,
        processed,
        elim (Bool-cases (payout s₁ (s₁.wait info.sender) == 0)) [
          | inl nothing ↦
              let e : payout s₁ (s₁.wait info.sender) ≡ 0 = ground arith in
              inl (
                e,
                execute_withdraw_unbonded_refuses chain env info p balance s s₁ params active past
                    asked processed e,
              )
          | inr something ↦
              let e : 0 < payout s₁ (s₁.wait info.sender) = ground arith in
              let (r, s', succeeds, sent) =
                Funded-execute_withdraw_unbonded chain env info p balance s s₁ st st' funded params
                  active past asked (omega (arith, ready.word)) processed ready.loaded stored f e in
              inr (e, r, s', succeeds, sent)
        ],
      )
