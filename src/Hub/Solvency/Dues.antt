-- ===== src/Hub/Solvency/Dues.antt =====
-- What `get_finished_amount` finds for all users together, before and after a release.
use jullia_lp_staking.Base.{
  ℕ, zero, suc, ◌+◌, ◌-◌, ◌*◌, ◌≤◌, ◌<◌, ◌≡◌, refl, String, List, true, some, ok, arith, ltb,
  ltb→lt, Bool-cases, inl, inr,
}
use jullia_lp_staking.Base.Maps.{lookup}
use jullia_lp_staking.Base.Keys.{u64_key}
use jullia_lp_staking.Cosmwasm.Decimal.{Decimals, decimal_one}
use jullia_lp_staking.Basset.{State}
use jullia_lp_staking.Hub.Store.{Store}
use jullia_lp_staking.Hub.Lists.{Bucket}
use jullia_lp_staking.Hub.Withdraw.{process_withdraw_rate}
use jullia_lp_staking.Hub.Release.{batch}
use jullia_lp_staking.Hub.Released.{Released, process_withdraw_rate-Released}
use jullia_lp_staking.Hub.Payout.{rate_of, payout}
use jullia_lp_staking.Hub.Buckets.{BucketsOnce, by_batch, payout-by_batch}
use jullia_lp_staking.Hub.Queue.{QueueIsValid}
use jullia_lp_staking.Hub.Queue.Steps.{process_withdraw_rate-QueueIsValid}
use jullia_lp_staking.Hub.Frames.{process_withdraw_rate-store}
use jullia_lp_staking.Hub.Book.{distinct}
use jullia_lp_staking.Hub.Book.Users.{total, total_add, total-congr}
use jullia_lp_staking.Hub.Book.Views.{waiting, claim_of}
use jullia_lp_staking.Hub.Book.Withdrawals.{rate_of-QueueIsValid}
use jullia_lp_staking.Hub.Book.Reach.{Reached, Reached-QueueIsValid}
use jullia_lp_staking.Hub.Solvency.Release.{worths, Valued}
use jullia_lp_staking.Hub.Solvency.Claims.{total_zero, process_withdraw_rate_covers_claims}

-- What a user may withdraw at once.
abbrev pub dues : Store → String → ℕ
dues s a = payout s (s.wait a)

dues-by_batch :
    (s : Store) (v : QueueIsValid s) (a : String)
    → BucketsOnce s
    → dues s a ≡ by_batch v.last 1 s (s.wait a)
dues-by_batch s v a once =
    payout-by_batch v.last 1 s (s.wait a)
      (λ k out.
        (rate_of-QueueIsValid s v k).1
          (elim out [ inl first ↦ inl (omega arith) | inr above ↦ inr (omega arith) ]))
      (once a)

by_batch-cong :
    (n i : ℕ) (s s' : Store) (b b' : Bucket)
    → ((k : ℕ)
        → i ≤ k
        → k < i + n
        → (rate_of k s ≡ rate_of k s')
          × (waiting (lookup u64_key k b) ≡ waiting (lookup u64_key k b')))
    → by_batch n i s b ≡ by_batch n i s' b'
by_batch-cong zero i s s' b b' same = refl
by_batch-cong (suc n) i s s' b b' same =
    let (rate, amount) = same i (omega arith) (omega arith) in
    rw
      (
        rate,
        amount,
        by_batch-cong n (i + 1) s s' b b' (λ k lo hi. same k (omega arith) (omega arith)),
      )
      refl

-- What is due depends on the released batches and on the claims on them.
pub dues-same :
    (s s' : Store) (v : QueueIsValid s) (v' : QueueIsValid s') (a : String)
    → v'.last ≡ v.last
    → BucketsOnce s
    → BucketsOnce s'
    → ((k : ℕ) → k ≤ v.last → batch k s' ≡ batch k s)
    → ((k : ℕ) → k ≤ v.last → claim_of s' a k ≡ claim_of s a k)
    → dues s' a ≡ dues s a
dues-same s s' v v' a last once once' batches claims =
    let after : dues s' a ≡ by_batch v.last 1 s' (s'.wait a) =
      rw (← last) (dues-by_batch s' v' a once') in
    let same =
      by_batch-cong v.last 1 s' s (s'.wait a) (s.wait a)
        λ k lo hi. (rw (batches k (omega arith)) refl, claims k (omega arith)) in
    omega (arith, after, same, dues-by_batch s v a once)

by_batch_split :
    (m n i : ℕ) (s : Store) (b : Bucket)
    → by_batch (m + n) i s b ≡ by_batch m i s b + by_batch n (i + m) s b
by_batch_split zero n i s b =
    let e₁ : 0 + n ≡ n = omega arith in
    let e₂ : i + 0 ≡ i = omega arith in rw (e₁, e₂) (omega arith)
by_batch_split (suc m) n i s b =
    let e₁ : suc m + n ≡ suc (m + n) = omega arith in
    let e₂ : i + suc m ≡ i + 1 + m = omega arith in
    rw (e₁, e₂) (omega (arith, by_batch_split m n (i + 1) s b))

-- After a release, a user may withdraw what was due before, and the share in the batches released now.
Released-dues :
    {time : ℕ} {s s' : Store} {st : State} (r : Released time s s' st) (v : QueueIsValid s)
    (v' : QueueIsValid s') (u : String)
    → BucketsOnce s
    → s'.wait ≡ s.wait
    → v.last ≡ st.last_processed_batch
    → v'.last ≡ r.last
    → dues s' u
      ≡ dues s u
        + by_batch (r.last - st.last_processed_batch) (st.last_processed_batch + 1) s' (s'.wait u)
Released-dues {time} {s} {s'} {st} r v v' u once same_wait at at' =
    let last = st.last_processed_batch in
    let once' : BucketsOnce s' = λ a. rw same_wait (once a) in
    let count : v'.last ≡ last + (r.last - last) = omega (arith, r.forward) in
    let old : by_batch last 1 s' (s'.wait u) ≡ by_batch last 1 s (s.wait u) =
      by_batch-cong last 1 s' s (s'.wait u) (s.wait u)
        λ k lo hi. (rw (r.others k (inl (omega arith))) refl, rw same_wait refl) in
    let after : dues s' u ≡ by_batch (last + (r.last - last)) 1 s' (s'.wait u) =
      rw (← count) (dues-by_batch s' v' u once') in
    let before : dues s u ≡ by_batch last 1 s (s.wait u) = rw (← at) (dues-by_batch s v u once) in
    let next : 1 + last ≡ last + 1 = omega arith in
    let parts = rw next at (by_batch_split last (r.last - last) 1 s' (s'.wait u)) in
    omega (arith, after, before, old, parts)

within : (owed coins excess c : ℕ) → owed * c ≤ coins * c + excess → excess < c → owed ≤ coins
within owed coins excess c bound few = grind arith

module _ ⦃num : Decimals⦄ where
  -- The state `st` before a release and `st'` after it, and what the bank has done since the last
  -- withdrawal: coins have only come; where a batch is released, some have come; each due batch is worth
  -- something; and the missing coins, once for each batch, are less than `decimal_one`.
  pub record Funding (time balance : ℕ) (s : Store) (st st' : State) : Type 0 where
    pub grown : st.prev_hub_balance ≤ balance
    pub arrived : st.last_processed_batch < st'.last_processed_batch → st.prev_hub_balance < balance
    pub valued : Valued time (st.last_processed_batch + 1) s
    pub few :
        (st'.last_processed_batch - st.last_processed_batch)
          * (worths
                (st'.last_processed_batch - st.last_processed_batch)
                (st.last_processed_batch + 1)
                s
              - (balance - st.prev_hub_balance))
        < decimal_one

  -- What users may withdraw grows by no more than the coins that arrived.
  pub process_withdraw_rate-dues :
      (time balance : ℕ) (s s' : Store) (st st' : State) (users : List String)
      → Reached s
      → BucketsOnce s
      → s.state ≡ some st
      → s'.state ≡ some st'
      → Funding time balance s st st'
      → distinct users ≡ true
      → process_withdraw_rate time balance s ≡ ok (tt, s')
      → total (dues s') users ≤ total (dues s) users + (balance - st.prev_hub_balance)
  process_withdraw_rate-dues time balance s s' st st' users reached once loaded stored f different
        h =
      let r = process_withdraw_rate-Released time balance s s' st loaded h in
      let v = Reached-QueueIsValid reached in
      let v' = process_withdraw_rate-QueueIsValid time balance s s' h v in
      let frame = process_withdraw_rate-store time balance s s' h in
      let same_wait : s'.wait ≡ s.wait = ground (arith, frame) in
      let last : v.last ≡ st.last_processed_batch = ground (arith, v.has_last) in
      let last' : v'.last ≡ r.last = ground (arith, v'.has_last, r.stored) in
      let here : r.last ≡ st'.last_processed_batch = ground (arith, r.stored) in
      let n = st'.last_processed_batch - st.last_processed_batch in
      let new = λ (u : String). by_batch n (st.last_processed_batch + 1) s' (s'.wait u) in
      let split : total (dues s') users ≡ total (λ u. dues s u + new u) users =
        total-congr (dues s') (λ u. dues s u + new u) users
          λ u. rw (← here) (Released-dues r v v' u once same_wait last last') in
      let sum = total_add (dues s) new users in
      elim (Bool-cases (ltb st.last_processed_batch st'.last_processed_batch)) [
        | inr none_now ↦
            let nothing : n ≡ 0 = ground arith in
            let empty = total-congr new (λ u. 0) users λ u. rw nothing refl in
            omega (arith, split, sum, empty, total_zero users)
        | inl some_now ↦
            let covers =
              process_withdraw_rate_covers_claims time balance s s' st st' users reached loaded
                stored (f.arrived (ltb→lt _ _ some_now)) f.valued different h in
            let bound =
              within (total new users) (balance - st.prev_hub_balance) _ decimal_one covers f.few in
            omega (arith, split, sum, bound)
      ]
