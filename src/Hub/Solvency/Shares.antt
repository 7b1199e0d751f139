-- ===== src/Hub/Solvency/Shares.antt =====
-- `process_withdraw_rate`, batch by batch: what each released batch keeps of the coins that arrived.
use jullia_lp_staking.Base.{
  ℕ, zero, suc, ◌+◌, ◌-◌, ◌*◌, ◌≤◌, ◌<◌, ◌≡◌, refl, arith, ok, some, ltb, ◌==◌, min, Result-cases,
  Option-cases, Bool-cases, inl, inr,
}
use jullia_lp_staking.Cosmwasm.Uint.{add_u64}
use jullia_lp_staking.Cosmwasm.Decimal.{Decimals, decimal_one}
use jullia_lp_staking.Basset.{State, UnbondHistory}
use jullia_lp_staking.SignedInt.{SignedInt, from_subtraction}
use jullia_lp_staking.Hub.Store.{Store}
use jullia_lp_staking.Hub.Lists.{store_unbond_history}
use jullia_lp_staking.Hub.Rates.{calculate_new_withdraw_rate}
use jullia_lp_staking.Hub.Withdraw.{
  unprocessed, release, release_loop, calculate_newly_added_unbonded_amount, history_fuel,
  process_withdraw_rate,
}
use jullia_lp_staking.Hub.Release.{
  batch, batch-store, release_loop-Releases, Releases-others, add_u64_ok, unprocessed-due,
}
use jullia_lp_staking.Hub.Released.{process_withdraw_rate_releases}
use jullia_lp_staking.Hub.Solvency.Fair.{calculate_new_withdraw_rate_fair}
use jullia_lp_staking.Hub.Solvency.Process.{calculate_newly_added_unbonded_amount-worths}
use jullia_lp_staking.Hub.Solvency.Release.{batch_apart, batch_worth, worths}

from_subtraction_magnitude :
    (a b : ℕ) (d : SignedInt) → b ≤ a → from_subtraction a b ≡ ok d → d.magnitude ≡ a - b
unfolding from_subtraction
from_subtraction_magnitude a b d le h = ground arith

module _ ⦃num : Decimals⦄ where
  -- A batch that a release passes, and its new rate.
  record Rated (k total : ℕ) (slashed : SignedInt) (s s' : Store) : Type 0 where
    pub entry : UnbondHistory
    pub rate : ℕ
    pub before : batch k s ≡ some entry
    pub computed :
        calculate_new_withdraw_rate entry.statom_amount entry.statom_withdraw_rate total slashed
        ≡ ok rate
    pub after : batch k s' ≡ some (release entry rate)

  -- The second loop computes the rate of each batch from the same total and the same difference.
  release_loop-Rated :
      (fuel time total : ℕ) (slashed : SignedInt) (i last last' : ℕ) (s s' : Store) (k : ℕ)
      → i ≡ last + 1
      → release_loop fuel time total slashed i last s ≡ ok (last', s')
      → last < k
      → k ≤ last'
      → Rated k total slashed s s'
  unfolding release_loop
  release_loop-Rated zero time total slashed i last last' s s' k at h lo hi = absurd (cc)
  release_loop-Rated (suc fuel) time total slashed i last last' s s' k at h lo hi =
      elim (Option-cases (unprocessed time i s)) [
        | inl end ↦ let e : last ≡ last' = ground arith in absurd (omega arith)
        | inr (b, here) ↦
            elim (Result-cases
              (calculate_new_withdraw_rate b.statom_amount b.statom_withdraw_rate total slashed)) [
                | inr (f, fails) ↦ absurd (ground arith)
                | inl (rate, computed) ↦ elim (Result-cases (add_u64 i 1)) [
                  | inr (f, fails) ↦ absurd (ground arith)
                  | inl (j, sum) ↦
                      let j_lem : j ≡ i + 1 = add_u64_ok i 1 j sum in
                      let s₁ = store_unbond_history i (release b rate) s in
                      let rest : release_loop fuel time total slashed (i + 1) i s₁
                          ≡ ok (last', s') =
                        ground (arith, j_lem) in
                      let r =
                        release_loop-Releases fuel time total slashed (i + 1) i last' s₁ s' rest in
                      elim (Bool-cases (i == k)) [
                        | inl first ↦
                            let e : i ≡ k = ground arith in
                            rw (← e) (record {
                              entry = b;
                              rate = rate;
                              before = (unprocessed-due time i s b here).0;
                              computed = computed;
                              after = ground (
                                arith,
                                Releases-others i refl r,
                                batch-store i i (release b rate) s,
                              );
                            })
                        | inr later ↦
                            let above : i < k = ground arith in
                            let w =
                              release_loop-Rated fuel time total slashed (i + 1) i last' s₁ s' k
                                refl rest above hi in
                            record {
                              entry = w.entry;
                              rate = w.rate;
                              before = rw (batch_apart i k (release b rate) s above) at w.before;
                              computed = w.computed;
                              after = w.after;
                            }
                      ]
                ]
              ]
      ]

  -- Where the balance has not shrunk, each batch that a call releases is worth at its new rate at least its
  -- share of the coins that arrived, as far as they were due, but for two coins and a smallest fraction of
  -- a coin for each token of the batch.
  pub process_withdraw_rate_fair :
      (time balance : ℕ) (s s' : Store) (st st' : State) (k : ℕ) (h : UnbondHistory)
      → s.state ≡ some st
      → s'.state ≡ some st'
      → st.prev_hub_balance ≤ balance
      → process_withdraw_rate time balance s ≡ ok (tt, s')
      → st.last_processed_batch < k
      → k ≤ st'.last_processed_batch
      → batch k s ≡ some h
      → batch_worth (batch k s)
          * min (balance - st.prev_hub_balance) (
              worths
                (st'.last_processed_batch - st.last_processed_batch)
                (st.last_processed_batch + 1)
                s)
          * decimal_one
        ≤ ((batch_worth (batch k s') + 2) * decimal_one + h.statom_amount)
          * worths
              (st'.last_processed_batch - st.last_processed_batch)
              (st.last_processed_batch + 1)
              s
  unfolding process_withdraw_rate calculate_newly_added_unbonded_amount
  process_withdraw_rate_fair time balance s s' st st' k h loaded stored grown succeeds lo hi found =
      elim (Result-cases (calculate_newly_added_unbonded_amount st.last_processed_batch time s)) [
        | inr (e, fails) ↦ absurd (ground arith)
        | inl ((total, count), counted) ↦ elim (Result-cases (add_u64 st.last_processed_batch 1)) [
          | inr (e, fails) ↦ absurd (ground arith)
          | inl (i, next) ↦
              let i_lem = add_u64_ok st.last_processed_batch 1 i next in
              elim (Bool-cases (ltb count 1)) [
                | inl few ↦ absurd (ground arith)
                | inr some_due ↦
                    let (t, slashed, last, s₁, new, runs, whole, (d, change, split)) =
                      process_withdraw_rate_releases time balance s s' st total count i loaded
                        counted next some_due succeeds in
                    let last_lem : last ≡ st'.last_processed_batch = ground arith in
                    let arrived =
                      from_subtraction_magnitude balance st.prev_hub_balance d grown change in
                    let w =
                      release_loop-Rated (history_fuel s) time total slashed i
                        st.last_processed_batch last s s₁ k i_lem runs lo
                        (omega (arith, last_lem)) in
                    let r =
                      release_loop-Releases (history_fuel s) time total slashed
                        (st.last_processed_batch + 1) st.last_processed_batch last s s₁
                        (rw i_lem at runs) in
                    let sum = rw last_lem at (
                      calculate_newly_added_unbonded_amount-worths time st.last_processed_batch last
                        total count s s₁ r counted) in
                    let same : w.entry ≡ h = ground (arith, w.before) in
                    let after : batch k s' ≡ some (release w.entry w.rate) =
                      ground (arith, w.after) in
                    let came = min (balance - st.prev_hub_balance) total in
                    let bound =
                      calculate_new_withdraw_rate_fair w.entry.statom_amount
                        w.entry.statom_withdraw_rate total (balance - st.prev_hub_balance) came
                        w.rate slashed (omega arith) (omega arith) (rw arrived at split)
                        w.computed in
                    rw (w.before, after, ← same, ← sum) bound
              ]
        ]
      ]
