-- ===== src/Hub/Solvency/Process.antt =====
-- `process_withdraw_rate` as a whole: what the released batches are worth together, against the coins that
-- arrived since the last withdrawal.
use native.Mathlib.Nat.{le_of_mul-le-mul_right}
use jullia_lp_staking.Base.{
  ℕ, suc, ◌+◌, ◌-◌, ◌*◌, ◌≤◌, ◌<◌, ◌≡◌, refl, arith, ok, none, some, false, Result-cases,
  Bool-cases, inl, inr, ltb, ltb→lt,
}
use jullia_lp_staking.Cosmwasm.Uint.{add_u64}
use jullia_lp_staking.Cosmwasm.Decimal.{Decimals, decimal_one}
use jullia_lp_staking.Basset.{State, UnbondHistory}
use jullia_lp_staking.SignedInt.{SignedInt, from_subtraction}
use jullia_lp_staking.Hub.Store.{Store}
use jullia_lp_staking.Hub.Lists.{read_unbond_history}
use jullia_lp_staking.Hub.Withdraw.{
  unprocessed, newly_added_loop, calculate_newly_added_unbonded_amount, release_loop, history_fuel,
  process_withdraw_rate,
}
use jullia_lp_staking.Hub.Release.{
  batch, Releases, release_loop-Releases, Releases-le, Releases-others, Releases-each, Releases-end,
  add_u64_ok,
}
use jullia_lp_staking.Hub.Released.{process_withdraw_rate_releases}
use jullia_lp_staking.Hub.Solvency.Release.{
  worths, worths-cong, Valued, unprocessed-cong, newly_added_loop-worths, release_loop-share,
}

-- A batch that is stored, due and not released is one to process.
due_unprocessed :
    (time k : ℕ) (s : Store) (h : UnbondHistory)
    → batch k s ≡ some h
    → h.time ≤ time
    → h.released ≡ false
    → unprocessed time k s ≡ some h
unfolding unprocessed read_unbond_history
due_unprocessed time k s h stored due fresh = ground arith

from_subtraction_less :
    (a b : ℕ) (d : SignedInt) → b < a → from_subtraction a b ≡ ok d → d.magnitude ≡ a - b
unfolding from_subtraction
from_subtraction_less a b d less h = ground arith

mul-cancel_le :
    (p a total c n m : ℕ)
    → 0 < total
    → p * total * c ≤ total * a * c + n * (m * total)
    → p * c ≤ a * c + n * m
mul-cancel_le p a total c n m pos h =
    let e : (p * c) * total ≤ (a * c + n * m) * total = grind (arith, h) in
    le_of_mul-le-mul_right e pos

module _ ⦃num : Decimals⦄ where
  -- The batches that the first loop counts are those that the second one releases.
  pub calculate_newly_added_unbonded_amount-worths :
      (time last last' total count : ℕ) (s s₁ : Store)
      → Releases time last' s₁ (last + 1) last s
      → calculate_newly_added_unbonded_amount last time s ≡ ok (total, count)
      → total ≡ worths (last' - last) (last + 1) s
  unfolding calculate_newly_added_unbonded_amount
  calculate_newly_added_unbonded_amount-worths time last last' total count s s₁ r counted =
      elim (Result-cases (add_u64 last 1)) [
        | inr (e, fails) ↦ absurd (ground arith)
        | inl (i, next) ↦
            let i_lem = add_u64_ok last 1 i next in
            let runs : newly_added_loop (history_fuel s) time (last + 1) s 0 0 ≡ ok (total, count) =
              ground (arith, i_lem) in
            let stop : last + 1 + (last' - last) ≡ last' + 1 = omega (arith, Releases-le refl r) in
            let end : unprocessed time (last + 1 + (last' - last)) s ≡ none =
              rw
                (
                  stop,
                  ← unprocessed-cong time (last' + 1) s₁ s
                      (Releases-others (last' + 1) refl r (inr (omega arith))),
                )
                (Releases-end refl r) in
            let sum =
              newly_added_loop-worths (history_fuel s) time (last' - last) (last + 1) s 0 0 total
                count
                (λ k lo hi.
                  let w = Releases-each k refl r (omega arith) (omega arith) in
                  (w.0, due_unprocessed time k s w.0 w.2 w.3 w.4))
                end runs in
            omega (arith, sum)
      ]

  -- Where at least one batch is released, something is due.
  worths_above_zero :
      (time last last' : ℕ) (s s₁ : Store)
      → Releases time last' s₁ (last + 1) last s
      → Valued time (last + 1) s
      → last < last'
      → 0 < worths (last' - last) (last + 1) s
  worths_above_zero time last last' s s₁ r valued more =
      let count : last' - last ≡ suc (last' - last - 1) = omega arith in
      let (h, rate, stored, due, fresh, after) =
        Releases-each (last + 1) refl r (omega arith) (omega arith) in
      let some_worth =
        valued (last + 1) h (omega arith) (due_unprocessed time (last + 1) s h stored due fresh) in
      rw (count, stored) (omega (arith, some_worth))

  -- The release of `release_loop` out of the total of the first loop.
  release_loop-solvent :
      (time total count arrived last last' : ℕ) (slashed : SignedInt) (s s₁ : Store)
      → calculate_newly_added_unbonded_amount last time s ≡ ok (total, count)
      → from_subtraction total arrived ≡ ok slashed
      → 0 < arrived
      → Valued time (last + 1) s
      → release_loop (history_fuel s) time total slashed (last + 1) last s ≡ ok (last', s₁)
      → worths (last' - last) (last + 1) s₁ * decimal_one
        ≤ arrived * decimal_one + (last' - last) * (worths (last' - last) (last + 1) s - arrived)
  release_loop-solvent time total count arrived last last' slashed s s₁ counted split come valued
        runs =
      let r =
        release_loop-Releases (history_fuel s) time total slashed (last + 1) last last' s s₁ runs in
      let sum =
        calculate_newly_added_unbonded_amount-worths time last last' total count s s₁ r counted in
      elim (Bool-cases (ltb last last')) [
        | inr same ↦ let none_left : last' - last ≡ 0 = ground arith in rw none_left (omega arith)
        | inl more ↦
            let due : 0 < total =
              rw sum (worths_above_zero time last last' s s₁ r valued (ltb→lt _ _ more)) in
            let share =
              release_loop-share (history_fuel s) time total arrived slashed (last + 1) last last' s
                s₁ split due come refl valued runs in
            rw (← sum) (mul-cancel_le _ arrived total decimal_one _ _ due (rw (← sum) at share))
      ]

  -- A call of `process_withdraw_rate` that succeeds, with a larger balance than after the last withdrawal
  -- and due batches that are each worth something: the batches that it releases are together worth at
  -- most the coins that arrived, and, for each batch, the missing coins as a number of smallest
  -- fractions of a coin.
  pub process_withdraw_rate_solvent :
      (time balance : ℕ) (s s' : Store) (st st' : State)
      → s.state ≡ some st
      → s'.state ≡ some st'
      → st.prev_hub_balance < balance
      → Valued time (st.last_processed_batch + 1) s
      → process_withdraw_rate time balance s ≡ ok (tt, s')
      → worths (st'.last_processed_batch - st.last_processed_batch) (st.last_processed_batch + 1) s'
          * decimal_one
        ≤ (balance - st.prev_hub_balance) * decimal_one
          + (st'.last_processed_batch - st.last_processed_batch)
            * (worths
                  (st'.last_processed_batch - st.last_processed_batch)
                  (st.last_processed_batch + 1)
                  s
                - (balance - st.prev_hub_balance))
  unfolding process_withdraw_rate calculate_newly_added_unbonded_amount
  process_withdraw_rate_solvent time balance s s' st st' loaded stored grown valued h =
      elim (Result-cases (calculate_newly_added_unbonded_amount st.last_processed_batch time s)) [
        | inr (e, fails) ↦ absurd (ground arith)
        | inl ((total, count), counted) ↦ elim (Result-cases (add_u64 st.last_processed_batch 1)) [
          | inr (e, fails) ↦ absurd (ground arith)
          | inl (i, next) ↦
              let i_lem = add_u64_ok st.last_processed_batch 1 i next in
              elim (Bool-cases (ltb count 1)) [
                | inl few ↦
                    let same : s' ≡ s = ground arith in
                    let kept : st'.last_processed_batch - st.last_processed_batch ≡ 0 =
                      ground arith in
                    rw kept (omega arith)
                | inr some_due ↦
                    let (t, slashed, last, s₁, new, runs, whole, (d, change, split)) =
                      process_withdraw_rate_releases time balance s s' st total count i loaded
                        counted next some_due h in
                    let last_lem : st'.last_processed_batch ≡ last = ground arith in
                    let arrived =
                      from_subtraction_less balance st.prev_hub_balance d grown change in
                    let bound =
                      release_loop-solvent time total count (balance - st.prev_hub_balance)
                        st.last_processed_batch last slashed s s₁ counted (rw arrived at split)
                        (omega arith) valued (rw i_lem at runs) in
                    let same =
                      worths-cong (last - st.last_processed_batch) (st.last_processed_batch + 1) s'
                        s₁ λ k le. rw new refl in
                    rw (last_lem, same) bound
              ]
        ]
      ]
