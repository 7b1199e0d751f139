-- ===== src/Hub/Progress/Loops.antt =====
-- Both loops of `process_withdraw_rate` on batches that are together worth less than 2 ^ 64.
use jullia_lp_staking.Base.{
  ℕ, zero, suc, ◌+◌, ◌-◌, ◌≤◌, ◌<◌, ◌≡◌, refl, arith, none, some, ok, ltb, Bool-cases, Option-cases,
  Result-cases, inl, inr,
}
use jullia_lp_staking.Cosmwasm.Uint.{u64_mod, add_u64_fits, add_u256_fits, to_u128_fits}
use jullia_lp_staking.Cosmwasm.Decimal.{Decimals}
use jullia_lp_staking.SignedInt.{SignedInt, from_subtraction, from_subtraction_difference}
use jullia_lp_staking.Basset.{State, CurrentBatch}
use jullia_lp_staking.Hub.Store.{Store}
use jullia_lp_staking.Hub.Lists.{store_unbond_history, read_unbond_history}
use jullia_lp_staking.Hub.Withdraw.{
  unprocessed, release, newly_added_loop, calculate_newly_added_unbonded_amount, release_loop,
  history_fuel, process_withdraw_rate,
}
use jullia_lp_staking.Hub.Release.{batch, unprocessed-due}
use jullia_lp_staking.Hub.Process.{lookup-lt-key_bound}
use jullia_lp_staking.Hub.Queue.{QueueIsValid}
use jullia_lp_staking.Hub.Solvency.Batch.{worth}
use jullia_lp_staking.Hub.Solvency.Release.{
  batch_worth, worths, worths-cong, unprocessed-cong, batch_apart,
}
use jullia_lp_staking.Hub.Progress.{worth_product, calculate_new_withdraw_rate_succeeds}

unprocessed_missing : (time k : ℕ) (s : Store) → batch k s ≡ none → unprocessed time k s ≡ none
unfolding unprocessed read_unbond_history
unprocessed_missing time k s missing = ground arith

pub worths_le : (m n i : ℕ) (s : Store) → m ≤ n → worths m i s ≤ worths n i s
worths_le zero n i s le = omega arith
worths_le (suc m) zero i s le = absurd (omega arith)
worths_le (suc m) (suc n) i s le = omega (arith, worths_le m n (i + 1) s (omega arith))

module _ ⦃num : Decimals⦄ where
  newly_added_loop_succeeds :
      (fuel time n i : ℕ) (s : Store) (total count : ℕ)
      → n < fuel
      → unprocessed time (i + n) s ≡ none
      → total + worths n i s < u64_mod
      → i + n < u64_mod
      → count ≤ i
      → (t : ℕ) × (c : ℕ) × (m : ℕ) × (newly_added_loop fuel time i s total count ≡ ok (t, c))
        × (t ≡ total + worths m i s)
        × (unprocessed time (i + m) s ≡ none)
        × (m ≤ n)
  unfolding newly_added_loop
  newly_added_loop_succeeds zero time n i s total count enough end small ids counted =
      absurd (omega arith)
  newly_added_loop_succeeds (suc fuel) time zero i s total count enough end small ids counted =
      let here : i + 0 ≡ i = omega arith in
      let end' : unprocessed time i s ≡ none = rw here at end in
      (total, count, 0, ground (arith, end'), omega arith, end, omega arith)
  newly_added_loop_succeeds (suc fuel) time (suc n) i s total count enough end small ids counted =
      elim (Option-cases (unprocessed time i s)) [
        | inl end' ↦
            let here : i + 0 ≡ i = omega arith in
            (total, count, 0, ground (arith, end'), omega arith, rw here end', omega arith)
        | inr (b, due) ↦
            let u = worth b.statom_amount b.statom_withdraw_rate in
            let value : batch_worth (batch i s) ≡ u = rw (unprocessed-due time i s b due).0 refl in
            let next : i + suc n ≡ i + 1 + n = omega arith in
            let e₁ = num.mul256_fits b.statom_amount b.statom_withdraw_rate (
              omega (
                arith,
                worth_product b.statom_amount b.statom_withdraw_rate (omega (arith, value)),
              )) in
            let (t, c, m, rest, sum, stop, le) =
              newly_added_loop_succeeds fuel time n (i + 1) s (total + u) (count + 1) (omega arith)
                (rw next at end) (omega (arith, value)) (omega arith) (omega arith) in
            let next_m : i + suc m ≡ i + 1 + m = omega arith in
            (
              t,
              c,
              suc m,
              ground (
                arith,
                due,
                e₁,
                add_u256_fits total u,
                add_u64_fits count 1,
                add_u64_fits i 1,
                rest,
                value,
              ),
              omega (arith, sum, value),
              rw next_m stop,
              omega arith,
            )
      ]

  release_loop_succeeds :
      (fuel time total : ℕ) (slashed : SignedInt) (n i last : ℕ) (s : Store)
      → n < fuel
      → unprocessed time (i + n) s ≡ none
      → worths n i s ≤ total
      → total < u64_mod
      → slashed.magnitude < u64_mod
      → i + n < u64_mod
      → (last' : ℕ) × (s' : Store) × (release_loop fuel time total slashed i last s
          ≡ ok (last', s'))
  unfolding release_loop
  release_loop_succeeds zero time total slashed n i last s enough end due small change ids =
      absurd (omega arith)
  release_loop_succeeds (suc fuel) time total slashed zero i last s enough end due small change
        ids =
      let here : i + 0 ≡ i = omega arith in
      let end' : unprocessed time i s ≡ none = rw here at end in (last, s, ground (arith, end'))
  release_loop_succeeds (suc fuel) time total slashed (suc n) i last s enough end due small change
        ids =
      elim (Option-cases (unprocessed time i s)) [
        | inl end' ↦ (last, s, ground (arith, end'))
        | inr (b, here) ↦
            let value : batch_worth (batch i s) ≡ worth b.statom_amount b.statom_withdraw_rate =
              rw (unprocessed-due time i s b here).0 refl in
            let next : i + suc n ≡ i + 1 + n = omega arith in
            let (rate, computed) =
              calculate_new_withdraw_rate_succeeds b.statom_amount b.statom_withdraw_rate total
                slashed (omega (arith, value)) small change in
            let s₁ = store_unbond_history i (release b rate) s in
            let apart : (k : ℕ) → i + 1 ≤ k → batch k s₁ ≡ batch k s =
              λ k le. batch_apart i k (release b rate) s (omega arith) in
            let same = worths-cong n (i + 1) s₁ s apart in
            let end₁ : unprocessed time (i + 1 + n) s₁ ≡ none =
              rw (unprocessed-cong time (i + 1 + n) s₁ s (apart _ (omega arith)))
                (rw next at end) in
            let (last', s', rest) =
              release_loop_succeeds fuel time total slashed n (i + 1) i s₁ (omega arith) end₁
                (omega (arith, same)) small change (omega arith) in
            (last', s', ground (arith, here, computed, add_u64_fits i 1, rest))
      ]

  from_subtraction_small :
      (a b : ℕ)
      → a < u64_mod
      → b < u64_mod
      → (d : SignedInt) × (from_subtraction a b ≡ ok d) × (d.magnitude < u64_mod)
  from_subtraction_small a b small small' =
      let (d, e, plus, minus) = from_subtraction_difference a b in
      (
        d,
        e,
        elim (Bool-cases d.negative) [
          | inl below ↦ omega (arith, (minus below).0)
          | inr above ↦ omega (arith, plus above)
        ],
      )

  -- The loops have fuel for all batches that are not released.
  pending-lt-history_fuel :
      (s : Store) (v : QueueIsValid s) → v.current - (v.last + 1) < history_fuel s
  pending-lt-history_fuel s v = elim (Bool-cases (ltb (v.last + 1) v.current)) [
    | inr none_pending ↦ ground arith
    | inl some_pending ↦
        let above : v.last + 1 < v.current = ground arith in
        elim (Option-cases (batch (v.current - 1) s)) [
          | inl missing ↦ absurd (v.stored (v.current - 1) (omega arith) (omega arith) missing)
          | inr (h, found) ↦ omega (arith, lookup-lt-key_bound (v.current - 1) h s.history found)
        ]
  ]

  pending_batches_succeed :
      (time balance : ℕ) (s : Store) (st : State) (v : QueueIsValid s)
      → s.state ≡ some st
      → v.current < u64_mod
      → worths (v.current - (v.last + 1)) (v.last + 1) s < u64_mod
      → balance < u64_mod
      → st.prev_hub_balance < u64_mod
      → (s' : Store) × (process_withdraw_rate time balance s ≡ ok (tt, s'))
  unfolding process_withdraw_rate calculate_newly_added_unbonded_amount
  pending_batches_succeed time balance s st v loaded ids small now before =
      let last : v.last ≡ st.last_processed_batch = ground (arith, v.has_last) in
      let n = v.current - (v.last + 1) in
      let stop : v.last + 1 + n ≡ v.current = omega (arith, v.behind) in
      let end : unprocessed time (v.last + 1 + n) s ≡ none =
        rw stop (unprocessed_missing time v.current s (v.bounded v.current (inr (omega arith)))) in
      let fuel = pending-lt-history_fuel s v in
      let (t, c, m, counted, sum, idle, le) =
        newly_added_loop_succeeds (history_fuel s) time n (v.last + 1) s 0 0 fuel end (omega arith)
          (omega (arith, stop)) (omega arith) in
      let few : worths m (v.last + 1) s ≤ worths n (v.last + 1) s =
        worths_le m n (v.last + 1) s le in
      let t_small : t < u64_mod = omega (arith, sum, few) in
      let (d, change, arrived) = from_subtraction_small balance st.prev_hub_balance now before in
      let (sl, split, missing) = from_subtraction_small t d.magnitude t_small arrived in
      let (last', s', released) =
        release_loop_succeeds (history_fuel s) time t sl m (v.last + 1) v.last s (omega arith) idle
          (omega (arith, sum)) t_small missing (omega (arith, stop)) in
      let first = add_u64_fits v.last 1 (omega (arith, v.behind)) in
      elim (Result-cases (process_withdraw_rate time balance s)) [
        | inl ((done, s₁), succeeds) ↦ (s₁, succeeds)
        | inr (e, fails) ↦
            absurd (
              ground (arith, loaded, last, first, counted, change, to_u128_fits t, split, released))
      ]

  -- On a valid queue, with the id of the current batch within 64 bits, all pending batches together worth
  -- less than 2 ^ 64, and both balances below that, `process_withdraw_rate` succeeds: nothing overflows.
  pub process_withdraw_rate_succeeds :
      (time balance : ℕ) (s : Store) (st : State) (b : CurrentBatch)
      → QueueIsValid s
      → s.state ≡ some st
      → s.current_batch ≡ some b
      → b.id < u64_mod
      → worths (b.id - (st.last_processed_batch + 1)) (st.last_processed_batch + 1) s < u64_mod
      → balance < u64_mod
      → st.prev_hub_balance < u64_mod
      → (s' : Store) × (process_withdraw_rate time balance s ≡ ok (tt, s'))
  process_withdraw_rate_succeeds time balance s st b v loaded collecting ids small now before =
      let last : v.last ≡ st.last_processed_batch = ground (arith, v.has_last) in
      let current : v.current ≡ b.id = ground (arith, v.has_current) in
      pending_batches_succeed time balance s st v loaded (rw current ids) (rw (last, current) small)
        now before
