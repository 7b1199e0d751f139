-- ===== src/Hub/Released.antt =====
-- What `process_withdraw_rate` has done when it succeeds.
use jullia_lp_staking.Base.{
  ℕ, zero, suc, ◌+◌, ◌≤◌, ◌<◌, ◌≡◌, ◌⊎◌, refl, none, some, false, arith, ok, Result-cases,
  Bool-cases, inl, inr, ltb, ltb→lt,
}
use jullia_lp_staking.Cosmwasm.Uint.{add_u64, to_u128}
use jullia_lp_staking.Cosmwasm.Decimal.{Decimals}
use jullia_lp_staking.Basset.{State, UnbondHistory}
use jullia_lp_staking.SignedInt.{SignedInt, from_subtraction}
use jullia_lp_staking.Hub.Store.{Store, stored_state}
use jullia_lp_staking.Hub.Withdraw.{
  unprocessed, release, newly_added_loop, calculate_newly_added_unbonded_amount, release_loop,
  history_fuel, process_withdraw_rate,
}
use jullia_lp_staking.Hub.Release.{
  batch, Releases, release_loop-Releases, Releases-store, Releases-le, Releases-others,
  Releases-each, Releases-end, add_u64_ok,
}

-- The state item `st` of `s` and the time `time` determine which batches are released in `s'`.
pub record Released (time : ℕ) (s s' : Store) (st : State) : Type 0 where
  -- the last batch that is released now
  pub last : ℕ
  pub forward : st.last_processed_batch ≤ last
  -- nothing but the history and the number of the last batch has changed
  pub frame :
      (s' ≡ s)
      ⊎ (s' ≡ record s {
        state = some (stored_state (record st { last_processed_batch = last }));
        history = s'.history;
      })
  pub stored : (st' : State) × (s'.state ≡ some st') × (st'.last_processed_batch ≡ last)
  pub others : (k : ℕ) → (k ≤ st.last_processed_batch) ⊎ (last < k) → batch k s' ≡ batch k s
  pub each :
      (k : ℕ)
      → st.last_processed_batch < k
      → k ≤ last
      → (h : UnbondHistory) × (rate : ℕ) × (batch k s ≡ some h)
        × (h.time ≤ time)
        × (h.released ≡ false)
        × (batch k s' ≡ some (release h rate))
  -- the next batch is missing, not due, or released before
  pub complete : unprocessed time (last + 1) s' ≡ none

module _ ⦃num : Decimals⦄ where
  newly_added_loop-le :
      (fuel time i : ℕ) (s : Store) (total count total' count' : ℕ)
      → newly_added_loop fuel time i s total count ≡ ok (total', count')
      → count ≤ count'
  unfolding newly_added_loop add_u64
  newly_added_loop-le zero time i s total count total' count' e = absurd (cc)
  newly_added_loop-le (suc fuel) time i s total count total' count' e =
      grind (arith, newly_added_loop-le fuel)

  newly_added_loop-none :
      (fuel time i : ℕ) (s : Store) (total count total' count' : ℕ)
      → newly_added_loop fuel time i s total count ≡ ok (total', count')
      → count' < count + 1
      → unprocessed time i s ≡ none
  unfolding newly_added_loop add_u64
  newly_added_loop-none zero time i s total count total' count' e few = absurd (cc)
  newly_added_loop-none (suc fuel) time i s total count total' count' e few =
      grind (arith, newly_added_loop-le fuel)

  -- The outcome of the second loop, in the words of the record.
  Releases-Released :
      (time last : ℕ) (s s' : Store) (st : State)
      → Releases time last s' (st.last_processed_batch + 1) st.last_processed_batch s
      → Released time s
          (record s' { state = some (stored_state (record st { last_processed_batch = last })) })
          st
  unfolding unprocessed
  Releases-Released time last s s' st r = record {
    last = last;
    forward = Releases-le refl r;
    frame = inr (ground (arith, Releases-store r));
    stored = (stored_state (record st { last_processed_batch = last }), refl, refl);
    others = λ k. Releases-others k refl r;
    each = λ k. Releases-each k refl r;
    complete = Releases-end refl r;
  }

  -- Where batches are due, a call that succeeds has run the second loop.
  pub process_withdraw_rate_releases :
      (time balance : ℕ) (s s' : Store) (st : State) (total count i : ℕ)
      → s.state ≡ some st
      → calculate_newly_added_unbonded_amount st.last_processed_batch time s ≡ ok (total, count)
      → add_u64 st.last_processed_batch 1 ≡ ok i
      → ltb count 1 ≡ false
      → process_withdraw_rate time balance s ≡ ok (tt, s')
      → (total' : ℕ) × (slashed : SignedInt) × (last : ℕ) × (s₁ : Store) × (s'
          ≡ record s₁ { state = some (stored_state (record st { last_processed_batch = last })) })
        × (release_loop (history_fuel s) time total slashed i st.last_processed_batch s
            ≡ ok (last, s₁))
        × (total' ≡ total)
        × ((d : SignedInt) × (from_subtraction balance st.prev_hub_balance ≡ ok d)
            × (from_subtraction total d.magnitude ≡ ok slashed))
  unfolding process_withdraw_rate to_u128
  process_withdraw_rate_releases time balance s s' st total count i loaded counted next some_due h =
      elim (Result-cases (from_subtraction balance st.prev_hub_balance)) [
        | inr (e, fails) ↦ absurd (ground arith)
        | inl (d, change) ↦ elim (Result-cases (to_u128 total)) [
          | inr (e, fails) ↦ absurd (ground arith)
          | inl (t, small) ↦ elim (Result-cases (from_subtraction t d.magnitude)) [
            | inr (e, fails) ↦ absurd (ground arith)
            | inl (slashed, less) ↦
                elim (Result-cases
                  (release_loop (history_fuel s) time total slashed i st.last_processed_batch s)) [
                    | inr (e, fails) ↦ absurd (ground arith)
                    | inl ((last, s₁), runs) ↦ (
                      t,
                      slashed,
                      last,
                      s₁,
                      ground arith,
                      runs,
                      ground arith,
                      (d, change, ground arith),
                    )
                  ]
          ]
        ]
      ]

  -- When `process_withdraw_rate` succeeds, it has released exactly the batches from the last processed one
  -- up to a new last one, each of them due and not released before, under new rates and otherwise
  -- unchanged; the next batch is missing, not due or released; and it has changed nothing else but the
  -- number of the last processed batch.
  pub process_withdraw_rate-Released :
      (time balance : ℕ) (s s' : Store) (st : State)
      → s.state ≡ some st
      → process_withdraw_rate time balance s ≡ ok (tt, s')
      → Released time s s' st
  unfolding process_withdraw_rate calculate_newly_added_unbonded_amount
  process_withdraw_rate-Released time balance s s' st loaded h =
      elim (Result-cases (calculate_newly_added_unbonded_amount st.last_processed_batch time s)) [
        | inr (e, fails) ↦ absurd (ground arith)
        | inl ((total, count), counted) ↦ elim (Result-cases (add_u64 st.last_processed_batch 1)) [
          | inr (e, fails) ↦ absurd (ground arith)
          | inl (i, next) ↦
              let i_lem = add_u64_ok st.last_processed_batch 1 i next in
              elim (Bool-cases (ltb count 1)) [
                | inl few ↦
                    let same : s' ≡ s = ground arith in
                    rw same (record {
                      last = st.last_processed_batch;
                      forward = omega arith;
                      frame = inl refl;
                      stored = (st, loaded, refl);
                      others = λ k out. refl;
                      each = λ k lo hi. absurd (omega arith);
                      complete = rw (← i_lem) (
                          newly_added_loop-none (history_fuel s) time i s 0 0 total count
                            (ground arith) (ltb→lt _ _ few));
                    })
                | inr some_due ↦
                    let t =
                      process_withdraw_rate_releases time balance s s' st total count i loaded
                        counted next some_due h in
                    rw t.4 (
                      Releases-Released time t.2 s t.3 st (
                        rw i_lem at (
                          release_loop-Releases (history_fuel s) time total t.1 i
                            st.last_processed_batch t.2 s t.3 t.5)))
              ]
        ]
      ]
