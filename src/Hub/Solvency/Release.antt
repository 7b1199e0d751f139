-- ===== src/Hub/Solvency/Release.antt =====
-- All batches of one release together, against the coins that arrived for them.
use jullia_lp_staking.Base.{
  ℕ, zero, suc, ◌+◌, ◌-◌, ◌*◌, ◌≤◌, ◌<◌, ◌≡◌, refl, arith, ok, none, some, Option, Result-cases,
  Option-cases, inl, inr,
}
use jullia_lp_staking.Cosmwasm.Uint.{add_u64, add_u256}
use jullia_lp_staking.Cosmwasm.Decimal.{Decimals, decimal_one}
use jullia_lp_staking.Basset.{UnbondHistory}
use jullia_lp_staking.SignedInt.{SignedInt, from_subtraction}
use jullia_lp_staking.Hub.Store.{Store}
use jullia_lp_staking.Hub.Lists.{store_unbond_history, read_unbond_history}
use jullia_lp_staking.Hub.Rates.{calculate_new_withdraw_rate}
use jullia_lp_staking.Hub.Withdraw.{unprocessed, release, newly_added_loop, release_loop}
use jullia_lp_staking.Hub.Release.{
  batch, batch-store, release_loop-Releases, Releases-le, Releases-others, add_u64_ok,
  unprocessed-due,
}
use jullia_lp_staking.Hub.Solvency.Batch.{worth, calculate_new_withdraw_rate_share}

-- What a batch of the history is worth at its withdraw rate.
abbrev pub batch_worth : Option UnbondHistory → ℕ
batch_worth none = 0
batch_worth (some h) = worth h.statom_amount h.statom_withdraw_rate

-- What `n` batches from `i` on are worth.
abbrev pub worths : ℕ → ℕ → Store → ℕ
worths zero i s = 0
worths (suc n) i s = batch_worth (batch i s) + worths n (i + 1) s

add_u256_ok : (a b c : ℕ) → add_u256 a b ≡ ok c → c ≡ a + b
unfolding add_u256
add_u256_ok a b c h = ground arith

pub worths-cong :
    (n i : ℕ) (s s' : Store)
    → ((k : ℕ) → i ≤ k → batch k s ≡ batch k s')
    → worths n i s ≡ worths n i s'
worths-cong zero i s s' same = refl
worths-cong (suc n) i s s' same =
    rw (same i (omega arith), worths-cong n (i + 1) s s' (λ k le. same k (omega arith))) refl

pub batch_apart :
    (i k : ℕ) (h : UnbondHistory) (s : Store)
    → i < k
    → batch k (store_unbond_history i h s) ≡ batch k s
batch_apart i k h s lt = ground (arith, batch-store k i h s)

pub unprocessed-cong :
    (time k : ℕ) (s s' : Store)
    → batch k s ≡ batch k s'
    → unprocessed time k s ≡ unprocessed time k s'
unfolding unprocessed read_unbond_history
unprocessed-cong time k s s' same = simp (unprocessed, read_unbond_history, same)

-- Each due batch from `i` on is worth something.
abbrev pub Valued : ℕ → ℕ → Store → Type 0
Valued time i s =
    (k : ℕ) (h : UnbondHistory)
    → i ≤ k
    → unprocessed time k s ≡ some h
    → 0 < worth h.statom_amount h.statom_withdraw_rate

module _ ⦃num : Decimals⦄ where
  -- The first loop adds up what the due batches are worth.
  pub newly_added_loop-worths :
      (fuel time n i : ℕ) (s : Store) (total count total' count' : ℕ)
      → ((k : ℕ) → i ≤ k → k < i + n → (h : UnbondHistory) × (unprocessed time k s ≡ some h))
      → unprocessed time (i + n) s ≡ none
      → newly_added_loop fuel time i s total count ≡ ok (total', count')
      → total' ≡ total + worths n i s
  unfolding newly_added_loop
  newly_added_loop-worths zero time n i s total count total' count' due end h = absurd (cc)
  newly_added_loop-worths (suc fuel) time zero i s total count total' count' due end h =
      ground (arith, end)
  newly_added_loop-worths (suc fuel) time (suc n) i s total count total' count' due end h =
      let (b, here) = due i (omega arith) (omega arith) in
      elim (Result-cases (num.mul256 b.statom_amount b.statom_withdraw_rate)) [
        | inr (f, fails) ↦ absurd (ground arith)
        | inl (unbonded, product) ↦ elim (Result-cases (add_u256 total unbonded)) [
          | inr (f, fails) ↦ absurd (ground arith)
          | inl (t, sum) ↦ elim (Result-cases (add_u64 count 1)) [
            | inr (f, fails) ↦ absurd (ground arith)
            | inl (c, counted) ↦ elim (Result-cases (add_u64 i 1)) [
              | inr (f, fails) ↦ absurd (ground arith)
              | inl (j, next) ↦
                  let j_lem = add_u64_ok i 1 j next in
                  let next_index : i + 1 + n ≡ i + suc n = omega arith in
                  let next_end : unprocessed time (i + 1 + n) s ≡ none = rw next_index end in
                  let rest =
                    newly_added_loop-worths fuel time n (i + 1) s t c total' count'
                      (λ k lo hi. due k (omega arith) (omega arith)) next_end
                      (ground (arith, j_lem)) in
                  let t_lem = add_u256_ok total unbonded t sum in
                  let worth_lem =
                    num.mul256_ok b.statom_amount b.statom_withdraw_rate unbonded product in
                  rw (unprocessed-due time i s b here).0 (omega (arith, rest, t_lem, worth_lem))
            ]
          ]
        ]
      ]

  amount_above_zero : (amount rate : ℕ) → 0 < worth amount rate → 0 < amount
  amount_above_zero zero rate valued = absurd (omega arith)
  amount_above_zero (suc amount) rate valued = omega arith

  -- Past the batch that is released, the due batches are as before.
  later_batches :
      (i : ℕ) (s : Store) (b : UnbondHistory) (rate time : ℕ)
      → Valued time i s
      → Valued time (i + 1) (store_unbond_history i (release b rate) s)
  later_batches i s b rate time valued = λ k h le due.
      valued k h (omega arith)
        (rw (← unprocessed-cong time k _ s (batch_apart i k (release b rate) s (omega arith))) due)

  -- One more batch within the bound.
  shares_add :
      (n batch batches new news total arrived c rest : ℕ)
      → new * total * c ≤ batch * arrived * c + rest
      → news * total * c ≤ batches * arrived * c + n * rest
      → (new + news) * total * c ≤ (batch + batches) * arrived * c + suc n * rest
  shares_add n batch batches new news total arrived c rest one more = grind (arith, one, more)

  release_share_next :
      (fuel time total arrived : ℕ) (slashed : SignedInt) (i last last' : ℕ) (s s' : Store)
      (b : UnbondHistory) (rate : ℕ)
      → from_subtraction total arrived ≡ ok slashed
      → 0 < total
      → 0 < arrived
      → i ≡ last + 1
      → Valued time i s
      → unprocessed time i s ≡ some b
      → calculate_new_withdraw_rate b.statom_amount b.statom_withdraw_rate total slashed ≡ ok rate
      → release_loop fuel time total slashed (i + 1) i (store_unbond_history i (release b rate) s)
        ≡ ok (last', s')
      → worths (last' - i) (i + 1) s' * total * decimal_one
        ≤ worths (last' - i) (i + 1) (store_unbond_history i (release b rate) s)
            * arrived
            * decimal_one
          + (last' - i) * ((total - arrived) * total)
      → worths (last' - last) i s' * total * decimal_one
        ≤ worths (last' - last) i s * arrived * decimal_one
          + (last' - last) * ((total - arrived) * total)
  release_share_next fuel time total arrived slashed i last last' s s' b rate split due come at
        valued here computed rest more =
      let r = release_loop-Releases fuel time total slashed (i + 1) i last' _ s' rest in
      let count : last' - last ≡ suc (last' - i) = omega (arith, Releases-le refl r) in
      let before : batch i s ≡ some b = (unprocessed-due time i s b here).0 in
      let after : batch i s' ≡ some (release b rate) =
        ground (arith, Releases-others i refl r, batch-store i i (release b rate) s) in
      let same =
        worths-cong (last' - i) (i + 1) (store_unbond_history i (release b rate) s) s
          λ k le. batch_apart i k (release b rate) s (omega arith) in
      let some_worth = valued i b (omega arith) here in
      let one =
        calculate_new_withdraw_rate_share b.statom_amount b.statom_withdraw_rate total arrived rate
          slashed (amount_above_zero _ _ some_worth) some_worth due come split computed in
      rw (count, before, after)
        (shares_add (last' - i) _ _ _ _ total arrived decimal_one _ one (rw same at more))

  -- The batches that the second loop releases, at their new rates, against what they were worth.
  pub release_loop-share :
      (fuel time total arrived : ℕ) (slashed : SignedInt) (i last last' : ℕ) (s s' : Store)
      → from_subtraction total arrived ≡ ok slashed
      → 0 < total
      → 0 < arrived
      → i ≡ last + 1
      → Valued time i s
      → release_loop fuel time total slashed i last s ≡ ok (last', s')
      → worths (last' - last) i s' * total * decimal_one
        ≤ worths (last' - last) i s * arrived * decimal_one
          + (last' - last) * ((total - arrived) * total)
  unfolding release_loop
  release_loop-share zero time total arrived slashed i last last' s s' split due come at valued h =
      absurd (cc)
  release_loop-share (suc fuel) time total arrived slashed i last last' s s' split due come at
        valued h =
      elim (Option-cases (unprocessed time i s)) [
        | inl end ↦
            let e : last ≡ last' = ground arith in
            let none_left : last' - last ≡ 0 = omega arith in rw none_left (omega arith)
        | inr (b, here) ↦
            elim (Result-cases
              (calculate_new_withdraw_rate b.statom_amount b.statom_withdraw_rate total slashed)) [
                | inr (f, fails) ↦ absurd (ground arith)
                | inl (rate, computed) ↦ elim (Result-cases (add_u64 i 1)) [
                  | inr (f, fails) ↦ absurd (ground arith)
                  | inl (j, sum) ↦
                      let j_lem : j ≡ i + 1 = add_u64_ok i 1 j sum in
                      let rest : release_loop fuel time total slashed (i + 1) i
                            (store_unbond_history i (release b rate) s)
                          ≡ ok (last', s') =
                        ground (arith, j_lem) in
                      release_share_next fuel time total arrived slashed i last last' s s' b rate
                        split due come at valued here computed rest
                        (release_loop-share fuel time total arrived slashed (i + 1) i last' _ s'
                          split due come refl (later_batches i s b rate time valued) rest)
                ]
              ]
      ]
