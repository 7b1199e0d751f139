-- ===== src/Hub/Release.antt =====
-- The loop that releases unbonding batches, as a relation between the storage before and after, and the
-- termination of both loops of `process_withdraw_rate`.
use jullia_lp_staking.Base.{
  ℕ, zero, suc, ◌+◌, ◌≤◌, ◌<◌, ◌≡◌, ◌⊎◌, refl, Option, none, some, Option-cases, false, arith, ok,
  Result-cases, Bool-cases, inl, inr, ◌==◌, if◌then◌else◌,
}
use jullia_lp_staking.Base.Maps.{lookup, lookup-insert}
use jullia_lp_staking.Base.Keys.{u64_key}
use jullia_lp_staking.Cosmwasm.Uint.{add_u64}
use jullia_lp_staking.Cosmwasm.Decimal.{Decimals}
use jullia_lp_staking.Basset.{UnbondHistory}
use jullia_lp_staking.SignedInt.{SignedInt}
use jullia_lp_staking.Hub.Store.{Store}
use jullia_lp_staking.Hub.Lists.{store_unbond_history}
use jullia_lp_staking.Hub.Rates.{calculate_new_withdraw_rate}
use jullia_lp_staking.Hub.Withdraw.{unprocessed, release, release_loop}

abbrev pub batch : ℕ → Store → Option UnbondHistory
batch k s = lookup u64_key k s.history

-- A run of the loop from batch `i` on, with `last` the last batch that was released: it takes batches
-- one after the other, until one is missing, is not due or is released.
pub data Releases (time last' : ℕ) (s' : Store) : ℕ → ℕ → Store → Type 0 where
  done : (i : ℕ) → unprocessed time i s' ≡ none → Releases time last' s' i last' s'
  next :
      (i last : ℕ) (s : Store) (h : UnbondHistory) (rate : ℕ)
      → unprocessed time i s ≡ some h
      → Releases time last' s' (i + 1) i (store_unbond_history i (release h rate) s)
      → Releases time last' s' i last s

pub add_u64_ok : (a b c : ℕ) → add_u64 a b ≡ ok c → c ≡ a + b
unfolding add_u64
add_u64_ok a b c h = ground arith

module _ ⦃num : Decimals⦄ where
  pub release_loop-Releases :
      (fuel time total : ℕ) (slashed : SignedInt) (i last last' : ℕ) (s s' : Store)
      → release_loop fuel time total slashed i last s ≡ ok (last', s')
      → Releases time last' s' i last s
  unfolding release_loop
  release_loop-Releases zero time total slashed i last last' s s' h = absurd (cc)
  release_loop-Releases (suc fuel) time total slashed i last last' s s' h =
      elim (Option-cases (unprocessed time i s)) [
        | inl end ↦
            let e : last ≡ last' = ground arith in
            let e' : s ≡ s' = ground arith in rw (e, e') (Releases.done i (rw (← e') end))
        | inr (b, due) ↦
            elim (Result-cases
              (calculate_new_withdraw_rate b.statom_amount b.statom_withdraw_rate total slashed)) [
                | inr (f, fails) ↦ absurd (ground arith)
                | inl (rate, computed) ↦ elim (Result-cases (add_u64 i 1)) [
                  | inr (f, fails) ↦ absurd (ground arith)
                  | inl (j, sum) ↦
                      let j_lem : j ≡ i + 1 = add_u64_ok i 1 j sum in
                      let rest : release_loop fuel time total slashed (i + 1) i
                            (store_unbond_history i (release b rate) s)
                          ≡ ok (last', s') =
                        ground (arith, j_lem) in
                      Releases.next i last s b rate due
                        (release_loop-Releases fuel time total slashed (i + 1) i last' _ s' rest)
                ]
              ]
      ]

pub Releases-store :
    {time last' : ℕ} {s' : Store} {i last : ℕ} {s : Store}
    → Releases time last' s' i last s
    → s' ≡ record s { history = s'.history }
unfolding store_unbond_history
Releases-store (Releases.done i end) = refl
Releases-store (Releases.next i last s h rate due rest) = ground (arith, Releases-store rest)

pub unprocessed-due :
    (time i : ℕ) (s : Store) (h : UnbondHistory)
    → unprocessed time i s ≡ some h
    → (batch i s ≡ some h) × (h.time ≤ time) × (h.released ≡ false)
unfolding unprocessed
unprocessed-due time i s h e = ground arith

pub batch-store :
    (k i : ℕ) (h : UnbondHistory) (s : Store)
    → batch k (store_unbond_history i h s) ≡ (if i == k then some h else batch k s)
unfolding store_unbond_history
batch-store k i h s = lookup-insert u64_key i k h s.history

-- A run from batch `last + 1` on moves `last` forward.
pub Releases-le :
    {time last' : ℕ} {s' : Store} {i last : ℕ} {s : Store}
    → i ≡ last + 1
    → Releases time last' s' i last s
    → last ≤ last'
Releases-le e (Releases.done i end) = omega arith
Releases-le e (Releases.next i last s h rate due rest) = omega (arith, Releases-le refl rest)

-- Batches up to `last` and past the new `last` are as before.
pub Releases-others :
    {time last' : ℕ} {s' : Store} {i last : ℕ} {s : Store} (k : ℕ)
    → i ≡ last + 1
    → Releases time last' s' i last s
    → (k ≤ last) ⊎ (last' < k)
    → batch k s' ≡ batch k s
Releases-others k e (Releases.done i end) out = refl
Releases-others k e (Releases.next i last s h rate due rest) out =
    ground (
      arith,
      Releases-le refl rest,
      Releases-others k refl rest,
      batch-store k i (release h rate) s,
    )

-- Each batch in between was stored, due and not released, and is released now, under a new rate and with
-- nothing else changed.
pub Releases-each :
    {time last' : ℕ} {s' : Store} {i last : ℕ} {s : Store} (k : ℕ)
    → i ≡ last + 1
    → Releases time last' s' i last s
    → last < k
    → k ≤ last'
    → (h : UnbondHistory) × (rate : ℕ) × (batch k s ≡ some h)
      × (h.time ≤ time)
      × (h.released ≡ false)
      × (batch k s' ≡ some (release h rate))
Releases-each k e (Releases.done i end) lo hi = absurd (omega arith)
Releases-each k e (Releases.next i last s h rate due rest) lo hi = elim (Bool-cases (i == k)) [
  | inl here ↦
      let w = unprocessed-due _ i s h due in
      (
        h,
        rate,
        ground (arith, w.0),
        w.1,
        w.2,
        ground (arith, Releases-others k refl rest, batch-store k i (release h rate) s),
      )
  | inr there ↦
      let w = Releases-each k refl rest (ground arith) hi in
      (w.0, w.1, ground (arith, batch-store k i (release h rate) s, w.2), w.3, w.4, w.5)
]

-- The batch after the new `last` is the reason to stop: it is missing, not due or released already.
pub Releases-end :
    {time last' : ℕ} {s' : Store} {i last : ℕ} {s : Store}
    → i ≡ last + 1
    → Releases time last' s' i last s
    → unprocessed time (last' + 1) s' ≡ none
Releases-end e (Releases.done i end) = rw (← e) end
Releases-end e (Releases.next i last s h rate due rest) = Releases-end refl rest
