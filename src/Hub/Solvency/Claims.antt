-- ===== src/Hub/Solvency/Claims.antt =====
-- The claims of the users on the batches of one release, against the coins that arrived: the book of claims
-- and the bound on the release together.
use native.Mathlib.Nat.{mul-le-mul_right}
use jullia_lp_staking.Base.{
  true, [], ◌∷◌, ℕ, zero, suc, ◌+◌, ◌-◌, ◌*◌, ◌≤◌, ◌<◌, ◌≡◌, refl, arith, ok, some, String, List,
  Option-cases, Bool-cases, inl, inr, ltb, leb,
}
use jullia_lp_staking.Cosmwasm.Decimal.{Decimals, decimal_one}
use jullia_lp_staking.Basset.{State, UnbondHistory}
use jullia_lp_staking.Hub.Store.{Store}
use jullia_lp_staking.Hub.Withdraw.{process_withdraw_rate}
use jullia_lp_staking.Hub.Release.{batch}
use jullia_lp_staking.Hub.Released.{Released, process_withdraw_rate-Released}
use jullia_lp_staking.Hub.Book.{claims, distinct}
use jullia_lp_staking.Hub.Book.Users.{total, total_add, total-congr, total-le}
use jullia_lp_staking.Hub.Payout.{rate_of, share}
use jullia_lp_staking.Hub.Buckets.{by_batch}
use jullia_lp_staking.Hub.Book.Views.{claim_of, total_of}
use jullia_lp_staking.Hub.Book.Reach.{
  Reached, Reached-claims, Reached-QueueIsValid, worth, worth-le_amount,
}
use jullia_lp_staking.Hub.Solvency.Release.{batch_worth, worths, Valued}
use jullia_lp_staking.Hub.Solvency.Process.{process_withdraw_rate_solvent}

claims-total :
    (f : String → ℕ → ℕ) (us : List String) (k : ℕ) → claims f us k ≡ total (λ u. f u k) us
claims-total f [] k = refl
claims-total f (u ∷ us) k = omega (arith, claims-total f us k)

worth-total :
    (f : String → ℕ → ℕ) (us : List String) (k rate : ℕ)
    → worth f us k rate ≡ total (λ u. share (some rate) (f u k)) us
worth-total f [] k rate = refl
worth-total f (u ∷ us) k rate = omega (arith, worth-total f us k rate)

pub total_zero : (us : List String) → total (λ u. 0) us ≡ 0
total_zero [] = refl
total_zero (u ∷ us) = omega (arith, total_zero us)

-- What users may withdraw of a batch, against what the whole batch is worth.
share-le :
    (users : List String) (i : ℕ) (s : Store)
    → ((h : UnbondHistory)
        → batch i s ≡ some h
        → total (λ u. claim_of s u i) users ≤ h.statom_amount)
    → total (λ u. share (rate_of i s) (claim_of s u i)) users ≤ batch_worth (batch i s)
share-le users i s covered = elim (Option-cases (batch i s)) [
  | inl nothing ↦ rw nothing (omega (arith, total_zero users))
  | inr (h, found) ↦
      let all : claims (claim_of s) users i ≤ h.statom_amount =
        omega (arith, covered h found, claims-total (claim_of s) users i) in
      let rate = h.statom_withdraw_rate in
      let whole = worth-le_amount (claim_of s) users i h.statom_amount rate all in
      rw found (elim (Bool-cases h.released) [
        | inl released ↦ rw released (omega (arith, whole, worth-total (claim_of s) users i rate))
        | inr waits ↦ rw waits (omega (arith, total_zero users))
      ])
]

total-by_batch-le :
    (users : List String) (n i : ℕ) (s : Store)
    → ((k : ℕ) (h : UnbondHistory)
        → batch k s ≡ some h
        → total (λ u. claim_of s u k) users ≤ h.statom_amount)
    → total (λ u. by_batch n i s (s.wait u)) users ≤ worths n i s
total-by_batch-le users zero i s covered = omega (arith, total_zero users)
total-by_batch-le users (suc n) i s covered = omega (
  arith,
  total_add (λ u. share (rate_of i s) (claim_of s u i)) (λ u. by_batch n (i + 1) s (s.wait u))
      users,
  share-le users i s (covered i),
  total-by_batch-le users n (i + 1) s covered,
)

within_bound : (owed worth c most : ℕ) → owed ≤ worth → worth * c ≤ most → owed * c ≤ most
within_bound owed worth c most h bound = omega (arith, mul-le-mul_right c h, bound)

-- A release changes no claim.
pub Released-claim :
    {time : ℕ} {s s' : Store} {st : State}
    → Released time s s' st
    → (a : String) (k : ℕ) → claim_of s' a k ≡ claim_of s a k
Released-claim r a k = elim r.frame [ inl same ↦ rw same refl | inr same ↦ rw same refl ]

-- A release changes no batch's amount.
Released-amount :
    {time : ℕ} {s s' : Store} {st : State}
    → Released time s s' st
    → (k : ℕ) (h' : UnbondHistory) → batch k s' ≡ some h'
    → (h : UnbondHistory) × (batch k s ≡ some h) × (h.statom_amount ≡ h'.statom_amount)
Released-amount {st} r k h' found = elim (Bool-cases (leb k st.last_processed_batch)) [
  | inl old ↦ (h', ground (arith, r.others k), refl)
  | inr newer ↦ elim (Bool-cases (ltb r.last k)) [
    | inl later ↦ (h', ground (arith, r.others k), refl)
    | inr within ↦
        let (h, rate, before, due, fresh, after) = r.each k (ground arith) (ground arith) in
        (h, before, ground arith)
  ]
]

module _ ⦃num : Decimals⦄ where
  -- The claims of different users on a stored batch are within its amount.
  Reached-amount :
      (s : Store)
      → Reached s
      → (users : List String) → distinct users ≡ true
      → (k : ℕ) (h : UnbondHistory) → batch k s ≡ some h
      → total (λ u. claim_of s u k) users ≤ h.statom_amount
  Reached-amount s reached users once k h found =
      let (all, last, has_last, all_once, others, equal, below) = Reached-claims s reached in
      let v = Reached-QueueIsValid reached in
      let whole : total_of s k ≡ h.statom_amount = ground (arith, v.bounded k, v.has_current) in
      omega (
        arith,
        whole,
        below k,
        claims-total (claim_of s) all k,
        total-le (λ u. claim_of s u k) users all once (λ a new. others a new k),
      )

  -- In a storage that a hub comes to, with a larger balance than after the last withdrawal and due batches
  -- that are each worth something, when `process_withdraw_rate` succeeds: what any different users may
  -- withdraw of the released batches is together worth at most the coins that arrived, and, for each
  -- batch, the missing coins as a number of smallest fractions of a coin.
  pub process_withdraw_rate_covers_claims :
      (time balance : ℕ) (s s' : Store) (st st' : State) (users : List String)
      → Reached s
      → s.state ≡ some st
      → s'.state ≡ some st'
      → st.prev_hub_balance < balance
      → Valued time (st.last_processed_batch + 1) s
      → distinct users ≡ true
      → process_withdraw_rate time balance s ≡ ok (tt, s')
      → total
            (λ u.
              by_batch
                (st'.last_processed_batch - st.last_processed_batch)
                (st.last_processed_batch + 1)
                s'
                (s'.wait u))
            users
          * decimal_one
        ≤ (balance - st.prev_hub_balance) * decimal_one
          + (st'.last_processed_batch - st.last_processed_batch)
            * (worths
                  (st'.last_processed_batch - st.last_processed_batch)
                  (st.last_processed_batch + 1)
                  s
                - (balance - st.prev_hub_balance))
  process_withdraw_rate_covers_claims time balance s s' st st' users reached loaded stored grown
        valued once h =
      let r = process_withdraw_rate-Released time balance s s' st loaded h in
      let covered : (k : ℕ) (b : UnbondHistory)
          → batch k s' ≡ some b
          → total (λ u. claim_of s' u k) users ≤ b.statom_amount =
        λ k b found.
          let (b₀, before, amount) = Released-amount r k b found in
          omega (
            arith,
            amount,
            Reached-amount s reached users once k b₀ before,
            total-congr (λ u. claim_of s' u k) (λ u. claim_of s u k) users
                (λ a. Released-claim r a k),
          ) in
      within_bound _ _ decimal_one _
        (total-by_batch-le users _ (st.last_processed_batch + 1) s' covered)
        (process_withdraw_rate_solvent time balance s s' st st' loaded stored grown valued h)
