-- ===== src/Hub/Payout.antt =====
-- What `get_finished_amount` adds up, and what `remove_unbond_wait_list` leaves.
use mathlib.Core.List.{append-nil, append_assoc}
use jullia_lp_staking.Base.{
  ℕ, ◌∙◌, ◌+◌, ◌*◌, ◌/◌, ◌≡◌, ◌≢◌, refl, List, [], ◌∷◌, ◌++◌, Bool, true, false, ◌||◌, Option, none,
  some, Option-cases, arith, ok, Result-cases, inl, inr, ◌==◌, if◌then◌else◌,
}
use jullia_lp_staking.Base.Maps.{lookup, remove, lookup-remove}
use jullia_lp_staking.Base.Keys.{ordered_key}
use jullia_lp_staking.Cosmwasm.Uint.{add_u128}
use jullia_lp_staking.Cosmwasm.Decimal.{Decimals, decimal_one}
use jullia_lp_staking.Basset.{UnbondHistory, UnbondWaitEntity}
use jullia_lp_staking.Hub.Store.{Store, Chain}
use jullia_lp_staking.Hub.Lists.{
  Bucket, read_unbond_history, finished_step, finished_loop, remove_batches,
}
use jullia_lp_staking.Hub.Release.{batch}

-- The withdraw rate of a batch, if it is released.
abbrev pub released_rate : Option UnbondHistory → Option ℕ
released_rate none = none
released_rate (some h) = if h.released then some h.statom_withdraw_rate else none

abbrev pub rate_of : ℕ → Store → Option ℕ
rate_of k s = released_rate (batch k s)

abbrev pub share : Option ℕ → ℕ → ℕ
share none amount = 0
share (some rate) amount = amount * rate / decimal_one

-- The coins due to the owner of a bucket: each amount of a released batch at its withdraw rate.
abbrev pub payout : Store → Bucket → ℕ
payout s [] = 0
payout s ((k, v) ∷ b) = share (rate_of k s) v.statom_amount + payout s b

abbrev pub add_id : Option ℕ → ℕ → List ℕ → List ℕ
add_id none k ks = ks
add_id (some rate) k ks = k ∷ ks

abbrev pub released_ids : Store → Bucket → List ℕ
released_ids s [] = []
released_ids s ((k, v) ∷ b) = add_id (rate_of k s) k (released_ids s b)

pub add_id-append :
    (o : Option ℕ) (k : ℕ) (ks js : List ℕ) → (ks ++ add_id o k []) ++ js ≡ ks ++ add_id o k js
add_id-append none k ks js = simp append-nil
add_id-append (some r) k ks js = append_assoc ks (k ∷ []) js

module _ ⦃num : Decimals⦄ where
  finished_step-lem :
      (s : Store) (k : ℕ) (v : UnbondWaitEntity) (a : ℕ) (ks : List ℕ) (a' : ℕ) (ks' : List ℕ)
      → finished_step s k v (a, ks) ≡ ok (a', ks')
      → (a' ≡ a + share (rate_of k s) v.statom_amount) × (ks' ≡ ks ++ add_id (rate_of k s) k [])
  unfolding finished_step read_unbond_history add_u128
  finished_step-lem s k v a ks a' ks' h = elim (Option-cases (batch k s)) [
    | inl e ↦ ground (arith, append-nil ks)
    | inr (b, e) ↦ elim (Result-cases (num.mul v.statom_amount b.statom_withdraw_rate)) [
      | inr (f, fails) ↦ ground (arith, append-nil ks)
      | inl (r, m) ↦
          ground (arith, append-nil ks, num.mul_ok v.statom_amount b.statom_withdraw_rate r m)
    ]
  ]

  pub finished_loop_lem :
      (s : Store) (b : Bucket) (a : ℕ) (ks : List ℕ) (a' : ℕ) (ks' : List ℕ)
      → finished_loop s b (a, ks) ≡ ok (a', ks')
      → (a' ≡ a + payout s b) × (ks' ≡ ks ++ released_ids s b)
  unfolding finished_loop
  finished_loop_lem s [] a ks a' ks' h = ground (arith, append-nil ks)
  finished_loop_lem s ((k, v) ∷ b) a ks a' ks' h =
      elim (Result-cases (finished_step s k v (a, ks))) [
        | inr (f, fails) ↦ absurd (ground arith)
        | inl ((a₁, ks₁), steps) ↦
            let one = finished_step-lem s k v a ks a₁ ks₁ steps in
            let rest = finished_loop_lem s b a₁ ks₁ a' ks' (ground arith) in
            (
              omega (arith, one.0, rest.0),
              rest.1 ∙ rw one.1 (add_id-append (rate_of k s) k ks (released_ids s b)),
            )
      ]

  -- A bucket without released batches pays nothing, and keeps all of its entries.
  pub finished_loop_pending :
      (s : Store) (before : ℕ → ℕ → Bool) (b : Bucket) (acc : ℕ × List ℕ)
      → ((k : ℕ) → rate_of k s ≢ none → lookup (ordered_key before) k b ≡ none)
      → finished_loop s b acc ≡ ok acc
  unfolding finished_loop finished_step read_unbond_history lookup
  finished_loop_pending s before [] acc pending = refl
  finished_loop_pending s before ((k, v) ∷ b) acc pending =
      ground (
        arith,
        pending k,
        finished_loop_pending s before b acc (λ j r. ground (arith, pending j r)),
      )

abbrev pub mem : ℕ → List ℕ → Bool
mem k [] = false
mem k (j ∷ ks) = j == k || mem k ks

lookup-remove_batches :
    (chain : Chain) (ks : List ℕ) (k : ℕ) (b : Bucket)
    → lookup (ordered_key chain.wait_before) k (remove_batches chain ks b)
      ≡ (if mem k ks then none else lookup (ordered_key chain.wait_before) k b)
unfolding remove_batches
lookup-remove_batches chain [] k b = refl
lookup-remove_batches chain (j ∷ ks) k b = ground (
  arith,
  lookup-remove_batches chain ks k (remove (ordered_key chain.wait_before) j b),
  lookup-remove (ordered_key chain.wait_before) j k b,
)

mem-released_ids :
    (before : ℕ → ℕ → Bool) (s : Store) (k : ℕ) (b : Bucket)
    → lookup (ordered_key before) k b ≢ none
    → rate_of k s ≢ none
    → mem k (released_ids s b) ≡ true
unfolding lookup
mem-released_ids before s k [] some_entry r = absurd (some_entry refl)
mem-released_ids before s k ((j, v) ∷ b) some_entry r =
    ground (arith, mem-released_ids before s k b)

mem-released_ids_pending :
    (s : Store) (k : ℕ) (b : Bucket) → rate_of k s ≡ none → mem k (released_ids s b) ≡ false
mem-released_ids_pending s k [] r = refl
mem-released_ids_pending s k ((j, v) ∷ b) r = ground (arith, mem-released_ids_pending s k b r)

-- The entries that are left are those of the batches that are not released.
pub lookup-remove_released :
    (chain : Chain) (s : Store) (k : ℕ) (b : Bucket)
    → ((rate_of k s ≢ none)
        → lookup (ordered_key chain.wait_before) k (remove_batches chain (released_ids s b) b)
          ≡ none)
      × ((rate_of k s ≡ none)
          → lookup (ordered_key chain.wait_before) k (remove_batches chain (released_ids s b) b)
            ≡ lookup (ordered_key chain.wait_before) k b)
lookup-remove_released chain s k b = (
  (λ r. ground (
    arith,
    lookup-remove_batches chain (released_ids s b) k b,
    mem-released_ids chain.wait_before s k b,
  )),
  (λ r. ground (
    arith,
    lookup-remove_batches chain (released_ids s b) k b,
    mem-released_ids_pending s k b r,
  )),
)
