-- ===== src/Hub/Buckets.antt =====
-- The users' buckets of the wait list: no batch stands in a bucket twice, so that what a bucket pays is a sum
-- over batches.
use jullia_lp_staking.Base.{
  ℕ, zero, suc, ◌+◌, ◌≤◌, ◌<◌, ◌≡◌, ◌⊎◌, ◌&&◌, refl, sym, String, List, [], ◌∷◌, Bool, Option, none,
  some, ok, arith, leb, ltb, if◌then◌else◌, str_eq, Bool-cases, inl, inr,
}
use jullia_lp_staking.Base.Maps.{lookup, KeysOnce, KeysOnce-insert, KeysOnce-remove}
use jullia_lp_staking.Base.Keys.{u64_key, ordered_key}
use jullia_lp_staking.Basset.{UnbondWaitEntity}
use jullia_lp_staking.Hub.Store.{Store, Chain}
use jullia_lp_staking.Hub.Lists.{Bucket, store_unbond_wait_list, remove_batches}
use jullia_lp_staking.Hub.Payout.{rate_of, share, payout}
use jullia_lp_staking.Hub.Book.Views.{waiting, lookup_order, store_unbond_wait_list-wait}

-- What is stored twice does not depend on the order of the keys.
KeysOnce-order :
    {V : Type 0} (before : ℕ → ℕ → Bool) (m : List (ℕ × V))
    → (KeysOnce (ordered_key before) m → KeysOnce u64_key m)
      × (KeysOnce u64_key m → KeysOnce (ordered_key before) m)
KeysOnce-order before [] = (λ once. tt, λ once. tt)
KeysOnce-order before ((k, v) ∷ m) =
    let (there, back) = KeysOnce-order before m in
    let same = lookup_order before k m in
    ((λ once. (rw (← same) once.0, there once.1)), (λ once. (rw same once.0, back once.1)))

abbrev pub BucketsOnce : Store → Type 0
BucketsOnce s = (a : String) → KeysOnce u64_key (s.wait a)

pub store_unbond_wait_list-BucketsOnce :
    (chain : Chain) (id : ℕ) (sender : String) (amount : ℕ) (s s' : Store)
    → store_unbond_wait_list chain id sender amount s ≡ ok s'
    → BucketsOnce s
    → BucketsOnce s'
store_unbond_wait_list-BucketsOnce chain id sender amount s s' h once a =
    let key = ordered_key chain.wait_before in
    let own = (KeysOnce-order chain.wait_before (s.wait sender)).1 (once sender) in
    rw (store_unbond_wait_list-wait chain id sender amount s s' a h)
      (elim (Bool-cases (str_eq sender a)) [
        | inl e ↦
            rw e (
              (KeysOnce-order chain.wait_before _).0 (KeysOnce-insert key id _ (s.wait sender) own))
        | inr e ↦ rw e (once a)
      ])

KeysOnce-remove_batches_ordered :
    (chain : Chain) (ks : List ℕ) (b : Bucket)
    → KeysOnce (ordered_key chain.wait_before) b
    → KeysOnce (ordered_key chain.wait_before) (remove_batches chain ks b)
unfolding remove_batches
KeysOnce-remove_batches_ordered chain [] b once = once
KeysOnce-remove_batches_ordered chain (k ∷ ks) b once =
    KeysOnce-remove_batches_ordered chain ks _
      (KeysOnce-remove (ordered_key chain.wait_before) k b once)

pub KeysOnce-remove_batches :
    (chain : Chain) (ks : List ℕ) (b : Bucket)
    → KeysOnce u64_key b
    → KeysOnce u64_key (remove_batches chain ks b)
KeysOnce-remove_batches chain ks b once =
    (KeysOnce-order chain.wait_before _).0
      (KeysOnce-remove_batches_ordered chain ks b ((KeysOnce-order chain.wait_before b).1 once))

-- What the batches `i` to `i + n - 1` of a bucket are worth.
abbrev pub by_batch : ℕ → ℕ → Store → Bucket → ℕ
by_batch zero i s b = 0
by_batch (suc n) i s b = share (rate_of i s) (waiting (lookup u64_key i b)) + by_batch n (i + 1) s b

share_zero : (o : Option ℕ) → share o 0 ≡ 0
share_zero none = refl
share_zero (some rate) = omega arith

by_batch-empty : (n i : ℕ) (s : Store) → by_batch n i s [] ≡ 0
unfolding lookup
by_batch-empty zero i s = refl
by_batch-empty (suc n) i s = omega (arith, share_zero (rate_of i s), by_batch-empty n (i + 1) s)

-- An entry of a batch that is not in the rest of the bucket adds its own worth.
by_batch-entry :
    (n i j : ℕ) (s : Store) (v : UnbondWaitEntity) (b : Bucket)
    → lookup u64_key j b ≡ none
    → by_batch n i s ((j, v) ∷ b)
      ≡ (if leb i j && ltb j (i + n) then share (rate_of j s) v.statom_amount else 0)
        + by_batch n i s b
unfolding lookup
by_batch-entry zero i j s v b new = ground arith
by_batch-entry (suc n) i j s v b new =
    ground (arith, share_zero (rate_of i s), by_batch-entry n (i + 1) j s v b)

-- What a bucket pays, batch by batch.
pub payout-by_batch :
    (n i : ℕ) (s : Store) (b : Bucket)
    → ((k : ℕ) → (k < i) ⊎ (i + n ≤ k) → rate_of k s ≡ none)
    → KeysOnce u64_key b
    → payout s b ≡ by_batch n i s b
payout-by_batch n i s [] out once = sym (by_batch-empty n i s)
payout-by_batch n i s ((j, v) ∷ b) out once =
    ground (arith, by_batch-entry n i j s v b, payout-by_batch n i s b, out j)
