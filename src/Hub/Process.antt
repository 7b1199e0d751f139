-- ===== src/Hub/Process.antt =====
-- `process_withdraw_rate`: its loops end, and it releases the batches that are due, and no other.
use Prim.Native.Nat.{max}
use jullia_lp_staking.Base.{
  ℕ, zero, suc, ◌+◌, ◌≤◌, ◌<◌, ◌≡◌, ◌≢◌, List, [], ◌∷◌, Option, none, some, Option-cases, arith,
  err, inl, inr, out_of_fuel, ltb, ok_or, not_found,
}
use jullia_lp_staking.Base.Ends.{Ends, Ends-bind, Ends-ok, Ends-if, Ends-if_at, Ends-of_panic}
use jullia_lp_staking.Base.Maps.{lookup, insert, place, remove}
use jullia_lp_staking.Base.Keys.{u64_key}
use jullia_lp_staking.Cosmwasm.Uint.{add_u64, add_u256, sub_or_panic, to_u128}
use jullia_lp_staking.Cosmwasm.Decimal.{Decimals}
use jullia_lp_staking.Basset.{UnbondHistory}
use jullia_lp_staking.SignedInt.{SignedInt, from_subtraction, from_subtraction_difference}
use jullia_lp_staking.Hub.Store.{Store}
use jullia_lp_staking.Hub.Lists.{store_unbond_history}
use jullia_lp_staking.Hub.Rates.{calculate_new_withdraw_rate}
use jullia_lp_staking.Hub.Withdraw.{
  unprocessed, release, newly_added_loop, calculate_newly_added_unbonded_amount, release_loop,
  key_bound, history_fuel, process_withdraw_rate,
}
use jullia_lp_staking.Hub.Release.{add_u64_ok}

pub lookup-lt-key_bound :
    (k : ℕ) (h : UnbondHistory) (m : List (ℕ × UnbondHistory))
    → lookup u64_key k m ≡ some h
    → k < key_bound m
unfolding lookup key_bound
lookup-lt-key_bound k h [] e = cc
lookup-lt-key_bound k h ((j, g) ∷ m) e = ground (arith, lookup-lt-key_bound k h m)

key_bound-place :
    (k : ℕ) (h : UnbondHistory) (m : List (ℕ × UnbondHistory))
    → key_bound (place u64_key k h m) ≤ max (k + 1) (key_bound m)
unfolding place key_bound
key_bound-place k h [] = omega arith
key_bound-place k h ((j, g) ∷ m) = ground (arith, key_bound-place k h m)

key_bound-remove :
    (k : ℕ) (m : List (ℕ × UnbondHistory)) → key_bound (remove u64_key k m) ≤ key_bound m
unfolding remove key_bound
key_bound-remove k [] = omega arith
key_bound-remove k ((j, g) ∷ m) = ground (arith, key_bound-remove k m)

key_bound-insert :
    (k : ℕ) (h : UnbondHistory) (m : List (ℕ × UnbondHistory))
    → key_bound (insert u64_key k h m) ≤ max (k + 1) (key_bound m)
unfolding insert
key_bound-insert k h m =
    omega (arith, key_bound-place k h (remove u64_key k m), key_bound-remove k m)

unprocessed-lt-key_bound :
    (time i : ℕ) (s : Store) (h : UnbondHistory)
    → unprocessed time i s ≡ some h
    → i < key_bound s.history
unfolding unprocessed
unprocessed-lt-key_bound time i s h e = ground (arith, lookup-lt-key_bound i h s.history)

sub_or_panic-Ends : (a b : ℕ) → Ends (sub_or_panic a b)
unfolding sub_or_panic
sub_or_panic-Ends a b = record { ends = λ p. ground arith }

add_u64-Ends : (a b : ℕ) → Ends (add_u64 a b)
unfolding add_u64
add_u64-Ends a b = record { ends = λ p. ground arith }

add_u256-Ends : (a b : ℕ) → Ends (add_u256 a b)
unfolding add_u256
add_u256-Ends a b = record { ends = λ p. ground arith }

to_u128-Ends : (a : ℕ) → Ends (to_u128 a)
unfolding to_u128
to_u128-Ends a = record { ends = λ p. ground arith }

from_subtraction-Ends : (a b : ℕ) → Ends (from_subtraction a b)
from_subtraction-Ends a b =
    let (r, e, _, _) = from_subtraction_difference a b in record { ends = λ p. cc }

module _ ⦃num : Decimals⦄ where
  from_ratio-Ends : (n d : ℕ) → Ends (num.from_ratio n d)
  from_ratio-Ends n d = Ends-of_panic _ (num.from_ratio_err n d)

  mul256-Ends : (a d : ℕ) → Ends (num.mul256 a d)
  mul256-Ends a d = Ends-of_panic _ (num.mul256_err a d)

  from_ratio256-Ends : (n d : ℕ) → Ends (num.from_ratio256 n d)
  from_ratio256-Ends n d = Ends-of_panic _ (num.from_ratio256_err n d)

load-Ends : {A : Type 0} (o : Option A) → Ends (ok_or o not_found)
load-Ends none = record { ends = λ p. cc }
load-Ends (some a) = Ends-ok a

ruleset ends = (
  Ends-bind, Ends-ok, Ends-if, sub_or_panic-Ends, add_u64-Ends, add_u256-Ends, to_u128-Ends,
  from_subtraction-Ends, from_ratio-Ends, mul256-Ends, from_ratio256-Ends,
)

module _ ⦃num : Decimals⦄ where
  calculate_new_withdraw_rate-Ends :
      (amount rate total : ℕ) (slashed : SignedInt)
      → Ends (calculate_new_withdraw_rate amount rate total slashed)
  unfolding calculate_new_withdraw_rate
  calculate_new_withdraw_rate-Ends amount rate total slashed = search ends depth 20

  newly_added_loop-Ends :
      (fuel time i : ℕ) (s : Store) (total count : ℕ)
      → 0 < fuel
      → key_bound s.history < fuel + i
      → Ends (newly_added_loop fuel time i s total count)
  unfolding newly_added_loop
  newly_added_loop-Ends zero time i s total count some_fuel enough = absurd (omega arith)
  newly_added_loop-Ends (suc fuel) time i s total count some_fuel enough =
      elim (Option-cases (unprocessed time i s)) [
        | inl end ↦ rw (end, newly_added_loop) (Ends-ok _)
        | inr (h, due) ↦
            let below = unprocessed-lt-key_bound time i s h due in
            rw (due, newly_added_loop)
              (Ends-bind _ _ (mul256-Ends _ _) λ unbonded e₁.
                Ends-bind _ _ (add_u256-Ends _ _) λ total' e₂.
                  Ends-bind _ _ (add_u64-Ends _ _) λ count' e₃.
                    Ends-bind _ _ (add_u64-Ends _ _) λ j e.
                      let j_lem = add_u64_ok i 1 j e in
                      newly_added_loop-Ends fuel time j s total' count' (omega arith) (omega arith))
      ]

  release_loop-Ends :
      (fuel time total : ℕ) (slashed : SignedInt) (i last : ℕ) (s : Store)
      → 0 < fuel
      → key_bound s.history < fuel + i
      → Ends (release_loop fuel time total slashed i last s)
  unfolding release_loop store_unbond_history
  release_loop-Ends zero time total slashed i last s some_fuel enough = absurd (omega arith)
  release_loop-Ends (suc fuel) time total slashed i last s some_fuel enough =
      elim (Option-cases (unprocessed time i s)) [
        | inl end ↦ rw (end, release_loop) (Ends-ok _)
        | inr (h, due) ↦
            let below = unprocessed-lt-key_bound time i s h due in
            rw (due, release_loop)
              (Ends-bind _ _ (calculate_new_withdraw_rate-Ends _ _ _ _) λ rate e₁.
                Ends-bind _ _ (add_u64-Ends _ _) λ j e.
                  let j_lem = add_u64_ok i 1 j e in
                  let same = key_bound-insert i (release h rate) s.history in
                  release_loop-Ends fuel time total slashed j i
                    (store_unbond_history i (release h rate) s) (omega arith) (omega arith))
      ]

  newly_added-Ends :
      (last time : ℕ) (s : Store) → Ends (calculate_newly_added_unbonded_amount last time s)
  unfolding calculate_newly_added_unbonded_amount
  newly_added-Ends last time s =
      Ends-bind _ _ (add_u64-Ends _ _)
        λ i e. newly_added_loop-Ends (history_fuel s) time i s 0 0 (omega arith) (omega arith)

  release-Ends :
      (time total : ℕ) (slashed : SignedInt) (i last : ℕ) (s : Store)
      → Ends (release_loop (history_fuel s) time total slashed i last s)
  release-Ends time total slashed i last s =
      release_loop-Ends (history_fuel s) time total slashed i last s (omega arith) (omega arith)

  -- `process_withdraw_rate` ends on every storage: its two loops over the stored batches never use up the
  -- fuel that the storage gives them.
  pub process_withdraw_rate_ends :
      (time balance : ℕ) (s : Store) → process_withdraw_rate time balance s ≢ err out_of_fuel
  unfolding process_withdraw_rate
  process_withdraw_rate_ends time balance s =
      let e : Ends (process_withdraw_rate time balance s) =
        Ends-bind _ _ (Ends-bind _ _ (load-Ends s.state) λ st e. Ends-ok _) λ (st, s₁) e₁.
          Ends-bind _ _ (Ends-bind _ _ (newly_added-Ends _ time s₁) λ t e. Ends-ok _)
            λ ((total, count), s₂) e₂. Ends-if_at (ltb count 1) _ _ s₂ (Ends-ok _) (
              Ends-bind _ _ (Ends-bind _ _ (from_subtraction-Ends _ _) λ d e. Ends-ok _)
                λ (d, s₃) e₃.
                  Ends-bind _ _ (Ends-bind _ _ (to_u128-Ends _) λ d e. Ends-ok _) λ (total', s₄) e₄.
                    Ends-bind _ _ (Ends-bind _ _ (from_subtraction-Ends _ _) λ d e. Ends-ok _)
                      λ (d', s₅) e₅.
                        Ends-bind _ _ (Ends-bind _ _ (add_u64-Ends _ _) λ d e. Ends-ok _)
                          λ (i, s₆) e₆.
                            Ends-bind _ _ (release-Ends time total _ i _ s₆)
                              λ (last, s₇) e₇. Ends-ok _) in
      e.ends
