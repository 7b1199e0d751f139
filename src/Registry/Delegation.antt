-- ===== src/Registry/Delegation.antt =====
-- The delegations of `calculate_delegations` are the amount, split so that no validator is raised
-- above its share of the new total.
use jullia_lp_staking.Base.{
  ℕ, ◌+◌, ◌-◌, ◌/◌, ◌%◌, ◌≤◌, ◌<◌, ◌≡◌, refl, ◌⊎◌, inl, inr, List, [], ◌∷◌, arith, ltb, leb,
  Bool-cases, ltb→lt, generic_err, panic, length, replicate, sum, sum-replicate_zero, ok, err,
  Failure,
}
use jullia_lp_staking.Cosmwasm.Uint.{
  u128_mod, add_u128, add_u128_fits, sub_or_panic_fits, checked_sub_fits,
}
use jullia_lp_staking.Registry.Common.{
  ValidatorResponse, delegate_loop, calculate_delegations, extra_coin,
}
use jullia_lp_staking.Registry.Targets.{
  delegated_sum, target, room_sum, target_fits, split_balance, sum_delegated_fits,
  sum_delegated_overflows,
}

-- A validator that gets coins ends at most at its target.
abbrev pub WithinTargets : ℕ → ℕ → ℕ → List ValidatorResponse → List ℕ → Type 0
WithinTargets cpv remaining index [] [] = Unit
WithinTargets cpv remaining index [] (d ∷ ds) = ⊥
WithinTargets cpv remaining index (v ∷ vs) [] = ⊥
WithinTargets cpv remaining index (v ∷ vs) (d ∷ ds) =
    ((d ≡ 0) ⊎ (v.total_delegated + d ≤ target cpv remaining index))
    × WithinTargets cpv remaining (index + 1) vs ds

WithinTargets-zeros :
    (cpv remaining index : ℕ) (vs : List ValidatorResponse)
    → WithinTargets cpv remaining index vs (replicate (length vs) 0)
WithinTargets-zeros cpv remaining index [] = tt
WithinTargets-zeros cpv remaining index (v ∷ vs) =
    (inl refl, WithinTargets-zeros cpv remaining (index + 1) vs)

-- What the loop of `calculate_delegations` has done from `index` on, when it ends.
record Delegated (cpv remaining index amount : ℕ) (vs : List ValidatorResponse) : Type 0 where
  delegations : List ℕ
  left : ℕ
  runs : delegate_loop cpv remaining index amount vs ≡ ok (delegations, left)
  adds_up : sum delegations + left ≡ amount
  left_over : left ≡ amount - room_sum cpv remaining index vs
  within : WithinTargets cpv remaining index vs delegations

delegate_loop-Delegated :
    (cpv remaining index amount : ℕ) (vs : List ValidatorResponse)
    → ((i : ℕ) → target cpv remaining i < u128_mod)
    → Delegated cpv remaining index amount vs
unfolding delegate_loop
delegate_loop-Delegated cpv remaining index amount [] fits = record {
  delegations = [];
  left = amount;
  runs = refl;
  adds_up = omega arith;
  left_over = omega arith;
  within = tt;
}
delegate_loop-Delegated cpv remaining index amount (v ∷ vs) fits = elim (Bool-cases (ltb t d)) [
  | inl above ↦
      let r = delegate_loop-Delegated cpv remaining (index + 1) amount vs fits in
      record {
        delegations = 0 ∷ r.delegations;
        left = r.left;
        runs = ground (arith, add_u128_fits cpv e, fits index, r.runs);
        adds_up = omega (arith, r.adds_up);
        left_over = ground (arith, r.left_over);
        within = (inl refl, r.within);
      }
  | inr below ↦ elim (Bool-cases (leb amount (t - d))) [
    | inl last ↦ record {
      delegations = amount ∷ replicate (length vs) 0;
      left = 0;
      runs = ground (
        arith,
        add_u128_fits cpv e,
        fits index,
        sub_or_panic_fits t d,
        checked_sub_fits amount amount,
        checked_sub_fits amount (t - d),
      );
      adds_up = omega (arith, sum-replicate_zero (length vs));
      left_over = ground arith;
      within = (inr (ground arith), WithinTargets-zeros cpv remaining (index + 1) vs);
    }
    | inr more ↦
        let r = delegate_loop-Delegated cpv remaining (index + 1) (amount - (t - d)) vs fits in
        record {
          delegations = (t - d) ∷ r.delegations;
          left = r.left;
          runs = ground (
            arith,
            add_u128_fits cpv e,
            fits index,
            sub_or_panic_fits t d,
            checked_sub_fits amount (t - d),
            r.runs,
          );
          adds_up = ground (arith, r.adds_up);
          left_over = ground (arith, r.left_over);
          within = (inr (ground arith), r.within);
        }
  ]
]
  where
    e : ℕ
    e = extra_coin remaining index

    t : ℕ
    t = target cpv remaining index

    d : ℕ
    d = v.total_delegated

-- With at least one validator and a new total that fits a word, `calculate_delegations` succeeds: the
-- delegations add up to the amount, and a validator that gets any ends at most at its share.
pub calculate_delegations_splits :
    (amount : ℕ) (vs : List ValidatorResponse)
    → 0 < length vs
    → delegated_sum vs + amount < u128_mod
    → let total = delegated_sum vs + amount in
      (ds : List ℕ) × (calculate_delegations amount vs ≡ ok ds)
      × (sum ds ≡ amount)
      × WithinTargets (total / length vs) (total % length vs) 0 vs ds
unfolding calculate_delegations
calculate_delegations_splits amount [] h fits = absurd (omega arith)
calculate_delegations_splits amount (v ∷ vs) h fits =
    let all = v ∷ vs in
    let total = delegated_sum all + amount in
    let r =
      delegate_loop-Delegated (total / length all) (total % length all) 0 amount all
        (λ i. target_fits total (length all) i h fits) in
    let done : r.left ≡ 0 = omega (arith, r.left_over, split_balance total all h) in
    (
      r.delegations,
      ground
          (arith, sum_delegated_fits 0 all, add_u128_fits (delegated_sum all) amount, r.runs, done),
      omega (arith, r.adds_up),
      r.within,
    )

calculate_delegations_overflows :
    (amount : ℕ) (v : ValidatorResponse) (vs : List ValidatorResponse)
    → u128_mod ≤ delegated_sum (v ∷ vs) + amount
    → calculate_delegations amount (v ∷ vs) ≡ err panic
unfolding calculate_delegations add_u128
calculate_delegations_overflows amount v vs large =
    elim (Bool-cases (ltb (delegated_sum (v ∷ vs)) u128_mod)) [
      | inl small ↦ ground (arith, sum_delegated_fits 0 (v ∷ vs))
      | inr too_large ↦ ground (arith, sum_delegated_overflows 0 (v ∷ vs))
    ]

-- `calculate_delegations` fails only on an empty list of validators, with an error, and on a new
-- total of 2 ^ 128 or more, with a panic: never because the amount could not be distributed.
pub calculate_delegations_fails :
    (amount : ℕ) (vs : List ValidatorResponse) (e : Failure)
    → calculate_delegations amount vs ≡ err e
    → ((vs ≡ []) × (e ≡ generic_err "Empty validators set"))
      ⊎ ((u128_mod ≤ delegated_sum vs + amount) × (e ≡ panic))
calculate_delegations_fails amount [] e h = unfold calculate_delegations in inl (refl, ground arith)
calculate_delegations_fails amount (v ∷ vs) e h =
    let all = v ∷ vs in
    elim (Bool-cases (ltb (delegated_sum all + amount) u128_mod)) [
      | inl fits ↦
          let r = calculate_delegations_splits amount all (omega arith) (ltb→lt _ _ fits) in
          cc (r.1)
      | inr large ↦
          let above : u128_mod ≤ delegated_sum all + amount = ground arith in
          inr (above, cc (calculate_delegations_overflows amount v vs above))
    ]

-- Delegations, when there are any, add up to the amount and lift no validator above its share.
pub calculate_delegations_ok :
    (amount : ℕ) (vs : List ValidatorResponse) (ds : List ℕ)
    → calculate_delegations amount vs ≡ ok ds
    → let total = delegated_sum vs + amount in
      (sum ds ≡ amount) × WithinTargets (total / length vs) (total % length vs) 0 vs ds
calculate_delegations_ok amount [] ds h = unfold calculate_delegations in absurd (cc)
calculate_delegations_ok amount (v ∷ vs) ds h =
    let all = v ∷ vs in
    elim (Bool-cases (ltb (delegated_sum all + amount) u128_mod)) [
      | inl fits ↦
          let r = calculate_delegations_splits amount all (omega arith) (ltb→lt _ _ fits) in
          let same : r.0 ≡ ds = cc (r.1) in rw (← same) (r.2, r.3)
      | inr large ↦
          let above : u128_mod ≤ delegated_sum all + amount = ground arith in
          absurd (cc (calculate_delegations_overflows amount v vs above))
    ]

pub calculate_delegations-sum :
    (amount : ℕ) (vs : List ValidatorResponse) (ds : List ℕ)
    → calculate_delegations amount vs ≡ ok ds
    → sum ds ≡ amount
calculate_delegations-sum amount vs ds h = (calculate_delegations_ok amount vs ds h).0
