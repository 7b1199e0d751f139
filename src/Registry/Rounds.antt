-- ===== src/Registry/Rounds.antt =====
-- One round of the `for` loop of `calculate_undelegations`.
use jullia_lp_staking.Base.{
  ℕ, ◌+◌, ◌-◌, ◌≤◌, ◌<◌, ◌≡◌, refl, inl, inr, List, [], ◌∷◌, arith, leb, Bool-cases, min, length,
  sum, ok,
}
use jullia_lp_staking.Cosmwasm.Uint.{u128_mod, add_u128_fits, checked_sub_fits}
use jullia_lp_staking.Registry.Common.{ValidatorResponse, Round, undelegate_loop, extra_coin}
use jullia_lp_staking.Registry.Targets.{target, excess_sum}

-- Each undelegation has grown by at most what its validator holds above its target.
abbrev pub TakesExcess : ℕ → ℕ → ℕ → List ℕ → List ValidatorResponse → List ℕ → Type 0
TakesExcess cpv remaining index us [] us' = us' ≡ us
TakesExcess cpv remaining index [] (v ∷ vs) us' = ⊥
TakesExcess cpv remaining index (u ∷ us) (v ∷ vs) [] = ⊥
TakesExcess cpv remaining index (u ∷ us) (v ∷ vs) (u' ∷ us') =
    (u ≤ u')
    × (u' ≤ u + (v.total_delegated - target cpv remaining index))
    × TakesExcess cpv remaining (index + 1) us vs us'

pub TakesExcess-refl :
    (cpv remaining index : ℕ) (us : List ℕ) (vs : List ValidatorResponse)
    → length us ≡ length vs
    → TakesExcess cpv remaining index us vs us
TakesExcess-refl cpv remaining index us [] h = refl
TakesExcess-refl cpv remaining index [] (v ∷ vs) h = absurd (omega arith)
TakesExcess-refl cpv remaining index (u ∷ us) (v ∷ vs) h =
    (omega arith, omega arith, TakesExcess-refl cpv remaining (index + 1) us vs (omega arith))

-- What one round of the loop of `calculate_undelegations` has done from `index` on.
pub record Undelegated (cpv remaining index amount total : ℕ) (us : List ℕ)
    (vs : List ValidatorResponse) : Type 0 where
  pub round : Round
  pub runs : undelegate_loop cpv remaining index amount total us vs ≡ ok round
  pub adds_up : sum round.undelegations + round.undelegation_amount ≡ sum us + amount
  pub left_over : round.undelegation_amount ≡ amount - excess_sum cpv remaining index vs
  pub taken : TakesExcess cpv remaining index us vs round.undelegations

pub undelegate_loop-Undelegated :
    (cpv remaining index amount total : ℕ) (us : List ℕ) (vs : List ValidatorResponse)
    → length us ≡ length vs
    → sum us + amount < u128_mod
    → amount ≤ total
    → ((i : ℕ) → target cpv remaining i < u128_mod)
    → Undelegated cpv remaining index amount total us vs
unfolding undelegate_loop
undelegate_loop-Undelegated cpv remaining index amount total us [] same small held fits = record {
  round = record {
    undelegations = us;
    validators = [];
    undelegation_amount = amount;
    total_delegated = total;
  };
  runs = refl;
  adds_up = refl;
  left_over = omega arith;
  taken = refl;
}
undelegate_loop-Undelegated cpv remaining index amount total [] (v ∷ vs) same small held fits =
    absurd (omega arith)
undelegate_loop-Undelegated cpv remaining index amount total (u ∷ us) (v ∷ vs) same small held
      fits =
    elim (Bool-cases (leb amount (d - t))) [
      | inl last ↦ record {
        round = record {
          undelegations = (u + amount) ∷ us;
          validators = record v { total_delegated = d - amount } ∷ vs;
          undelegation_amount = 0;
          total_delegated = total - amount;
        };
        runs = ground (
          arith,
          add_u128_fits cpv e,
          fits index,
          checked_sub_fits d (min t d),
          add_u128_fits u amount,
          checked_sub_fits amount amount,
          checked_sub_fits total amount,
          checked_sub_fits d amount,
        );
        adds_up = omega arith;
        left_over = ground arith;
        taken = (
          omega arith,
          ground arith,
          TakesExcess-refl cpv remaining (index + 1) us vs (omega arith),
        );
      }
      | inr more ↦
          let r =
            undelegate_loop-Undelegated cpv remaining (index + 1) (amount - (d - t))
              (total - (d - t)) us vs (omega arith) (ground arith) (ground arith) fits in
          record {
            round = record {
              undelegations = (u + (d - t)) ∷ r.round.undelegations;
              validators = record v { total_delegated = d - (d - t) } ∷ r.round.validators;
              undelegation_amount = r.round.undelegation_amount;
              total_delegated = r.round.total_delegated;
            };
            runs = ground (
              arith,
              add_u128_fits cpv e,
              fits index,
              checked_sub_fits d (min t d),
              add_u128_fits u (d - t),
              checked_sub_fits amount (d - t),
              checked_sub_fits total (d - t),
              checked_sub_fits d (d - t),
              r.runs,
            );
            adds_up = ground (arith, r.adds_up);
            left_over = ground (arith, r.left_over);
            taken = (omega arith, omega arith, r.taken);
          }
    ]
  where
    e : ℕ
    e = extra_coin remaining index

    t : ℕ
    t = target cpv remaining index

    d : ℕ
    d = v.total_delegated
