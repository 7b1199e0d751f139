-- ===== src/Registry/Targets.antt =====
-- The even split that both loops of common.rs aim at: `coins_per_validator` each, and one coin more
-- for the first `remaining_coins` validators.
use jullia_lp_staking.Base.{
  ℕ, ◌+◌, ◌-◌, ◌*◌, ◌/◌, ◌%◌, ◌≤◌, ◌<◌, ◌≡◌, List, [], ◌∷◌, arith, min, length, ok, err, panic,
}
use jullia_lp_staking.Cosmwasm.Uint.{u128_mod, add_u128, add_u128_fits}
use jullia_lp_staking.Registry.Common.{ValidatorResponse, sum_delegated, extra_coin}

abbrev pub delegated_sum : List ValidatorResponse → ℕ
delegated_sum [] = 0
delegated_sum (v ∷ vs) = v.total_delegated + delegated_sum vs

abbrev pub target : ℕ → ℕ → ℕ → ℕ
target cpv remaining index = cpv + extra_coin remaining index

-- What the validators from `index` on lack to their targets.
abbrev pub room_sum : ℕ → ℕ → ℕ → List ValidatorResponse → ℕ
room_sum cpv remaining index [] = 0
room_sum cpv remaining index (v ∷ vs) =
    target cpv remaining index - v.total_delegated + room_sum cpv remaining (index + 1) vs

-- What they hold above their targets.
abbrev pub excess_sum : ℕ → ℕ → ℕ → List ValidatorResponse → ℕ
excess_sum cpv remaining index [] = 0
excess_sum cpv remaining index (v ∷ vs) =
    v.total_delegated - target cpv remaining index + excess_sum cpv remaining (index + 1) vs

-- Number of validators from `index` on that get an extra coin.
pub targets_balance :
    (cpv remaining index : ℕ) (vs : List ValidatorResponse)
    → cpv * length vs + min (remaining - index) (length vs) + excess_sum cpv remaining index vs
      ≡ delegated_sum vs + room_sum cpv remaining index vs
targets_balance cpv remaining index [] = omega arith
targets_balance cpv remaining index (v ∷ vs) =
    ground (arith, targets_balance cpv remaining (index + 1) vs)

pub split_total : (t n : ℕ) → 0 < n → t / n * n + t % n ≡ t
split_total t n h = grind arith

pub split_remaining : (t n : ℕ) → 0 < n → t % n < n
split_remaining t n h = grind arith

-- The targets of all validators add up to the total that is split.
pub split_balance :
    (t : ℕ) (vs : List ValidatorResponse)
    → 0 < length vs
    → t + excess_sum (t / length vs) (t % length vs) 0 vs
      ≡ delegated_sum vs + room_sum (t / length vs) (t % length vs) 0 vs
split_balance t vs h = omega (
  arith,
  targets_balance (t / length vs) (t % length vs) 0 vs,
  split_total t (length vs) h,
  split_remaining t (length vs) h,
)

le_mul : (x n : ℕ) → 0 < n → x ≤ x * n
le_mul x n h = grind arith

-- No target leaves the range of a word.
pub target_fits : (t n index : ℕ) → 0 < n → t < u128_mod → target (t / n) (t % n) index < u128_mod
target_fits t n index h fits = ground (arith, split_total t n h, le_mul (t / n) n h)

pub sum_delegated_fits :
    (acc : ℕ) (vs : List ValidatorResponse)
    → acc + delegated_sum vs < u128_mod
    → sum_delegated acc vs ≡ ok (acc + delegated_sum vs)
unfolding sum_delegated
sum_delegated_fits acc [] h = ground arith
sum_delegated_fits acc (v ∷ vs) h =
    ground
      (arith, add_u128_fits acc v.total_delegated, sum_delegated_fits (acc + v.total_delegated) vs)

pub sum_delegated_overflows :
    (acc : ℕ) (vs : List ValidatorResponse)
    → acc < u128_mod
    → u128_mod ≤ acc + delegated_sum vs
    → sum_delegated acc vs ≡ err panic
unfolding sum_delegated add_u128
sum_delegated_overflows acc [] fits h = absurd (omega arith)
sum_delegated_overflows acc (v ∷ vs) fits h =
    ground (arith, sum_delegated_overflows (acc + v.total_delegated) vs)
