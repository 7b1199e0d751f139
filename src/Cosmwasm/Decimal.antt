-- ===== src/Cosmwasm/Decimal.antt =====
-- Fixed-point numbers of cosmwasm_std (`Decimal`) and cosmwasm-bignumber (`Decimal256`), both with 18
-- fractional digits: a value is the number of its atomic units. The two libraries are not part of the
-- repository, so their operations are parameters with the behaviour that they document.
use jullia_lp_staking.Base.{ℕ, ◌*◌, ◌/◌, ◌^◌, ◌<◌, ◌≡◌, Result, ok, err, Failure, panic}
use jullia_lp_staking.Cosmwasm.Uint.{u128_mod, u256_mod}

abbrev pub decimal_one : ℕ
decimal_one = 10 ^ 18

pub record Decimals : Type 0 where
  -- `Decimal::from_ratio(n, d)`
  pub from_ratio : ℕ → ℕ → Result ℕ
  -- `Uint128 * Decimal`
  pub mul : ℕ → ℕ → Result ℕ
  -- `Decimal256::from_ratio(n, d)`
  pub from_ratio256 : ℕ → ℕ → Result ℕ
  -- `Uint256 * Decimal256`
  pub mul256 : ℕ → ℕ → Result ℕ
  pub from_ratio_fits :
      (n d : ℕ) → 0 < d → n * decimal_one / d < u128_mod → from_ratio n d ≡ ok (n * decimal_one / d)
  pub from_ratio_ok :
      (n d r : ℕ) → from_ratio n d ≡ ok r → (0 < d) × (r ≡ n * decimal_one / d) × (r < u128_mod)
  pub from_ratio_zero : (n : ℕ) → from_ratio n 0 ≡ err panic
  pub mul_fits : (a d : ℕ) → a * d / decimal_one < u128_mod → mul a d ≡ ok (a * d / decimal_one)
  pub mul_ok : (a d r : ℕ) → mul a d ≡ ok r → (r ≡ a * d / decimal_one) × (r < u128_mod)
  pub from_ratio256_fits :
      (n d : ℕ) → 0 < d → n * decimal_one < u256_mod → from_ratio256 n d ≡ ok (n * decimal_one / d)
  pub from_ratio256_ok :
      (n d r : ℕ) → from_ratio256 n d ≡ ok r → (0 < d) × (r ≡ n * decimal_one / d)
  pub mul256_fits : (a d : ℕ) → a * d < u256_mod → mul256 a d ≡ ok (a * d / decimal_one)
  pub mul256_ok : (a d r : ℕ) → mul256 a d ≡ ok r → r ≡ a * d / decimal_one
  -- The operations fail by a panic alone.
  pub from_ratio_err : (n d : ℕ) (e : Failure) → from_ratio n d ≡ err e → e ≡ panic
  pub mul_err : (a d : ℕ) (e : Failure) → mul a d ≡ err e → e ≡ panic
  pub from_ratio256_err : (n d : ℕ) (e : Failure) → from_ratio256 n d ≡ err e → e ≡ panic
  pub mul256_err : (a d : ℕ) (e : Failure) → mul256 a d ≡ err e → e ≡ panic
