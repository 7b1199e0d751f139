-- ===== src/Cosmwasm/Uint.antt =====
-- Checked machine words. A `Uint128` is the `u128` that it wraps, a `Uint256` an unsigned word of 256
-- bits; the build keeps `overflow-checks`, so an operation that leaves the range panics.
use jullia_lp_staking.Base.{
  ℕ, ◌+◌, ◌-◌, ◌^◌, ◌<◌, ◌≤◌, ◌≡◌, arith, ltb, leb, if◌then◌else◌, Result, ok, err, overflow, panic,
}

abbrev pub u64_mod : ℕ
u64_mod = 2 ^ 64

abbrev pub u128_mod : ℕ
u128_mod = 2 ^ 128

abbrev pub u256_mod : ℕ
u256_mod = 2 ^ 256

-- `a + b`
abbrev pub add_within : ℕ → ℕ → ℕ → Result ℕ
add_within bound a b = if ltb (a + b) bound then ok (a + b) else err panic

unfoldable pub add_u64 : ℕ → ℕ → Result ℕ
add_u64 = add_within u64_mod

unfoldable pub add_u128 : ℕ → ℕ → Result ℕ
add_u128 = add_within u128_mod

unfoldable pub add_u256 : ℕ → ℕ → Result ℕ
add_u256 = add_within u256_mod

-- `a - b`, at any width
unfoldable pub sub_or_panic : ℕ → ℕ → Result ℕ
sub_or_panic a b = if leb b a then ok (a - b) else err panic

-- `a.checked_sub(b)?`
unfoldable pub checked_sub : ℕ → ℕ → Result ℕ
checked_sub a b = if leb b a then ok (a - b) else err overflow

-- `Uint128::from` a `Uint256`
unfoldable pub to_u128 : ℕ → Result ℕ
to_u128 a = if ltb a u128_mod then ok a else err panic

pub to_u128_fits : (a : ℕ) → a < u128_mod → to_u128 a ≡ ok a
unfolding to_u128
to_u128_fits a h = ground arith

pub add_u64_fits : (a b : ℕ) → a + b < u64_mod → add_u64 a b ≡ ok (a + b)
unfolding add_u64
add_u64_fits a b h = ground arith

pub add_u128_fits : (a b : ℕ) → a + b < u128_mod → add_u128 a b ≡ ok (a + b)
unfolding add_u128
add_u128_fits a b h = ground arith

pub add_u256_fits : (a b : ℕ) → a + b < u256_mod → add_u256 a b ≡ ok (a + b)
unfolding add_u256
add_u256_fits a b h = ground arith

pub sub_or_panic_fits : (a b : ℕ) → b ≤ a → sub_or_panic a b ≡ ok (a - b)
unfolding sub_or_panic
sub_or_panic_fits a b h = ground arith

pub checked_sub_fits : (a b : ℕ) → b ≤ a → checked_sub a b ≡ ok (a - b)
unfolding checked_sub
checked_sub_fits a b h = ground arith

pub sub_or_panic_ok : (a b c : ℕ) → sub_or_panic a b ≡ ok c → (b ≤ a) × (c ≡ a - b)
unfolding sub_or_panic
sub_or_panic_ok a b c h = ground arith

pub checked_sub_ok : (a b c : ℕ) → checked_sub a b ≡ ok c → (b ≤ a) × (c ≡ a - b)
unfolding checked_sub
checked_sub_ok a b c h = ground arith

pub add_u128_ok : (a b c : ℕ) → add_u128 a b ≡ ok c → (c ≡ a + b) × (c < u128_mod)
unfolding add_u128
add_u128_ok a b c h = ground arith
