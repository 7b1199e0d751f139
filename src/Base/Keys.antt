-- ===== src/Base/Keys.antt =====
-- The keys of the stored maps: a `u64` in big-endian bytes comes in numeric order, a text in the order
-- of its bytes.
use Prim.Native.Nat.{ℕ}
use Prim.Native.String.{String, compare}
use mathlib.Core.Path.{◌≡◌}
use mathlib.Core.Logic.{◌↔◌}
use mathlib.Core.Bool.{Bool, true}
use native.Mathlib.Omega.{arith}
use text.Mathlib.Text.{◌==◌ as str_eq, is_lt}
use text.Mathlib.TextEquality.{eq_iff}
use jullia_lp_staking.Base.Tests.{◌==◌, ltb}
use jullia_lp_staking.Base.Maps.{Key}

pub ==_iff : (a b : ℕ) → ((a == b) ≡ true) ↔ (a ≡ b)
==_iff a b = ground arith

abbrev pub u64_key : Key ℕ
u64_key = record { beq = ◌==◌; beq_iff = ==_iff; before = ltb }

abbrev pub string_key : Key String
string_key = record { beq = str_eq; beq_iff = eq_iff; before = λ s t. is_lt (compare s t) }

-- Numbers in an order of their own, as the JSON texts of batch ids have.
abbrev pub ordered_key : (ℕ → ℕ → Bool) → Key ℕ
ordered_key before = record { beq = ◌==◌; beq_iff = ==_iff; before = before }
