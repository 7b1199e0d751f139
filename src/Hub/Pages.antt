-- ===== src/Hub/Pages.antt =====
-- The pages of the unbonding history: the keys of the map are the big-endian bytes of the batch ids, and
-- a page starts behind the bytes of an id and a one.
use native.Mathlib.Numerals.{unary_clauses}
use native.Mathlib.Nat.{mod-lt, mod-eq_of_lt, mul-add-mod_self_left, div-add-mod}
use jullia_lp_staking.Base.{
  ap, sym, ◌⊎◌, inl, inr, ℕ, zero, suc, ◌+◌, ◌*◌, ◌/◌, ◌%◌, ◌^◌, ◌<◌, ◌≡◌, refl, ◌∙◌, Bool, true,
  ◌&&◌, ◌||◌, List, [], ◌∷◌, ◌++◌, Option, some, arith, ltb, ◌==◌, if◌then◌else◌, min, take,
  unwrap_or, map,
}
use jullia_lp_staking.Cosmwasm.Uint.{u64_mod}
use jullia_lp_staking.Basset.{UnbondHistory}
use jullia_lp_staking.Hub.Store.{Store}
use jullia_lp_staking.Hub.Lists.{be_bytes, convert, bytes_leb, range_from, all_unbond_history}
use jullia_lp_staking.Hub.Queries.{history_response, query_unbond_requests_limitation}

pow_pos : (w : ℕ) → 0 < 256 ^ w
pow_pos zero = omega arith
pow_pos (suc w) = grind (arith, pow_pos w)

pow_suc : (w : ℕ) → 256 ^ suc w ≡ 256 * 256 ^ w
pow_suc w = simp unary_clauses (omega arith)

split : (n p q r a b : ℕ) → n ≡ p * q + r → q ≡ 256 * a + b → n ≡ 256 * p * a + (b * p + r)
split n p q r a b n_lem q_lem = rw (n_lem, q_lem) (grind arith)

digits : (n p : ℕ) → 0 < p → n % (256 * p) ≡ n / p % 256 * p + n % p
digits n p pos =
    let q = n / p in
    let r = n % p in
    let a = q / 256 in
    let b = q % 256 in
    let low : b * p + r < 256 * p = grind (arith, mod-lt n pos) in
    let q_lem : q ≡ 256 * a + b = omega arith in
    let n_lem : n ≡ 256 * p * a + (b * p + r) = split n p q r a b (sym (div-add-mod n p)) q_lem in
    ap (λ m. m % (256 * p)) n_lem ∙ mul-add-mod_self_left (256 * p) a (b * p + r) ∙ mod-eq_of_lt low

lt_cases : (x y : ℕ) → (x < y) ⊎ (x ≡ y) ⊎ (y < x)
lt_cases x y = ground arith

digits_order :
    (x y a b p : ℕ) → a < p → b < p → (ltb x y || x == y && ltb a b) ≡ ltb (x * p + a) (y * p + b)
digits_order x y a b p la lb = elim (lt_cases x y) [
  | inl less ↦ let e : x * p + a < y * p + b = grind arith in ground arith
  | inr (inl same) ↦ rw same (ground arith)
  | inr (inr more) ↦ let e : y * p + b < x * p + a = grind arith in ground arith
]

-- The start of a page is above the bytes of an id exactly where the id is not behind it.
bytes_leb-convert_mod :
    (w i k : ℕ)
    → bytes_leb (be_bytes w i ++ 1 ∷ []) (be_bytes w k) ≡ ltb (i % 256 ^ w) (k % 256 ^ w)
bytes_leb-convert_mod zero i k = ground arith
bytes_leb-convert_mod (suc w) i k =
    let p = 256 ^ w in
    let pos = pow_pos w in
    let order =
      digits_order (i / p % 256) (k / p % 256) (i % p) (k % p) p (mod-lt i pos) (mod-lt k pos) in
    rw (pow_suc w, bytes_leb-convert_mod w i k, digits i p pos, digits k p pos) order

-- The entries behind an id, by number.
abbrev pub behind : ℕ → List (ℕ × UnbondHistory) → List UnbondHistory
behind i [] = []
behind i ((k, h) ∷ m) = let rest = behind i m in if ltb i k then h ∷ rest else rest

-- All keys are words of 64 bits.
abbrev pub small_keys : List (ℕ × UnbondHistory) → Bool
small_keys [] = true
small_keys ((k, h) ∷ m) = ltb k u64_mod && small_keys m

range_from-convert :
    (i : ℕ) (m : List (ℕ × UnbondHistory))
    → i < u64_mod
    → small_keys m ≡ true
    → range_from (convert (some i)) m ≡ behind i m
unfolding range_from convert
range_from-convert i [] small keys = refl
range_from-convert i ((k, h) ∷ m) small keys =
    let key : k < u64_mod = ground arith in
    let here : bytes_leb (be_bytes 8 i ++ 1 ∷ []) (be_bytes 8 k) ≡ ltb i k =
      bytes_leb-convert_mod 8 i k ∙ rw (mod-eq_of_lt small, mod-eq_of_lt key) in
    ground (arith, range_from-convert i m, here)

-- A page of the history that starts after an id holds the first entries with a larger id, in their
-- order: as many as the limit says, 10 where it says nothing, and never more than 100.
pub query_unbond_requests_limitation_lem :
    (i : ℕ) (limit : Option ℕ) (s : Store)
    → i < u64_mod
    → small_keys s.history ≡ true
    → query_unbond_requests_limitation (some i) limit s ≡ record {
      history = map history_response (take (min (unwrap_or limit 10) 100) (behind i s.history));
    }
unfolding query_unbond_requests_limitation all_unbond_history
query_unbond_requests_limitation_lem i limit s small keys =
    rw (range_from-convert i s.history small keys)
