-- ===== src/Hub/Book/Users.antt =====
-- Sums over users: what a number of users hold together, whichever list names them.
use jullia_lp_staking.Base.{
  ℕ, ◌+◌, ◌≤◌, ◌≡◌, refl, String, true, false, List, [], ◌∷◌, arith, str_eq, str_eq_iff,
  if◌then◌else◌, Bool-cases, inl, inr,
}
use jullia_lp_staking.Hub.Book.{has_user, distinct}

abbrev pub total : (String → ℕ) → List String → ℕ
total g [] = 0
total g (u ∷ us) = g u + total g us

-- The same amounts, but nothing for one user.
abbrev pub without : String → (String → ℕ) → String → ℕ
without a g u = if str_eq a u then 0 else g u

pub total-congr :
    (f g : String → ℕ) (us : List String) → ((u : String) → f u ≡ g u) → total f us ≡ total g us
total-congr f g [] same = refl
total-congr f g (u ∷ us) same = omega (arith, same u, total-congr f g us same)

pub total_add :
    (f g : String → ℕ) (us : List String) → total (λ u. f u + g u) us ≡ total f us + total g us
total_add f g [] = omega arith
total_add f g (u ∷ us) = omega (arith, total_add f g us)

total-without_stranger :
    (a : String) (g : String → ℕ) (us : List String)
    → has_user a us ≡ false
    → total (without a g) us ≡ total g us
total-without_stranger a g [] stranger = refl
total-without_stranger a g (u ∷ us) stranger = ground (arith, total-without_stranger a g us)

total-without_le :
    (a : String) (g : String → ℕ) (us : List String) → total (without a g) us ≤ total g us
total-without_le a g [] = omega arith
total-without_le a g (u ∷ us) = ground (arith, total-without_le a g us)

total-without :
    (a : String) (g : String → ℕ) (us : List String)
    → has_user a us ≡ true
    → g a + total (without a g) us ≤ total g us
total-without a g [] known = cc
total-without a g (u ∷ us) known =
    ground (arith, total-without a g us, total-without_le a g us, str_eq_iff a u)

-- Different users hold together at most what those hold who hold everything.
pub total-le :
    (g : String → ℕ) (us vs : List String)
    → distinct us ≡ true
    → ((a : String) → has_user a vs ≡ false → g a ≡ 0)
    → total g us ≤ total g vs
total-le g [] vs once others = omega arith
total-le g (u ∷ us) vs once others =
    let stranger : has_user u us ≡ false = ground arith in
    let rest = total-le (without u g) us vs (ground arith) (λ a new. ground (arith, others a)) in
    let same = total-without_stranger u g us stranger in
    elim (Bool-cases (has_user u vs)) [
      | inl known ↦ omega (arith, total-without u g vs known, rest, same)
      | inr new ↦ omega (arith, others u new, total-without_le u g vs, rest, same)
    ]

-- What one user holds, and what others of a bounded number of different users hold.
pub total-others :
    (a : String) (g : String → ℕ) (most : ℕ) (us : List String)
    → distinct us ≡ true
    → ((vs : List String) → distinct vs ≡ true → total g vs ≤ most)
    → g a + total (without a g) us ≤ most
total-others a g most us once bound = elim (Bool-cases (has_user a us)) [
  | inl known ↦ omega (arith, total-without a g us known, bound us once)
  | inr stranger ↦
      omega (arith, bound (a ∷ us) (ground arith), total-without_stranger a g us stranger)
]
