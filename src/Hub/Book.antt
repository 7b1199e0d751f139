-- ===== src/Hub/Book.antt =====
-- What the hub promises to those who unbond, without rates, messages or storage: a book of claims on
-- numbered batches. The rules by which the book may change, and its balance.
use jullia_lp_staking.Base.{
  ℕ, ◌+◌, ◌≤◌, ◌<◌, ◌≡◌, refl, sym, ◌∙◌, String, Bool, true, false, ◌&&◌, ◌||◌, List, [], ◌∷◌,
  arith, ◌==◌, leb, ltb, str_eq, str_eq_iff, if◌then◌else◌, Bool-cases, inl, inr,
}
pub mod Users
pub mod Views
pub mod Withdrawals
pub mod Refinement
pub mod Reach

pub record Book : Type 0 where
  -- the last batch that is released, and the one that collects requests
  pub last : ℕ
  pub current : ℕ
  -- what a user may still claim of a batch, and what was requested of it in all
  pub claim : String → ℕ → ℕ
  pub total : ℕ → ℕ

-- A user asks for an amount.
abbrev pub request : String → ℕ → Book → Book
request a n b = record b {
  claim = λ u k. if str_eq a u && b.current == k then b.claim u k + n else b.claim u k;
  total = λ k. if b.current == k then b.total k + n else b.total k;
}

-- The current batch closes.
abbrev pub close : Book → Book
close b = record b { current = b.current + 1 }

-- A user takes the claims on the released batches.
abbrev pub withdraw : String → Book → Book
withdraw a b = record b {
  claim = λ u k. if str_eq a u && (ltb 0 k && leb k b.last) then 0 else b.claim u k;
}

pub data Moves : Book → Book → Type 0 where
  stay : {b : Book} → Moves b b
  requests : {b b' : Book} → (a : String) (n : ℕ) → Moves (request a n b) b' → Moves b b'
  closes : {b b' : Book} → Moves (close b) b' → Moves b b'
  releases :
      {b b' : Book}
      → (l : ℕ) → b.last ≤ l
      → l < b.current
      → Moves (record b { last = l }) b'
      → Moves b b'
  withdraws : {b b' : Book} → (a : String) → Moves (withdraw a b) b' → Moves b b'

abbrev pub has_user : String → List String → Bool
has_user a [] = false
has_user a (u ∷ us) = str_eq a u || has_user a us

abbrev pub distinct : List String → Bool
distinct [] = true
distinct (u ∷ us) = if has_user u us then false else distinct us

abbrev pub claims : (String → ℕ → ℕ) → List String → ℕ → ℕ
claims f [] k = 0
claims f (u ∷ us) k = f u k + claims f us k

-- All claims on a batch add up to what was requested of it, until it is released; from then on they are
-- at most that.
pub record Balanced (b : Book) : Type 0 where
  pub users : List String
  pub once : distinct users ≡ true
  pub others : (a : String) → has_user a users ≡ false → (k : ℕ) → b.claim a k ≡ 0
  pub open_batches : (k : ℕ) → b.last < k → claims b.claim users k ≡ b.total k
  pub old_batches : (k : ℕ) → claims b.claim users k ≤ b.total k
  pub behind : b.last < b.current

claims_other :
    (b : Book) (a : String) (n : ℕ) (us : List String) (k : ℕ)
    → has_user a us ≡ false
    → claims (request a n b).claim us k ≡ claims b.claim us k
claims_other b a n [] k h = refl
claims_other b a n (u ∷ us) k h = ground (arith, claims_other b a n us k)

-- A request raises the claims on the current batch by its amount.
claims-request :
    (b : Book) (a : String) (n : ℕ) (us : List String) (k : ℕ)
    → distinct us ≡ true
    → has_user a us ≡ true
    → claims (request a n b).claim us k
      ≡ (if b.current == k then claims b.claim us k + n else claims b.claim us k)
claims-request b a n [] k once h = absurd (cc)
claims-request b a n (u ∷ us) k once h =
    ground (arith, claims-request b a n us k, claims_other b a n us k, str_eq_iff a u)

claims-withdraw :
    (b : Book) (a : String) (us : List String) (k : ℕ)
    → (claims (withdraw a b).claim us k ≤ claims b.claim us k)
      × (b.last < k → claims (withdraw a b).claim us k ≡ claims b.claim us k)
claims-withdraw b a [] k = ground arith
claims-withdraw b a (u ∷ us) k = ground (arith, claims-withdraw b a us k)

-- The users of a book with one more user, if that user is new.
abbrev with_user : String → List String → List String
with_user a us = if has_user a us then us else a ∷ us

request-Balanced : (a : String) (n : ℕ) (b : Book) → Balanced b → Balanced (request a n b)
request-Balanced a n b v = elim (Bool-cases (has_user a v.users)) [
  | inl known ↦ record {
    users = v.users;
    once = v.once;
    others = λ u new k. ground (arith, v.others u new k, str_eq_iff a u);
    open_batches =
        λ k lt. ground (arith, v.open_batches k lt, claims-request b a n v.users k v.once known);
    old_batches = λ k. ground (arith, v.old_batches k, claims-request b a n v.users k v.once known);
    behind = v.behind;
  }
  | inr unknown ↦ record {
    users = a ∷ v.users;
    once = ground (arith, v.once);
    others = λ u new k.
        let new' : has_user u v.users ≡ false = ground arith in
        ground (arith, v.others u new' k, str_eq_iff a u, str_eq_iff u a);
    open_batches = λ k lt. ground (
      arith,
      v.open_batches k lt,
      claims_other b a n v.users k unknown,
      v.others a unknown k,
      str_eq_iff a a,
    );
    old_batches = λ k. ground (
      arith,
      v.old_batches k,
      claims_other b a n v.users k unknown,
      v.others a unknown k,
      str_eq_iff a a,
    );
    behind = v.behind;
  }
]

-- The rules keep a book balanced.
pub Moves-Balanced : {b b' : Book} → Moves b b' → Balanced b → Balanced b'
Moves-Balanced Moves.stay v = v
Moves-Balanced {b} (Moves.requests a n m) v = Moves-Balanced m (request-Balanced a n b v)
Moves-Balanced (Moves.closes m) v = Moves-Balanced m (record {
  users = v.users;
  once = v.once;
  others = v.others;
  open_batches = v.open_batches;
  old_batches = v.old_batches;
  behind = omega (arith, v.behind);
})
Moves-Balanced (Moves.releases l le lt m) v = Moves-Balanced m (record {
  users = v.users;
  once = v.once;
  others = v.others;
  open_batches = λ k above. v.open_batches k (omega arith);
  old_batches = v.old_batches;
  behind = lt;
})
Moves-Balanced {b} (Moves.withdraws a m) v = Moves-Balanced m (record {
  users = v.users;
  once = v.once;
  others = λ u new k. ground (arith, v.others u new k);
  open_batches = λ k above. (claims-withdraw b a v.users k).1 above ∙ v.open_batches k above;
  old_batches = λ k. omega (arith, (claims-withdraw b a v.users k).0, v.old_batches k);
  behind = v.behind;
})
