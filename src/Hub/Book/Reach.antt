-- ===== src/Hub/Book/Reach.antt =====
-- The storages that a hub comes to, from its instantiation on, and the claims in them.
use jullia_lp_staking.Base.{
  ℕ, ◌+◌, ◌*◌, ◌/◌, ◌≤◌, ◌<◌, ◌≡◌, refl, ◌∙◌, String, true, false, List, [], ◌∷◌, arith, none, some,
  ok,
}
use jullia_lp_staking.Base.Maps.{lookup}
use jullia_lp_staking.Cosmwasm.Decimal.{Decimals, decimal_one}
use jullia_lp_staking.Cosmwasm.Types.{Env, MessageInfo}
use jullia_lp_staking.Basset.{ExecuteMsg, InstantiateMsg}
use jullia_lp_staking.Messages.{Response}
use jullia_lp_staking.Hub.Store.{Store, Chain}
use jullia_lp_staking.Hub.Admin.{instantiate}
use jullia_lp_staking.Hub.Contract.{execute}
use jullia_lp_staking.Hub.Queue.{last_of, QueueIsValid, instantiate-QueueIsValid}
use jullia_lp_staking.Hub.Queue.Steps.{execute-QueueIsValid}
use jullia_lp_staking.Hub.Book.{Book, Balanced, Moves-Balanced, claims, has_user, distinct}
use jullia_lp_staking.Hub.Book.Views.{Refines, claim_of, total_of}
use jullia_lp_staking.Hub.Book.Refinement.{execute-Refines}

-- The storage of a contract before its instantiation.
abbrev pub empty_store : Store
empty_store = record {
  config = none;
  parameters = none;
  current_batch = none;
  state = none;
  guardians = [];
  wait = λ user. [];
  history = [];
}

-- What the claims of users on a batch are worth at a rate.
abbrev pub worth : (String → ℕ → ℕ) → List String → ℕ → ℕ → ℕ
worth f [] k rate = 0
worth f (u ∷ us) k rate = f u k * rate / decimal_one + worth f us k rate

worth-le :
    (f : String → ℕ → ℕ) (us : List String) (k rate : ℕ)
    → worth f us k rate * decimal_one ≤ claims f us k * rate
worth-le f [] k rate = omega arith
worth-le f (u ∷ us) k rate =
    let x = f u k * rate in
    let part : x / decimal_one * decimal_one ≤ x = omega arith in
    grind (arith, worth-le f us k rate)

pub worth-le_amount :
    (f : String → ℕ → ℕ) (us : List String) (k amount rate : ℕ)
    → claims f us k ≤ amount
    → worth f us k rate ≤ amount * rate / decimal_one
worth-le_amount f us k amount rate all =
    let product : claims f us k * rate ≤ amount * rate = grind arith in
    omega (arith, worth-le f us k rate, product)

module _ ⦃num : Decimals⦄ where
  -- The chain, its time and the sender differ from call to call; a call that fails changes nothing.
  pub data Reached : Store → Type 0 where
    instantiated :
        {s : Store}
        → (env : Env) (info : MessageInfo) (msg : InstantiateMsg) (r : Response)
        → instantiate env info msg empty_store ≡ ok (r, s)
        → Reached s
    executed :
        {s s' : Store}
        → Reached s
        → (chain : Chain) (env : Env) (info : MessageInfo) (msg : ExecuteMsg) (r : Response)
        → execute chain env info msg s ≡ ok (r, s')
        → Reached s'

  pub Reached-QueueIsValid : {s : Store} → Reached s → QueueIsValid s
  Reached-QueueIsValid {s} (Reached.instantiated env info msg r h) =
      instantiate-QueueIsValid env info msg empty_store s r refl h
  Reached-QueueIsValid {s = s'} (Reached.executed {s} before chain env info msg r h) =
      execute-QueueIsValid chain env info msg s s' r h (Reached-QueueIsValid before)

  abbrev empty_book : Book
  empty_book = record { last = 0; current = 1; claim = λ a k. 0; total = λ k. 0 }

  empty_book-Balanced : Balanced empty_book
  empty_book-Balanced = record {
    users = [];
    once = refl;
    others = λ a new k. refl;
    open_batches = λ k above. refl;
    old_batches = λ k. omega arith;
    behind = omega arith;
  }

  instantiate-Refines :
      (env : Env) (info : MessageInfo) (msg : InstantiateMsg) (s : Store) (r : Response)
      → instantiate env info msg empty_store ≡ ok (r, s)
      → Refines empty_book s
  unfolding instantiate lookup
  instantiate-Refines env info msg s r h = record {
    has_last = ground arith;
    has_current = ground arith;
    has_claim = λ a k. ground arith;
    has_total = λ k. ground arith;
  }

  -- Such a storage stands for a balanced book.
  Reached-Balanced : {s : Store} → Reached s → (b : Book) × Balanced b × Refines b s
  Reached-Balanced {s} (Reached.instantiated env info msg r h) =
      (empty_book, empty_book-Balanced, instantiate-Refines env info msg s r h)
  Reached-Balanced {s = s'} (Reached.executed {s} before chain env info msg r h) =
      let (b, v, f) = Reached-Balanced before in
      let (b', moves, f') =
        execute-Refines chain env info msg s s' r b h (Reached-QueueIsValid before) f in
      (b', Moves-Balanced moves v, f')

  pub claims_congr :
      (f g : String → ℕ → ℕ) (us : List String) (k : ℕ)
      → ((a : String) → f a k ≡ g a k)
      → claims f us k ≡ claims g us k
  claims_congr f g [] k same = refl
  claims_congr f g (u ∷ us) k same = omega (arith, same u, claims_congr f g us k same)

  -- In every storage that the hub comes to, there are users who hold all claims; on a batch that is not
  -- released, also on the current one, their claims add up to its recorded amount, and on no batch to
  -- more.
  pub Reached-claims :
      (s : Store)
      → Reached s
      → (users : List String) × (last : ℕ) × (last_of s ≡ some last)
        × (distinct users ≡ true)
        × ((a : String) → has_user a users ≡ false → (k : ℕ) → claim_of s a k ≡ 0)
        × ((k : ℕ) → last < k → claims (claim_of s) users k ≡ total_of s k)
        × ((k : ℕ) → claims (claim_of s) users k ≤ total_of s k)
  Reached-claims s reached =
      let (b, v, f) = Reached-Balanced reached in
      let same = λ (k : ℕ). claims_congr (claim_of s) b.claim v.users k (λ a. f.has_claim a k) in
      (
        v.users,
        b.last,
        f.has_last,
        v.once,
        (λ a new k. f.has_claim a k ∙ v.others a new k),
        (λ k above. omega (arith, same k, f.has_total k, v.open_batches k above)),
        (λ k. omega (arith, same k, f.has_total k, v.old_batches k)),
      )
