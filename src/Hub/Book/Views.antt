-- ===== src/Hub/Book/Views.antt =====
-- The book that a storage of the hub stands for.
use jullia_lp_staking.Base.{
  ℕ, ◌+◌, ◌≡◌, refl, ◌∙◌, String, Bool, ◌&&◌, List, [], ◌∷◌, arith, ◌==◌, Option, none, some, ok,
  str_eq, str_eq_iff, if◌then◌else◌, Option-cases, inl, inr,
}
use jullia_lp_staking.Base.Maps.{lookup, insert, lookup-insert}
use jullia_lp_staking.Base.Keys.{u64_key, ordered_key}
use jullia_lp_staking.Cosmwasm.Uint.{add_u128}
use jullia_lp_staking.Basset.{CurrentBatch, UnbondHistory, UnbondWaitEntity}
use jullia_lp_staking.Hub.Store.{Store, Chain}
use jullia_lp_staking.Hub.Lists.{store_unbond_wait_list}
use jullia_lp_staking.Hub.Release.{batch}
use jullia_lp_staking.Hub.Queue.{last_of, id_of}
use jullia_lp_staking.Hub.Book.{Book}

abbrev pub waiting : Option UnbondWaitEntity → ℕ
waiting none = 0
waiting (some v) = v.statom_amount

-- The amount of a user's entry for a batch.
abbrev pub claim_of : Store → String → ℕ → ℕ
claim_of s a k = waiting (lookup u64_key k (s.wait a))

abbrev closed_amount : Option UnbondHistory → ℕ
closed_amount none = 0
closed_amount (some h) = h.statom_amount

abbrev open_amount : Option CurrentBatch → ℕ → ℕ → ℕ
open_amount none k n = n
open_amount (some b) k n = if b.id == k then b.requested_statom else n

-- The amount of a batch: that of the current batch, or that of the history.
abbrev pub total_of : Store → ℕ → ℕ
total_of s k = open_amount s.current_batch k (closed_amount (batch k s))

pub record Refines (b : Book) (s : Store) : Type 0 where
  pub has_last : last_of s ≡ some b.last
  pub has_current : id_of s ≡ some b.current
  pub has_claim : (a : String) (k : ℕ) → claim_of s a k ≡ b.claim a k
  pub has_total : (k : ℕ) → total_of s k ≡ b.total k

-- The view is of four parts of the storage.
pub Refines-same :
    (b : Book) (s s' : Store)
    → last_of s' ≡ last_of s
    → s'.current_batch ≡ s.current_batch
    → s'.history ≡ s.history
    → s'.wait ≡ s.wait
    → Refines b s
    → Refines b s'
Refines-same b s s' e₁ e₂ e₃ e₄ v = record {
  has_last = e₁ ∙ v.has_last;
  has_current = rw e₂ v.has_current;
  has_claim = λ a k. rw e₄ (v.has_claim a k);
  has_total = λ k. rw (e₂, e₃) (v.has_total k);
}

-- What is found does not depend on the order of the keys.
pub lookup_order :
    {V : Type 0} (before : ℕ → ℕ → Bool) (k : ℕ) (m : List (ℕ × V))
    → lookup (ordered_key before) k m ≡ lookup u64_key k m
unfolding lookup
lookup_order before k [] = refl
lookup_order before k ((j, v) ∷ m) = ground (arith, lookup_order before k m)

-- The sender's entry of the batch is written, with its amount and the new one.
pub store_unbond_wait_list-wait :
    (chain : Chain) (id : ℕ) (sender : String) (amount : ℕ) (s s' : Store) (a : String)
    → store_unbond_wait_list chain id sender amount s ≡ ok s'
    → s'.wait a ≡ (
        if str_eq sender a
        then insert
            (ordered_key chain.wait_before)
            id
            (record {
              statom_amount =
                  waiting (lookup (ordered_key chain.wait_before) id (s.wait sender)) + amount;
            })
            (s.wait sender)
        else s.wait a)
unfolding store_unbond_wait_list add_u128
store_unbond_wait_list-wait chain id sender amount s s' a h =
    elim (Option-cases (lookup (ordered_key chain.wait_before) id (s.wait sender))) [
      | inl none_yet ↦ ground arith
      | inr (v, some_yet) ↦ ground arith
    ]

-- An entry of the wait list grows by the amount, and no other changes.
pub store_unbond_wait_list-claim :
    (chain : Chain) (id : ℕ) (sender : String) (amount : ℕ) (s s' : Store) (a : String) (k : ℕ)
    → store_unbond_wait_list chain id sender amount s ≡ ok s'
    → claim_of s' a k
      ≡ (if str_eq sender a && id == k then claim_of s a k + amount else claim_of s a k)
store_unbond_wait_list-claim chain id sender amount s s' a k h =
    let key = ordered_key chain.wait_before in
    let entry : UnbondWaitEntity = record {
      statom_amount = waiting (lookup key id (s.wait sender)) + amount;
    } in
    rw (store_unbond_wait_list-wait chain id sender amount s s' a h) (
      ground (
        arith,
        str_eq_iff sender a,
        lookup_order chain.wait_before id (s.wait sender),
        lookup_order chain.wait_before k (s.wait sender),
        lookup_order chain.wait_before k (insert key id entry (s.wait sender)),
        lookup-insert key id k entry (s.wait sender),
      ))
