-- ===== src/Hub/Queue.antt =====
-- The queue of unbonding batches: its invariant, and the parts of the storage that it is about.
use jullia_lp_staking.Base.{
  ℕ, ◌≤◌, ◌<◌, ◌≡◌, ◌≢◌, ◌⊎◌, Option, none, some, true, false, arith, ok, Result-cases, inl, inr,
  [],
}
use jullia_lp_staking.Base.Maps.{lookup}
use jullia_lp_staking.Cosmwasm.Decimal.{Decimals}
use jullia_lp_staking.Cosmwasm.Types.{Env, MessageInfo}
use jullia_lp_staking.Basset.{
  State, CurrentBatch, UnbondHistory, BondType, InstantiateMsg, update_statom_exchange_rate,
}
use jullia_lp_staking.Messages.{Response}
use jullia_lp_staking.Hub.Store.{Store, Chain}
use jullia_lp_staking.Hub.Slashing.{slashing, query_actual_state, slashed_state, execute_slashing}
use jullia_lp_staking.Hub.Bond.{execute_bond, bonded_state}
use jullia_lp_staking.Hub.Admin.{instantiate}
use jullia_lp_staking.Hub.Release.{batch}
pub mod Epochs
pub mod Unbonding
pub mod Steps

abbrev last_in : Option State → Option ℕ
last_in none = none
last_in (some st) = some st.last_processed_batch

abbrev id_in : Option CurrentBatch → Option ℕ
id_in none = none
id_in (some b) = some b.id

-- `last_processed_batch` and the id of the current batch, where they are stored.
abbrev pub last_of : Store → Option ℕ
last_of s = last_in s.state

abbrev pub id_of : Store → Option ℕ
id_of s = id_in s.current_batch

-- The stored batches are those from 1 up to the current one, released up to the last processed one and
-- no further.
pub record QueueIsValid (s : Store) : Type 0 where
  pub last : ℕ
  pub current : ℕ
  pub has_last : last_of s ≡ some last
  pub has_current : id_of s ≡ some current
  pub behind : last < current
  pub stored : (k : ℕ) → 0 < k → k < current → batch k s ≢ none
  pub bounded : (k : ℕ) → (k ≡ 0) ⊎ (current ≤ k) → batch k s ≡ none
  pub released : (k : ℕ) (h : UnbondHistory) → batch k s ≡ some h → k ≤ last → h.released ≡ true
  pub pending : (k : ℕ) (h : UnbondHistory) → batch k s ≡ some h → last < k → h.released ≡ false

-- The invariant is about three parts of the storage.
pub QueueIsValid-same :
    (s s' : Store)
    → last_of s' ≡ last_of s
    → id_of s' ≡ id_of s
    → s'.history ≡ s.history
    → QueueIsValid s
    → QueueIsValid s'
unfolding lookup
QueueIsValid-same s s' e₁ e₂ e₃ v = record {
  last = v.last;
  current = v.current;
  has_last = rw e₁ v.has_last;
  has_current = rw e₂ v.has_current;
  behind = v.behind;
  stored = λ k. rw e₃ (v.stored k);
  bounded = λ k. rw e₃ (v.bounded k);
  released = λ k h. rw e₃ (v.released k h);
  pending = λ k h. rw e₃ (v.pending k h);
}

-- A new hub, on a storage without a history, has a valid queue.
pub instantiate-QueueIsValid :
    (env : Env) (info : MessageInfo) (msg : InstantiateMsg) (s s' : Store) (r : Response)
    → s.history ≡ []
    → instantiate env info msg s ≡ ok (r, s')
    → QueueIsValid s'
unfolding instantiate lookup
instantiate-QueueIsValid env info msg s s' r empty h = record {
  last = 0;
  current = 1;
  has_last = ground arith;
  has_current = ground arith;
  behind = omega arith;
  stored = λ k lo hi. absurd (omega arith);
  bounded = λ k out. ground arith;
  released = λ k g e. ground arith;
  pending = λ k g e. ground arith;
}

module _ ⦃num : Decimals⦄ where
  pub slashing-last :
      (chain : Chain) (env : Env) (s s' : Store) (st : State)
      → slashing chain env s ≡ ok (st, s')
      → (last_of s' ≡ last_of s) × (last_of s ≡ some st.last_processed_batch)
  unfolding slashing query_actual_state slashed_state update_statom_exchange_rate
  slashing-last chain env s s' st h = ground arith

  pub execute_bond-last :
      (chain : Chain) (env : Env) (info : MessageInfo) (t : BondType) (s s' : Store) (r : Response)
      → execute_bond chain env info t s ≡ ok (r, s')
      → last_of s' ≡ last_of s
  unfolding execute_bond bonded_state update_statom_exchange_rate
  execute_bond-last chain env info t s s' r h = elim (Result-cases (slashing chain env s)) [
    | inr (e, fails) ↦ absurd (ground arith)
    | inl ((st, s₁), done) ↦ ground (arith, slashing-last chain env s s₁ st done)
  ]

  pub execute_slashing-last :
      (chain : Chain) (env : Env) (s s' : Store) (r : Response)
      → execute_slashing chain env s ≡ ok (r, s')
      → last_of s' ≡ last_of s
  unfolding execute_slashing
  execute_slashing-last chain env s s' r h = elim (Result-cases (slashing chain env s)) [
    | inr (e, fails) ↦ absurd (ground arith)
    | inl ((st, s₁), done) ↦ ground (arith, slashing-last chain env s s₁ st done)
  ]
