-- ===== src/Hub/Store.antt =====
-- What the hub keeps in storage (the items and maps of contracts/lido_cosmos_hub/src/state.rs), what it
-- asks the chain, and a contract call as an action on the storage.
use jullia_lp_staking.Base.{
  ℕ, String, Bool, true, false, List, Option, some, Result, ok, err, Failure, not_found, ok_or,
  ◌>>=◌ as bind,
}
use jullia_lp_staking.Cosmwasm.Types.{Coin, Delegation}
use jullia_lp_staking.Basset.{
  Config, Parameters, CurrentBatch, State, UnbondHistory, UnbondWaitEntity, Cw20HookMsg,
}
use jullia_lp_staking.Registry.Common.{ValidatorResponse}

pub record Store : Type 0 where
  pub config : Option Config
  pub parameters : Option Parameters
  pub current_batch : Option CurrentBatch
  pub state : Option State
  pub guardians : List (String × Bool)
  -- `PREFIX_WAIT_MAP`: a bucket for each user, by batch id
  pub wait : String → List (ℕ × UnbondWaitEntity)
  -- `UNBOND_HISTORY_MAP`
  pub history : List (ℕ × UnbondHistory)

-- The answers of `deps.api`, of `deps.querier` and of the serialisation, as the call finds them.
pub record Chain : Type 0 where
  pub addr_validate : String → Result String
  -- `from_binary` of the message of a token transfer
  pub decode_hook : String → Result Cw20HookMsg
  -- address, denom
  pub query_balance : String → String → Result Coin
  pub query_all_delegations : String → Result (List Delegation)
  -- `GetValidatorsForDelegation` of the registry contract
  pub query_validators : String → Result (List ValidatorResponse)
  -- `total_supply` of the token contract's `TokenInfo`
  pub query_total_supply : String → Result ℕ
  -- the order of the encoded batch ids, the keys of a user's bucket
  pub wait_before : ℕ → ℕ → Bool

-- A failed call leaves no trace: the chain drops what it wrote.
abbrev pub Tx : Type 0 → Type 0
Tx A = Store → Result (A × Store)

infixl 5 ◌>>=◌ ◌>>◌
abbrev pub ◌>>=◌ : {A B : Type 0} → Tx A → (A → Tx B) → Tx B
◌>>=◌ m f s = bind (m s) (λ (a, s'). f a s')

abbrev pub ◌>>◌ : {B : Type 0} → Tx Unit → Tx B → Tx B
m >> k = m >>= λ _. k

abbrev pub pure : {A : Type 0} → A → Tx A
pure a s = ok (a, s)

abbrev pub fail : {A : Type 0} → Failure → Tx A
fail e s = err e

-- a step that does not write
abbrev pub lift : {A : Type 0} → Result A → Tx A
lift r s = bind r (λ a. ok (a, s))

abbrev pub fail_if : Bool → Failure → Tx Unit
fail_if b e s = elim b [ true ↦ err e | false ↦ ok (tt, s) ]

abbrev pub reads : {A : Type 0} → (Store → Result A) → Tx A
reads f s = bind (f s) (λ a. ok (a, s))

abbrev pub load : {A : Type 0} → (Store → Option A) → Tx A
load item s = bind (ok_or (item s) not_found) (λ a. ok (a, s))

abbrev pub save : (Store → Store) → Tx Unit
save f s = ok (tt, f s)

-- `CONFIG.save`, `PARAMETERS.save`, `CURRENT_BATCH.save`
abbrev pub save_config : Config → Tx Unit
save_config c = save (λ s. record s { config = some c })

abbrev pub save_parameters : Parameters → Tx Unit
save_parameters p = save (λ s. record s { parameters = some p })

abbrev pub save_current_batch : CurrentBatch → Tx Unit
save_current_batch b = save (λ s. record s { current_batch = some b })

-- `STATE.save`: the skipped field is not written.
abbrev pub stored_state : State → State
stored_state st = record st { total_statom_issued = 0 }

abbrev pub save_state : State → Tx Unit
save_state st = save (λ s. record s { state = some (stored_state st) })
