-- ===== src/System/Bonding.antt =====
-- A bond of a user to the hub, with the answer of the registry to the hub's query.
use jullia_lp_staking.Base.{
  ℕ, ◌+◌, ◌/◌, ◌≤◌, ◌≡◌, ◌∙◌, refl, String, List, [], ◌∷◌, ◌++◌, true, some, ok, arith, length,
  Result-cases, inl, inr, ◌==◌, Bool-cases,
}
use jullia_lp_staking.Cosmwasm.Decimal.{Decimals}
use jullia_lp_staking.Cosmwasm.Types.{Coin, Env, MessageInfo, Delegation}
use jullia_lp_staking.Basset.{Parameters, Config, BondType}
use jullia_lp_staking.Messages.{CosmosMsg, Payload, Response}
use jullia_lp_staking.Registry.Common.{ValidatorResponse, nonzero_shares}
use jullia_lp_staking.Registry.Msg.{RegistryConfig, Answer, QueryMsg, Validator}
use jullia_lp_staking.Registry.Contract
use jullia_lp_staking.Registry.Entries.{keyed, has_key}
use jullia_lp_staking.Registry.Listing.{delegated_to, Each, Registered, query-Registered}
use jullia_lp_staking.Registry.Targets.{delegated_sum}
use jullia_lp_staking.Registry.Delegation.{WithinTargets, calculate_delegations_ok}
use jullia_lp_staking.Hub.Store.{Store, Chain}
use jullia_lp_staking.Hub.Bond.{execute_bond, delegate_msg, find_payment}
use jullia_lp_staking.Hub.Delegations.{delegated_coins, delegated_coins-nonzero_shares}
use jullia_lp_staking.Hub.Flows.{execute_bond_shares}

-- What holds of each delegation among the messages.
abbrev pub EachDelegation : (String → ℕ → Type 0) → List CosmosMsg → Type 0
EachDelegation P [] = Unit
EachDelegation P (CosmosMsg.delegate v c ∷ ms) = P v c.amount × EachDelegation P ms
EachDelegation P (m ∷ ms) = EachDelegation P ms

-- A delegation goes to a validator of the registry, which then holds at most `most`.
abbrev pub Spread : List (String × Validator) → List Delegation → ℕ → String → ℕ → Type 0
Spread registry all most a n = (has_key a registry ≡ true) × (delegated_to a 0 all + n ≤ most)

nonzero_shares-Spread :
    (registry : List (String × Validator)) (all : List Delegation) (denom : String)
    (share remaining index : ℕ) (vs : List ValidatorResponse) (ds : List ℕ) (ms : List CosmosMsg)
    → Each (Registered registry all) vs
    → WithinTargets share remaining index vs ds
    → nonzero_shares (delegate_msg denom) vs ds ≡ ok ms
    → EachDelegation (Spread registry all (share + 1)) ms
unfolding nonzero_shares
nonzero_shares-Spread registry all denom share remaining index [] [] ms known within h =
    let e : ms ≡ [] = ground arith in rw e tt
nonzero_shares-Spread registry all denom share remaining index [] (d ∷ ds) ms known within h =
    absurd within
nonzero_shares-Spread registry all denom share remaining index (v ∷ vs) [] ms known within h =
    absurd within
nonzero_shares-Spread registry all denom share remaining index (v ∷ vs) (d ∷ ds) ms
      ((has, holds), known) (here, within) h =
    elim (Result-cases (nonzero_shares (delegate_msg denom) vs ds)) [
      | inr (e, fails) ↦ absurd (ground arith)
      | inl (rest, done) ↦
          let later =
            nonzero_shares-Spread registry all denom share remaining (index + 1) vs ds rest known
              within done in
          elim (Bool-cases (d == 0)) [
            | inl none_here ↦ let e : ms ≡ rest = ground arith in rw e later
            | inr some_here ↦
                let e : ms ≡ delegate_msg denom v.address d ∷ rest = ground arith in
                let bound : delegated_to v.address 0 all + d ≤ share + 1 = ground arith in
                rw e ((has, bound), later)
          ]
    ]

EachDelegation-append :
    (P : String → ℕ → Type 0) (ms : List CosmosMsg) (a : String) (payload : Payload)
    → EachDelegation P ms
    → EachDelegation P (ms ++ CosmosMsg.wasm_execute a payload [] ∷ [])
EachDelegation-append P [] a payload h = tt
EachDelegation-append P (CosmosMsg.delegate v c ∷ ms) a payload (here, rest) =
    (here, EachDelegation-append P ms a payload rest)
EachDelegation-append P (m ∷ ms) a payload h = EachDelegation-append P ms a payload h

delegated_coins-append :
    (ms : List CosmosMsg) (a : String) (payload : Payload)
    → delegated_coins (ms ++ CosmosMsg.wasm_execute a payload [] ∷ []) ≡ delegated_coins ms
delegated_coins-append [] a payload = refl
delegated_coins-append (m ∷ ms) a payload = ground (arith, delegated_coins-append ms a payload)

module _ ⦃num : Decimals⦄ where
  -- A bond of a user that succeeds, from the registry to the chain: where the hub got the answer of the
  -- registry to its query, its messages delegate the whole payment, each to a validator of the registry,
  -- which then holds at most one coin more than the average of all listed validators with the payment.
  pub query-execute_bond :
      (registry : Contract.Chain) (t : Contract.Store) (rc : RegistryConfig) (all : List Delegation)
      (vs : List ValidatorResponse) (chain : Chain) (env : Env) (info : MessageInfo)
      (p : Parameters) (c : Config) (address : String) (pay : Coin) (s s' : Store) (r : Response)
      → keyed t.registry ≡ true
      → t.config ≡ some rc
      → registry.query_all_delegations rc.hub_contract ≡ ok all
      → Contract.query registry QueryMsg.get_validators_for_delegation t ≡ ok (Answer.validators vs)
      → s.parameters ≡ some p
      → s.config ≡ some c
      → c.validators_registry_contract ≡ some address
      → chain.query_validators address ≡ ok vs
      → find_payment p.underlying_coin_denom info.funds ≡ some pay
      → execute_bond chain env info BondType.st_atom s ≡ ok (r, s')
      → (delegated_coins r.messages ≡ pay.amount)
        × EachDelegation
            (Spread t.registry all ((delegated_sum vs + pay.amount) / length vs + 1))
            r.messages
  query-execute_bond registry t rc all vs chain env info p c address pay s s' r k tconfig asked
        answered params config known listed found h =
      let (ds, ms, token, minted, sent, split, built) =
        execute_bond_shares chain env info p pay s s' r c address vs params found config known
          listed h in
      let (adds_up, within) = calculate_delegations_ok pay.amount vs ds split in
      let each = query-Registered registry t rc all vs k tconfig asked answered in
      let spread =
        nonzero_shares-Spread t.registry all pay.denom _ _ 0 vs ds ms each within built in
      rw sent (
        delegated_coins-append ms token _
            ∙ delegated_coins-nonzero_shares pay.denom vs ds ms built
            ∙ adds_up,
        EachDelegation-append _ ms token _ spread,
      )
