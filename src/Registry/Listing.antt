-- ===== src/Registry/Listing.antt =====
-- The answer to `GetValidatorsForDelegation`, by which the hub splits its delegations.
use mathlib.Core.List.{Perm}
use mathlib.Core.List.Perm
use jullia_lp_staking.Base.{
  ℕ, ◌≡◌, refl, ap, ◌∙◌, String, Bool, true, ◌&&◌, List, [], ◌∷◌, map, some, Bool-cases, unwrap_or,
  arith, ok, leb, inl, inr, str_eq, str_eq_iff, if◌then◌else◌,
}
use jullia_lp_staking.Base.Maps.{lookup, insert, lookup-insert}
use jullia_lp_staking.Base.Keys.{string_key}
use jullia_lp_staking.Base.Sort.{sort_by, insert_sorted}
use jullia_lp_staking.Cosmwasm.Types.{Delegation}
use jullia_lp_staking.Registry.Common.{ValidatorResponse}
use jullia_lp_staking.Registry.Msg.{RegistryConfig, Answer, QueryMsg, Validator}
use jullia_lp_staking.Registry.Entries.{keyed, has_key}
use jullia_lp_staking.Registry.Contract.{
  Store, Chain, query, query_validators, smaller_first, with_delegation, delegations_by_validator,
}

-- The last of the delegations to an address, or else an amount.
abbrev pub delegated_to : String → ℕ → List Delegation → ℕ
delegated_to a n [] = n
delegated_to a n (d ∷ ds) = delegated_to a (if str_eq d.validator a then d.amount.amount else n) ds

abbrev pub ascending : List ValidatorResponse → Bool
ascending [] = true
ascending (v ∷ []) = true
ascending (v ∷ w ∷ vs) = leb v.total_delegated w.total_delegated && ascending (w ∷ vs)

insert_sorted-perm :
    (v : ValidatorResponse) (vs : List ValidatorResponse)
    → Perm (insert_sorted smaller_first v vs) (v ∷ vs)
unfolding insert_sorted
insert_sorted-perm v [] = Perm.refl _
insert_sorted-perm v (w ∷ vs) = elim (Bool-cases (smaller_first v w)) [
  | inl first ↦ rw first (Perm.refl _)
  | inr later ↦ rw later (Perm.trans (Perm.cons w (insert_sorted-perm v vs)) (Perm.swap v w vs))
]

sort_by-perm : (vs : List ValidatorResponse) → Perm (sort_by smaller_first vs) vs
unfolding sort_by
sort_by-perm [] = Perm.refl _
sort_by-perm (v ∷ vs) =
    Perm.trans (insert_sorted-perm v (sort_by smaller_first vs)) (Perm.cons v (sort_by-perm vs))

insert_sorted-ascending :
    (v : ValidatorResponse) (vs : List ValidatorResponse)
    → ascending vs ≡ true
    → ascending (insert_sorted smaller_first v vs) ≡ true
unfolding insert_sorted
insert_sorted-ascending v [] h = refl
insert_sorted-ascending v (w ∷ []) h = ground arith
insert_sorted-ascending v (w ∷ x ∷ vs) h = ground (arith, insert_sorted-ascending v (x ∷ vs))

sort_by-ascending : (vs : List ValidatorResponse) → ascending (sort_by smaller_first vs) ≡ true
unfolding sort_by
sort_by-ascending [] = refl
sort_by-ascending (v ∷ vs) =
    insert_sorted-ascending v (sort_by smaller_first vs) (sort_by-ascending vs)

lookup-delegations_by_validator :
    (a : String) (ds : List Delegation) (m : List (String × ℕ))
    → unwrap_or (lookup string_key a (delegations_by_validator ds m)) 0
      ≡ delegated_to a (unwrap_or (lookup string_key a m) 0) ds
unfolding delegations_by_validator
lookup-delegations_by_validator a [] m = refl
lookup-delegations_by_validator a (d ∷ ds) m =
    let stored = lookup-insert string_key d.validator a d.amount.amount m in
    lookup-delegations_by_validator a ds (insert string_key d.validator d.amount.amount m)
    ∙ ap (λ (n : ℕ). delegated_to a n ds) (ground (arith, stored))

-- An entry of the answer: an address, and what is delegated to it.
abbrev pub listed : List Delegation → String × Validator → ValidatorResponse
listed ds (a, v) = record { total_delegated = delegated_to a 0 ds; address = a }

with_delegation-listed :
    (ds : List Delegation) (m : List (String × Validator))
    → keyed m ≡ true
    → map (with_delegation (delegations_by_validator ds [])) m ≡ map (listed ds) m
unfolding lookup
with_delegation-listed ds [] h = refl
with_delegation-listed ds ((a, v) ∷ m) h = ground (
  arith,
  str_eq_iff a v.address,
  lookup-delegations_by_validator v.address ds [],
  with_delegation-listed ds m,
)

query-sorted :
    (chain : Chain) (s : Store) (c : RegistryConfig) (all : List Delegation)
    (vs : List ValidatorResponse)
    → keyed s.registry ≡ true
    → s.config ≡ some c
    → chain.query_all_delegations c.hub_contract ≡ ok all
    → query chain QueryMsg.get_validators_for_delegation s ≡ ok (Answer.validators vs)
    → vs ≡ sort_by smaller_first (map (listed all) s.registry)
unfolding query query_validators
query-sorted chain s c all vs k config asked h =
    ground (arith, config, asked, with_delegation-listed all s.registry)

-- The query for the validators answers with the entries of the registry, each once and with the last
-- delegation of the hub to it, or none; and the smallest delegations stand first.
pub query-ascending :
    (chain : Chain) (s : Store) (c : RegistryConfig) (all : List Delegation)
    (vs : List ValidatorResponse)
    → keyed s.registry ≡ true
    → s.config ≡ some c
    → chain.query_all_delegations c.hub_contract ≡ ok all
    → query chain QueryMsg.get_validators_for_delegation s ≡ ok (Answer.validators vs)
    → (ascending vs ≡ true) × Perm vs (map (listed all) s.registry)
query-ascending chain s c all vs k config asked h =
    let unsorted = map (listed all) s.registry in
    rw (query-sorted chain s c all vs k config asked h)
      (sort_by-ascending unsorted, sort_by-perm unsorted)

-- What holds of each of the validators.
abbrev pub Each : (ValidatorResponse → Type 0) → List ValidatorResponse → Type 0
Each P [] = Unit
Each P (v ∷ vs) = P v × Each P vs

insert_sorted-Each :
    (P : ValidatorResponse → Type 0) (v : ValidatorResponse) (vs : List ValidatorResponse)
    → P v
    → Each P vs
    → Each P (insert_sorted smaller_first v vs)
unfolding insert_sorted
insert_sorted-Each P v [] here rest = (here, tt)
insert_sorted-Each P v (w ∷ vs) here (first, rest) = elim (Bool-cases (smaller_first v w)) [
  | inl e ↦ rw e (here, (first, rest))
  | inr e ↦ rw e (first, insert_sorted-Each P v vs here rest)
]

sort_by-Each :
    (P : ValidatorResponse → Type 0) (vs : List ValidatorResponse)
    → Each P vs
    → Each P (sort_by smaller_first vs)
unfolding sort_by
sort_by-Each P [] h = tt
sort_by-Each P (v ∷ vs) (here, rest) =
    insert_sorted-Each P v (sort_by smaller_first vs) here (sort_by-Each P vs rest)

-- A validator of the answer is in the registry, and holds the last delegation to it, or none.
abbrev pub Registered : List (String × Validator) → List Delegation → ValidatorResponse → Type 0
Registered m all v =
    (has_key v.address m ≡ true) × (v.total_delegated ≡ delegated_to v.address 0 all)

map-Registered :
    (m registry : List (String × Validator)) (all : List Delegation)
    → ((a : String) → has_key a m ≡ true → has_key a registry ≡ true)
    → Each (Registered registry all) (map (listed all) m)
map-Registered [] registry all known = tt
map-Registered ((a, v) ∷ m) registry all known = (
  (known a (ground (arith, str_eq_iff a a)), refl),
  map-Registered m registry all (λ b h. known b (ground arith)),
)

pub query-Registered :
    (chain : Chain) (s : Store) (c : RegistryConfig) (all : List Delegation)
    (vs : List ValidatorResponse)
    → keyed s.registry ≡ true
    → s.config ≡ some c
    → chain.query_all_delegations c.hub_contract ≡ ok all
    → query chain QueryMsg.get_validators_for_delegation s ≡ ok (Answer.validators vs)
    → Each (Registered s.registry all) vs
query-Registered chain s c all vs k config asked h =
    rw (query-sorted chain s c all vs k config asked h) (
      sort_by-Each (Registered s.registry all) (map (listed all) s.registry)
        (map-Registered s.registry s.registry all (λ a h. h)))
