-- ===== src/Registry/Removal.antt =====
-- The removal of a validator: where its delegation goes.
use jullia_lp_staking.Base.{
  ℕ, ◌+◌, ◌≤◌, ◌<◌, Failure, ◌≡◌, ◌≢◌, refl, sym, ◌∙◌, String, Bool, true, false, ◌||◌, List, [],
  ◌∷◌, arith, ok, err, some, none, Option-cases, Result, Result-cases, inl, inr, str_eq, str_eq_iff,
  map, sum, ltb, Bool-cases, Option,
}
use jullia_lp_staking.Base.Maps.{remove}
use jullia_lp_staking.Base.Keys.{string_key}
use jullia_lp_staking.Base.Sort.{sort_by, insert_sorted}
use jullia_lp_staking.Cosmwasm.Types.{Coin, MessageInfo, FullDelegation}
use jullia_lp_staking.Basset
use jullia_lp_staking.Messages.{CosmosMsg, Payload, Response}
use jullia_lp_staking.Registry.Msg.{RegistryConfig, Validator}
use jullia_lp_staking.Registry.Common.{ValidatorResponse, calculate_delegations, nonzero_shares}
use jullia_lp_staking.Registry.Delegation.{calculate_delegations-sum}
use jullia_lp_staking.Registry.Entries.{keyed, has_key, keyed-remove, has_key-remove}
use jullia_lp_staking.Registry.Contract.{
  Store, Chain, with_delegation, query_validators, smaller_first, redelegation, remove_validator,
  delegations_by_validator, redelegation_msgs, removal_msgs,
}

abbrev pub has_address : String → List ValidatorResponse → Bool
has_address a [] = false
has_address a (v ∷ vs) = str_eq v.address a || has_address a vs

-- The amounts of redelegations, and whether one of them goes to an address.
abbrev pub moved : List (String × Coin) → ℕ
moved [] = 0
moved ((a, c) ∷ ds) = c.amount + moved ds

abbrev pub goes_to : String → List (String × Coin) → Bool
goes_to a [] = false
goes_to a ((b, c) ∷ ds) = str_eq b a || goes_to a ds

has_address-insert_sorted :
    (le : ValidatorResponse → ValidatorResponse → Bool) (a : String) (v : ValidatorResponse)
    (vs : List ValidatorResponse)
    → has_address a (insert_sorted le v vs) ≡ (str_eq v.address a || has_address a vs)
unfolding insert_sorted
has_address-insert_sorted le a v [] = refl
has_address-insert_sorted le a v (w ∷ vs) = ground (arith, has_address-insert_sorted le a v vs)

has_address-sort_by :
    (le : ValidatorResponse → ValidatorResponse → Bool) (a : String) (vs : List ValidatorResponse)
    → has_address a (sort_by le vs) ≡ has_address a vs
unfolding sort_by
has_address-sort_by le a [] = refl
has_address-sort_by le a (v ∷ vs) =
    ground (arith, has_address-insert_sorted le a v (sort_by le vs), has_address-sort_by le a vs)

has_address-map :
    (ds : List (String × ℕ)) (a : String) (m : List (String × Validator))
    → keyed m ≡ true
    → has_address a (map (with_delegation ds) m) ≡ has_key a m
has_address-map ds a [] h = refl
has_address-map ds a ((k, v) ∷ m) h = ground (arith, has_address-map ds a m, str_eq_iff k v.address)

-- The validators that a query returns are the entries of the registry.
has_address-query_validators :
    (chain : Chain) (s : Store) (vs : List ValidatorResponse) (a : String)
    → keyed s.registry ≡ true
    → query_validators chain s ≡ ok vs
    → has_address a vs ≡ has_key a s.registry
unfolding query_validators
has_address-query_validators chain s vs a k h = elim (Option-cases s.config) [
  | inl missing ↦ absurd (ground arith)
  | inr (c, config) ↦ elim (Result-cases (chain.query_all_delegations c.hub_contract)) [
    | inr (e, fails) ↦ absurd (ground arith)
    | inl (all, asked) ↦
        ground (arith, has_address-map (delegations_by_validator all []) a s.registry k)
  ]
]

nonzero_shares-moved :
    (denom : String) (vs : List ValidatorResponse) (ds : List ℕ) (rs : List (String × Coin))
    → nonzero_shares (redelegation denom) vs ds ≡ ok rs
    → (moved rs ≡ sum ds) × ((a : String) → goes_to a rs ≡ true → has_address a vs ≡ true)
unfolding nonzero_shares
nonzero_shares-moved denom vs [] rs h = (ground arith, λ a e. ground arith)
nonzero_shares-moved denom [] (d ∷ ds) rs h = absurd (ground arith)
nonzero_shares-moved denom (v ∷ vs) (d ∷ ds) rs h =
    elim (Result-cases (nonzero_shares (redelegation denom) vs ds)) [
      | inr (e, fails) ↦ absurd (ground arith)
      | inl (rest, done) ↦
          let (sums, goes) = nonzero_shares-moved denom vs ds rest done in
          (ground arith, λ a e. ground (arith, goes a))
    ]

-- The messages of a removal, by the answer of the chain to the query for the delegation: none where the
-- query fails, where there is no delegation, and where less than the delegation can be moved now; else a
-- redelegation of the whole delegation to the validators `vs` and a dispatch of rewards.
pub data RemovalMsgs (hub address : String) (vs : List ValidatorResponse)
    (answer : Result (Option FullDelegation)) (ms : List CosmosMsg) : Type 0 where
  unanswered : (e : Failure) → answer ≡ err e → ms ≡ [] → RemovalMsgs hub address vs answer ms
  undelegated : answer ≡ ok none → ms ≡ [] → RemovalMsgs hub address vs answer ms
  locked :
      (d : FullDelegation)
      → answer ≡ ok (some d)
      → d.can_redelegate.amount < d.amount.amount
      → ms ≡ []
      → RemovalMsgs hub address vs answer ms
  redelegates :
      (d : FullDelegation) (rs : List (String × Coin))
      → answer ≡ ok (some d)
      → d.amount.amount ≤ d.can_redelegate.amount
      → ms
        ≡ CosmosMsg.wasm_execute hub
            (Payload.to_hub (Basset.ExecuteMsg.redelegate_proxy address rs))
            []
          ∷ CosmosMsg.wasm_execute hub (Payload.to_hub Basset.ExecuteMsg.dispatch_rewards) []
          ∷ []
      → moved rs ≡ d.amount.amount
      → ((a : String) → goes_to a rs ≡ true → has_address a vs ≡ true)
      → RemovalMsgs hub address vs answer ms

removal_msgs-RemovalMsgs :
    (hub address : String) (vs : List ValidatorResponse) (answer : Result (Option FullDelegation))
    (ms : List CosmosMsg)
    → removal_msgs hub address vs answer ≡ ok ms
    → RemovalMsgs hub address vs answer ms
unfolding removal_msgs redelegation_msgs
removal_msgs-RemovalMsgs hub address vs (err e) ms h = RemovalMsgs.unanswered e refl (ground arith)
removal_msgs-RemovalMsgs hub address vs (ok none) ms h = RemovalMsgs.undelegated refl (ground arith)
removal_msgs-RemovalMsgs hub address vs (ok (some d)) ms h =
    elim (Bool-cases (ltb d.can_redelegate.amount d.amount.amount)) [
      | inl busy ↦ RemovalMsgs.locked d refl (ground arith) (ground arith)
      | inr free ↦ elim (Result-cases (calculate_delegations d.amount.amount vs)) [
        | inr (e, fails) ↦ absurd (ground arith)
        | inl (ds, split) ↦
            elim (Result-cases (nonzero_shares (redelegation d.amount.denom) vs ds)) [
              | inr (e, fails) ↦ absurd (ground arith)
              | inl (rs, shares) ↦
                  let (sums, goes) = nonzero_shares-moved d.amount.denom vs ds rs shares in
                  RemovalMsgs.redelegates d rs refl (ground arith) (ground arith)
                    (sums ∙ calculate_delegations-sum d.amount.amount vs ds split) goes
            ]
      ]
    ]

RemovalMsgs-mono :
    {hub address : String} {vs ws : List ValidatorResponse}
    {answer : Result (Option FullDelegation)} {ms ms' : List CosmosMsg}
    → ms' ≡ ms
    → ((a : String) → has_address a vs ≡ has_address a ws)
    → RemovalMsgs hub address vs answer ms
    → RemovalMsgs hub address ws answer ms'
RemovalMsgs-mono e same (RemovalMsgs.unanswered f asked none_sent) =
    RemovalMsgs.unanswered f asked (e ∙ none_sent)
RemovalMsgs-mono e same (RemovalMsgs.undelegated asked none_sent) =
    RemovalMsgs.undelegated asked (e ∙ none_sent)
RemovalMsgs-mono e same (RemovalMsgs.locked d asked less none_sent) =
    RemovalMsgs.locked d asked less (e ∙ none_sent)
RemovalMsgs-mono e same (RemovalMsgs.redelegates d rs asked free sent sums goes) =
    RemovalMsgs.redelegates d rs asked free (e ∙ sent) sums (λ a g. sym (same a) ∙ goes a g)

-- A removal that succeeds is the owner's and leaves a validator. It takes the address out of the
-- registry. Where the query finds a delegation that can be moved whole, it is moved to validators that are
-- left, none of them at the removed address. No message is sent where there is no delegation, where not all
-- of it can be moved, and where the query fails, which leaves any delegation in place.
pub remove_validator-Removed :
    (chain : Chain) (info : MessageInfo) (address : String) (c : RegistryConfig) (s s' : Store)
    (r : Response)
    → keyed s.registry ≡ true
    → s.config ≡ some c
    → remove_validator chain info address s ≡ ok (r, s')
    → (info.sender ≡ c.owner)
      × (s' ≡ record s { registry = remove string_key address s.registry })
      × ((vs : List ValidatorResponse) × (query_validators chain s' ≡ ok vs)
          × (vs ≢ [])
          × (has_address address vs ≡ false)
          × RemovalMsgs c.hub_contract address vs
              (chain.query_delegation c.hub_contract address)
              r.messages)
unfolding remove_validator
remove_validator-Removed chain info address c s s' r k config h =
    let s₁ : Store = record s { registry = remove string_key address s.registry } in
    elim (Result-cases (query_validators chain s₁)) [
      | inr (e, fails) ↦ absurd (ground (arith, str_eq_iff info.sender c.owner))
      | inl (vs, queried) ↦
          let sorted = sort_by smaller_first vs in
          let query = chain.query_delegation c.hub_contract address in
          elim (Result-cases (removal_msgs c.hub_contract address sorted query)) [
            | inr (e, fails) ↦ absurd (ground (arith, str_eq_iff info.sender c.owner))
            | inl (ms, sent) ↦
                let same : s' ≡ s₁ = ground arith in
                (
                  ground (arith, str_eq_iff info.sender c.owner),
                  same,
                  (
                    vs,
                    rw same queried,
                    (λ e. ground arith),
                    has_address-query_validators chain s₁ vs address
                          (keyed-remove address s.registry k) queried
                        ∙ has_key-remove address s.registry,
                    RemovalMsgs-mono (ground arith) (λ a. has_address-sort_by smaller_first a vs)
                        (removal_msgs-RemovalMsgs c.hub_contract address sorted query ms sent),
                  ),
                )
          ]
    ]
