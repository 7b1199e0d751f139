-- ===== src/System/Removal.antt =====
-- The redelegation that the registry sends to the hub when a validator is removed.
use jullia_lp_staking.Base.{
  ℕ, ◌+◌, ◌≡◌, refl, ◌∙◌, String, true, false, ◌&&◌, List, [], ◌∷◌, some, arith, ok, map, str_eq,
  str_eq_iff, if◌then◌else◌,
}
use jullia_lp_staking.Cosmwasm.Decimal.{Decimals}
use jullia_lp_staking.Cosmwasm.Types.{Coin, Env, MessageInfo, FullDelegation}
use jullia_lp_staking.Basset.{Config, ExecuteMsg}
use jullia_lp_staking.Messages.{CosmosMsg, Payload, Response}
use jullia_lp_staking.Registry.Common.{ValidatorResponse}
use jullia_lp_staking.Registry.Msg.{RegistryConfig}
use jullia_lp_staking.Registry.Contract
use jullia_lp_staking.Registry.Contract.{query_validators, remove_validator}
use jullia_lp_staking.Registry.Entries.{keyed}
use jullia_lp_staking.Registry.Removal.{
  has_address, moved, goes_to, RemovalMsgs, remove_validator-Removed,
}
use jullia_lp_staking.Hub.Store.{Store, Chain}
use jullia_lp_staking.Hub.Admin.{execute_redelegate_proxy, redelegate_msg}
use jullia_lp_staking.Hub.Contract.{execute}

-- The coins that messages move from one validator to those of a list.
abbrev pub redelegated : String → List ValidatorResponse → List CosmosMsg → ℕ
redelegated src vs [] = 0
redelegated src vs (CosmosMsg.redelegate a b c ∷ ms) =
    let rest = redelegated src vs ms in
    if str_eq a src && has_address b vs then c.amount + rest else rest
redelegated src vs (m ∷ ms) = redelegated src vs ms

redelegated-map :
    (src : String) (vs : List ValidatorResponse) (rs : List (String × Coin))
    → ((a : String) → goes_to a rs ≡ true → has_address a vs ≡ true)
    → redelegated src vs (map (redelegate_msg src) rs) ≡ moved rs
redelegated-map src vs [] goes = refl
redelegated-map src vs ((a, c) ∷ rs) goes = ground (
  arith,
  str_eq_iff src src,
  str_eq_iff a a,
  goes a,
  redelegated-map src vs rs (λ b g. ground (arith, goes b)),
)

module _ ⦃num : Decimals⦄ where
  -- A removal of a validator, from the registry to the chain: where the registry sends a message first,
  -- a hub that knows this registry accepts the message, and the hub's messages move the whole delegation
  -- of the validator to the validators that are left in the registry.
  pub remove_validator-execute :
      (registry : Contract.Chain) (info : MessageInfo) (address : String) (rc : RegistryConfig)
      (t t' : Contract.Store) (r : Response) (first : CosmosMsg) (rest : List CosmosMsg)
      (chain : Chain) (env : Env) (c : Config) (s : Store) (registry_address : String)
      → keyed t.registry ≡ true
      → t.config ≡ some rc
      → remove_validator registry info address t ≡ ok (r, t')
      → r.messages ≡ first ∷ rest
      → s.config ≡ some c
      → c.validators_registry_contract ≡ some registry_address
      → (d : FullDelegation) × (msg : ExecuteMsg) × (vs : List ValidatorResponse) × (r' : Response)
        × (registry.query_delegation rc.hub_contract address ≡ ok (some d))
        × (first ≡ CosmosMsg.wasm_execute rc.hub_contract (Payload.to_hub msg) [])
        × (query_validators registry t' ≡ ok vs)
        × (has_address address vs ≡ false)
        × (execute chain env (record { sender = registry_address; funds = [] }) msg s ≡ ok (r', s))
        × (redelegated address vs r'.messages ≡ d.amount.amount)
  unfolding execute execute_redelegate_proxy
  remove_validator-execute registry info address rc t t' r first rest chain env c s registry_address
        k tconfig removed sent config known =
      let (owner, same, (vs, queried, some_left, gone, msgs)) =
        remove_validator-Removed registry info address rc t t' r k tconfig removed in
      elim msgs [
        | RemovalMsgs.unanswered e asked none_sent ↦ absurd (ground arith)
        | RemovalMsgs.undelegated asked none_sent ↦ absurd (ground arith)
        | RemovalMsgs.locked d asked less none_sent ↦ absurd (ground arith)
        | RemovalMsgs.redelegates d rs asked free both sums goes ↦ (
          d,
          ExecuteMsg.redelegate_proxy address rs,
          vs,
          record { messages = map (redelegate_msg address) rs; attributes = [] },
          asked,
          ground arith,
          queried,
          gone,
          ground (arith, str_eq_iff registry_address registry_address),
          redelegated-map address vs rs goes ∙ sums,
        )
      ]
