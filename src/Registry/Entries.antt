-- ===== src/Registry/Entries.antt =====
-- The entries of the registry stand under their own addresses.
use jullia_lp_staking.Base.{
  ◌≡◌, refl, String, Bool, true, false, ◌&&◌, ◌||◌, List, [], ◌∷◌, arith, ok, some, none,
  Result-cases, inl, inr, str_eq, str_eq_iff, Option,
}
use jullia_lp_staking.Base.Maps.{insert, place, remove}
use jullia_lp_staking.Base.Keys.{string_key}
use jullia_lp_staking.Cosmwasm.Types.{MessageInfo}
use jullia_lp_staking.Messages.{Response}
use jullia_lp_staking.Registry.Msg.{RegistryConfig, Validator, InstantiateMsg, ExecuteMsg}
use jullia_lp_staking.Registry.Contract.{
  Store, Chain, save_validators, instantiate, update_item, execute_update_config, add_validator,
  remove_validator, execute,
}

abbrev pub keyed : List (String × Validator) → Bool
keyed [] = true
keyed ((k, v) ∷ m) = str_eq k v.address && keyed m

abbrev pub has_key : String → List (String × Validator) → Bool
has_key k [] = false
has_key k ((j, v) ∷ m) = str_eq j k || has_key k m

keyed-place :
    (v : Validator) (m : List (String × Validator))
    → keyed m ≡ true
    → keyed (place string_key v.address v m) ≡ true
unfolding place
keyed-place v [] h = ground (arith, str_eq_iff v.address v.address)
keyed-place v ((j, w) ∷ m) h = ground (arith, keyed-place v m, str_eq_iff v.address v.address)

pub keyed-remove :
    (k : String) (m : List (String × Validator))
    → keyed m ≡ true
    → keyed (remove string_key k m) ≡ true
unfolding remove
keyed-remove k [] h = refl
keyed-remove k ((j, w) ∷ m) h = ground (arith, keyed-remove k m)

keyed-insert :
    (v : Validator) (m : List (String × Validator))
    → keyed m ≡ true
    → keyed (insert string_key v.address v m) ≡ true
unfolding insert
keyed-insert v m h = keyed-place v (remove string_key v.address m) (keyed-remove v.address m h)

pub has_key-remove :
    (k : String) (m : List (String × Validator)) → has_key k (remove string_key k m) ≡ false
unfolding remove
has_key-remove k [] = refl
has_key-remove k ((j, w) ∷ m) = ground (arith, has_key-remove k m)

keyed-save_validators :
    (vs : List Validator) (m : List (String × Validator))
    → keyed m ≡ true
    → keyed (save_validators vs m) ≡ true
unfolding save_validators
keyed-save_validators [] m h = h
keyed-save_validators (v ∷ vs) m h =
    keyed-save_validators vs (insert string_key v.address v m) (keyed-insert v m h)

-- In a new registry every entry stands under its own address.
pub instantiate-keyed :
    (chain : Chain) (info : MessageInfo) (msg : InstantiateMsg) (s s' : Store) (r : Response)
    → s.registry ≡ []
    → instantiate chain info msg s ≡ ok (r, s')
    → keyed s'.registry ≡ true
unfolding instantiate
instantiate-keyed chain info msg s s' r empty h =
    ground (arith, keyed-save_validators msg.registry s.registry)

update_item-registry :
    (chain : Chain) (x : Option String) (f : String → RegistryConfig → RegistryConfig)
    (s s' : Store)
    → update_item chain x f s ≡ ok s'
    → s'.registry ≡ s.registry
unfolding update_item
update_item-registry chain none f s s' h = ground arith
update_item-registry chain (some x) f s s' h = ground arith

-- Every message to the registry that succeeds keeps the entries under their own addresses.
pub execute-keyed :
    (chain : Chain) (info : MessageInfo) (msg : ExecuteMsg) (s s' : Store) (r : Response)
    → execute chain info msg s ≡ ok (r, s')
    → keyed s.registry ≡ true
    → keyed s'.registry ≡ true
unfolding execute add_validator remove_validator execute_update_config
execute-keyed chain info (ExecuteMsg.add_validator v) s s' r h k =
    ground (arith, keyed-insert v s.registry)
execute-keyed chain info (ExecuteMsg.remove_validator a) s s' r h k =
    ground (arith, keyed-remove a s.registry)
execute-keyed chain info (ExecuteMsg.update_config owner hub) s s' r h k =
    elim (Result-cases (update_item chain owner (λ raw c. record c { owner = raw }) s)) [
      | inr (e, fails) ↦ absurd (ground arith)
      | inl (s₁, first) ↦ ground (
        arith,
        update_item-registry chain owner (λ raw c. record c { owner = raw }) s s₁ first,
        update_item-registry chain hub (λ raw c. record c { hub_contract = raw }) s₁ s',
      )
    ]
