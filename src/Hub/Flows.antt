-- ===== src/Hub/Flows.antt =====
-- Where the coins of a bond go: what it delegates and mints.
use jullia_lp_staking.Base.{
  ℕ, ◌+◌, ◌≡◌, ◌∙◌, String, List, [], ◌∷◌, ◌++◌, true, some, Option-cases, arith, ok, Result-cases,
  inl, inr, sum, map,
}
use jullia_lp_staking.Base.Sort.{sort_by}
use jullia_lp_staking.Cosmwasm.Uint.{add_u128}
use jullia_lp_staking.Cosmwasm.Decimal.{Decimals}
use jullia_lp_staking.Cosmwasm.Types.{Coin, Env, MessageInfo}
use jullia_lp_staking.Basset.{State, Parameters, Config, BondType}
use jullia_lp_staking.Messages.{CosmosMsg, Payload, Response}
use jullia_lp_staking.Registry.Common.{
  ValidatorResponse, calculate_delegations, calculate_undelegations, nonzero_shares,
}
use jullia_lp_staking.Registry.Delegation.{calculate_delegations-sum}
use jullia_lp_staking.Registry.Undelegation.{calculate_undelegations-sum}
use jullia_lp_staking.Hub.Store.{Store, Chain, stored_state}
use jullia_lp_staking.Hub.Rates.{decimal_division}
use jullia_lp_staking.Hub.Slashing.{slashing}
use jullia_lp_staking.Hub.Frames.{slashing-store}
use jullia_lp_staking.Hub.Delegations.{
  delegated_coins, delegated_coins-nonzero_shares, only_delegates, only_delegates-nonzero_shares,
}
use jullia_lp_staking.Hub.Bond.{execute_bond, delegate_msg, find_payment, bonded_state, mint_amount}
use jullia_lp_staking.Hub.Unbond.{undelegate, undelegate_msg, to_validator, larger_first}
pub mod Undelegation
pub mod Dilution

module _ ⦃num : Decimals⦄ where
  -- A bond of a user that began in `s` with the payment `pay` and ended in `s'`.
  pub record Bonded (chain : Chain) (env : Env) (info : MessageInfo) (pay : Coin) (s s' : Store)
      (r : Response) : Type 0 where
    -- the state and the storage after the check for slashing
    pub checked : State
    pub store : Store
    pub slashed : slashing chain env s ≡ ok (checked, store)
    pub minted : ℕ
    pub worth : decimal_division pay.amount checked.statom_exchange_rate ≡ ok minted
    -- the token contract that the hub has registered
    pub config : Config
    pub has_config : s.config ≡ some config
    pub token : String
    pub registered : config.statom_token_contract ≡ some token
    -- the messages only delegate, and then mint
    pub delegations : List CosmosMsg
    pub delegates : only_delegates delegations ≡ true
    pub messages :
        r.messages
        ≡ delegations ++ CosmosMsg.wasm_execute token (Payload.mint info.sender minted) [] ∷ []
    pub delegated : delegated_coins delegations ≡ pay.amount
    -- the payment is booked, and nothing else changes
    pub booked : s' ≡ record s {
      state = some (
          stored_state (record checked {
            total_bond_statom_amount = checked.total_bond_statom_amount + pay.amount;
          }));
    }

  -- The messages of a bond that succeeds, past the check for slashing, with the registry's answer known.
  bond_shares :
      (chain : Chain) (env : Env) (info : MessageInfo) (p : Parameters) (pay : Coin) (s s' : Store)
      (r : Response) (c : Config) (st : State) (s₁ : Store) (m : ℕ) (reg : String)
      (vs : List ValidatorResponse)
      → s.parameters ≡ some p
      → find_payment p.underlying_coin_denom info.funds ≡ some pay
      → s.config ≡ some c
      → slashing chain env s ≡ ok (st, s₁)
      → decimal_division pay.amount st.statom_exchange_rate ≡ ok m
      → c.validators_registry_contract ≡ some reg
      → chain.query_validators reg ≡ ok vs
      → execute_bond chain env info BondType.st_atom s ≡ ok (r, s')
      → (token : String) × (ds : List ℕ) × (ms : List CosmosMsg) × (r.messages
          ≡ ms ++ CosmosMsg.wasm_execute token (Payload.mint info.sender m) [] ∷ [])
        × (calculate_delegations pay.amount vs ≡ ok ds)
        × (nonzero_shares (delegate_msg pay.denom) vs ds ≡ ok ms)
        × (c.statom_token_contract ≡ some token)
  unfolding execute_bond mint_amount
  bond_shares chain env info p pay s s' r c st s₁ m reg vs params found config slashed worth
        has_registry listed h =
      elim (Option-cases c.statom_token_contract) [
        | inl missing ↦ absurd (ground arith)
        | inr (token, registered) ↦ elim (Result-cases (calculate_delegations pay.amount vs)) [
          | inr (e, fails) ↦ absurd (ground arith)
          | inl (ds, split) ↦ elim (Result-cases (nonzero_shares (delegate_msg pay.denom) vs ds)) [
            | inr (e, fails) ↦ absurd (ground arith)
            | inl (ms, built) ↦ (token, ds, ms, ground arith, split, built, registered)
          ]
        ]
      ]

  bond_delegates :
      (chain : Chain) (env : Env) (info : MessageInfo) (p : Parameters) (pay : Coin) (s s' : Store)
      (r : Response) (c : Config) (st : State) (s₁ : Store) (m : ℕ)
      → s.parameters ≡ some p
      → find_payment p.underlying_coin_denom info.funds ≡ some pay
      → s.config ≡ some c
      → slashing chain env s ≡ ok (st, s₁)
      → decimal_division pay.amount st.statom_exchange_rate ≡ ok m
      → execute_bond chain env info BondType.st_atom s ≡ ok (r, s')
      → (token : String) × (ms : List CosmosMsg) × (r.messages
          ≡ ms ++ CosmosMsg.wasm_execute token (Payload.mint info.sender m) [] ∷ [])
        × (delegated_coins ms ≡ pay.amount)
        × (only_delegates ms ≡ true)
        × (c.statom_token_contract ≡ some token)
  unfolding execute_bond mint_amount
  bond_delegates chain env info p pay s s' r c st s₁ m params found config slashed worth h =
      elim (Option-cases c.validators_registry_contract) [
        | inl missing ↦ absurd (ground arith)
        | inr (reg, has_registry) ↦ elim (Result-cases (chain.query_validators reg)) [
          | inr (e, fails) ↦ absurd (ground arith)
          | inl (vs, listed) ↦
              let (token, ds, ms, sent, split, built, registered) =
                bond_shares chain env info p pay s s' r c st s₁ m reg vs params found config slashed
                  worth has_registry listed h in
              (
                token,
                ms,
                sent,
                delegated_coins-nonzero_shares pay.denom vs ds ms built
                    ∙ calculate_delegations-sum pay.amount vs ds split,
                only_delegates-nonzero_shares pay.denom vs ds ms built,
                registered,
              )
        ]
      ]

  -- The delegations of a user's bond that succeeds are those that `calculate_delegations` gives for the
  -- registry's answer.
  pub execute_bond_shares :
      (chain : Chain) (env : Env) (info : MessageInfo) (p : Parameters) (pay : Coin) (s s' : Store)
      (r : Response) (c : Config) (reg : String) (vs : List ValidatorResponse)
      → s.parameters ≡ some p
      → find_payment p.underlying_coin_denom info.funds ≡ some pay
      → s.config ≡ some c
      → c.validators_registry_contract ≡ some reg
      → chain.query_validators reg ≡ ok vs
      → execute_bond chain env info BondType.st_atom s ≡ ok (r, s')
      → (ds : List ℕ) × (ms : List CosmosMsg) × (token : String) × (minted : ℕ) × (r.messages
          ≡ ms ++ CosmosMsg.wasm_execute token (Payload.mint info.sender minted) [] ∷ [])
        × (calculate_delegations pay.amount vs ≡ ok ds)
        × (nonzero_shares (delegate_msg pay.denom) vs ds ≡ ok ms)
  unfolding execute_bond mint_amount
  execute_bond_shares chain env info p pay s s' r c reg vs params found config has_registry listed
        h =
      elim (Result-cases (slashing chain env s)) [
        | inr (e, fails) ↦ absurd (ground arith)
        | inl ((st, s₁), slashed) ↦
            elim (Result-cases (decimal_division pay.amount st.statom_exchange_rate)) [
              | inr (e, fails) ↦ absurd (ground arith)
              | inl (m, worth) ↦
                  let (token, ds, ms, sent, split, built, registered) =
                    bond_shares chain env info p pay s s' r c st s₁ m reg vs params found config
                      slashed worth has_registry listed h in
                  (ds, ms, token, m, sent, split, built)
            ]
      ]

  -- When a user's bond succeeds, its messages delegate, and nothing else, coins that add up to the payment;
  -- the last one asks the token contract that the hub has registered to mint the user the payment divided
  -- by the exchange rate that the check for slashing has found; and the bonded coins rise by the payment.
  pub execute_bond-Bonded :
      (chain : Chain) (env : Env) (info : MessageInfo) (p : Parameters) (pay : Coin) (s s' : Store)
      (r : Response)
      → s.parameters ≡ some p
      → find_payment p.underlying_coin_denom info.funds ≡ some pay
      → execute_bond chain env info BondType.st_atom s ≡ ok (r, s')
      → Bonded chain env info pay s s' r
  unfolding execute_bond bonded_state mint_amount add_u128
  execute_bond-Bonded chain env info p pay s s' r params found h = elim (Option-cases s.config) [
    | inl missing ↦ absurd (ground arith)
    | inr (c, config) ↦ elim (Result-cases (slashing chain env s)) [
      | inr (e, fails) ↦ absurd (ground arith)
      | inl ((st, s₁), slashed) ↦
          elim (Result-cases (decimal_division pay.amount st.statom_exchange_rate)) [
            | inr (e, fails) ↦ absurd (ground arith)
            | inl (m, worth) ↦
                let (token, ms, messages, delegated, delegates, registered) =
                  bond_delegates chain env info p pay s s' r c st s₁ m params found config slashed
                    worth h in
                let checked = slashing-store chain env s s₁ st slashed in
                record {
                  checked = st;
                  store = s₁;
                  slashed = slashed;
                  minted = m;
                  worth = worth;
                  config = c;
                  has_config = config;
                  token = token;
                  registered = registered;
                  delegations = ms;
                  delegates = delegates;
                  messages = messages;
                  delegated = delegated;
                  booked = ground (arith, checked);
                }
          ]
    ]
  ]
