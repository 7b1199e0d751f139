-- ===== src/Hub/Delegations.antt =====
-- The messages of a bond (contracts/lido_cosmos_hub/src/bond.rs): what they delegate, and what they mint.
use jullia_lp_staking.Base.{
  ℕ, ◌+◌, ◌≡◌, String, Bool, true, false, List, [], ◌∷◌, ◌++◌, arith, ok, Result-cases, inl, inr,
  sum, str_eq, str_eq_iff, if◌then◌else◌,
}
use jullia_lp_staking.Messages.{CosmosMsg, Payload}
use jullia_lp_staking.Registry.Common.{ValidatorResponse, nonzero_shares}
use jullia_lp_staking.Hub.Bond.{delegate_msg}

-- The coins that a list of messages delegates.
abbrev pub delegated_coins : List CosmosMsg → ℕ
delegated_coins [] = 0
delegated_coins (CosmosMsg.delegate v c ∷ ms) = c.amount + delegated_coins ms
delegated_coins (m ∷ ms) = delegated_coins ms

pub delegated_coins-nonzero_shares :
    (denom : String) (vs : List ValidatorResponse) (ds : List ℕ) (ms : List CosmosMsg)
    → nonzero_shares (delegate_msg denom) vs ds ≡ ok ms
    → delegated_coins ms ≡ sum ds
unfolding nonzero_shares
delegated_coins-nonzero_shares denom vs [] ms h = ground arith
delegated_coins-nonzero_shares denom [] (d ∷ ds) ms h = ground arith
delegated_coins-nonzero_shares denom (v ∷ vs) (d ∷ ds) ms h =
    elim (Result-cases (nonzero_shares (delegate_msg denom) vs ds)) [
      | inr (e, fails) ↦ absurd (ground arith)
      | inl (rest, done) ↦ ground (arith, delegated_coins-nonzero_shares denom vs ds rest)
    ]

-- Messages that delegate, and nothing else.
abbrev pub only_delegates : List CosmosMsg → Bool
only_delegates [] = true
only_delegates (CosmosMsg.delegate v c ∷ ms) = only_delegates ms
only_delegates (m ∷ ms) = false

pub only_delegates-nonzero_shares :
    (denom : String) (vs : List ValidatorResponse) (ds : List ℕ) (ms : List CosmosMsg)
    → nonzero_shares (delegate_msg denom) vs ds ≡ ok ms
    → only_delegates ms ≡ true
unfolding nonzero_shares
only_delegates-nonzero_shares denom vs [] ms h = ground arith
only_delegates-nonzero_shares denom [] (d ∷ ds) ms h = ground arith
only_delegates-nonzero_shares denom (v ∷ vs) (d ∷ ds) ms h =
    elim (Result-cases (nonzero_shares (delegate_msg denom) vs ds)) [
      | inr (e, fails) ↦ absurd (ground arith)
      | inl (rest, done) ↦ ground (arith, only_delegates-nonzero_shares denom vs ds rest)
    ]

-- The tokens that messages ask the token contract at an address to mint.
abbrev pub minted_tokens : String → List CosmosMsg → ℕ
minted_tokens token [] = 0
minted_tokens token (CosmosMsg.wasm_execute a (Payload.mint to n) funds ∷ ms) =
    let rest = minted_tokens token ms in if str_eq a token then n + rest else rest
minted_tokens token (m ∷ ms) = minted_tokens token ms

pub minted_tokens-append :
    (token to : String) (n : ℕ) (ms : List CosmosMsg)
    → only_delegates ms ≡ true
    → minted_tokens token (ms ++ CosmosMsg.wasm_execute token (Payload.mint to n) [] ∷ []) ≡ n
minted_tokens-append token to n [] h = ground (arith, str_eq_iff token token)
minted_tokens-append token to n (CosmosMsg.delegate v c ∷ ms) h =
    minted_tokens-append token to n ms h
minted_tokens-append token to n (m ∷ ms) h = absurd (ground arith)
