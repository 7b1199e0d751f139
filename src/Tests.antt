-- ===== src/Tests.antt =====
-- Concrete inputs: fixed-point numbers that run, the storage of a hub with two batches, and, in the
-- children, the theorems at these inputs.
use jullia_lp_staking.Base.{
  ℕ, ◌*◌, ◌/◌, arith, String, Option, none, some, List, [], ◌∷◌, true, false, Result, ok, err,
  panic, ltb, leb, ◌==◌, if◌then◌else◌,
}
use jullia_lp_staking.Cosmwasm.Uint.{u128_mod, u256_mod}
use jullia_lp_staking.Cosmwasm.Decimal.{Decimals, decimal_one}
use jullia_lp_staking.Cosmwasm.Types.{Coin, Env, MessageInfo, Delegation}
use jullia_lp_staking.Basset.{
  Config, Parameters, CurrentBatch, State, UnbondHistory, UnbondWaitEntity, Cw20HookMsg,
}
use jullia_lp_staking.Registry.Common.{ValidatorResponse}
use jullia_lp_staking.Hub.Store.{Store, Chain}
pub mod Shares
pub mod Withdrawals
pub mod Books
pub mod Bonds
pub mod Messages
pub mod Rewards
pub mod Registry
pub mod Compounding
pub mod Token
pub mod Pages
pub mod Solvency
pub mod Payments

abbrev word : ℕ → ℕ → Result ℕ
word bound n = if ltb n bound then ok n else err panic

-- rounding down, and a panic above the word
abbrev ratio : ℕ → ℕ → Result ℕ
ratio n d = if d == 0 then err panic else word u128_mod (n * decimal_one / d)

abbrev product : ℕ → ℕ → Result ℕ
product a d = word u128_mod (a * d / decimal_one)

abbrev ratio256 : ℕ → ℕ → Result ℕ
ratio256 n d =
    if d == 0
    then err panic
    else if ltb (n * decimal_one) u256_mod
    then ok (n * decimal_one / d)
    else err panic

abbrev product256 : ℕ → ℕ → Result ℕ
product256 a d = if ltb (a * d) u256_mod then ok (a * d / decimal_one) else err panic

instance abbrev pub fixed_point : Decimals
fixed_point = record {
  from_ratio = ratio;
  mul = product;
  from_ratio256 = ratio256;
  mul256 = product256;
  from_ratio_fits = λ n d pos fits. ground arith;
  from_ratio_ok = λ n d r h. ground arith;
  from_ratio_zero = λ n. ground arith;
  mul_fits = λ a d fits. ground arith;
  mul_ok = λ a d r h. ground arith;
  from_ratio256_fits = λ n d pos fits. ground arith;
  from_ratio256_ok = λ n d r h. ground arith;
  mul256_fits = λ a d fits. ground arith;
  mul256_ok = λ a d r h. ground arith;
  from_ratio_err = λ n d e h. ground arith;
  mul_err = λ a d e h. ground arith;
  from_ratio256_err = λ n d e h. ground arith;
  mul256_err = λ a d e h. ground arith;
}

-- The result of a call that succeeds.
abbrev pub outcome : {A : Type 0} → A → Result A → A
outcome default (ok a) = a
outcome default (err e) = default

abbrev pub atoms : ℕ → Coin
atoms n = record { denom = "uatom"; amount = n }

abbrev pub validators : List ValidatorResponse
validators =
    record { total_delegated = 10; address = "v1" }
    ∷ record { total_delegated = 20; address = "v2" }
    ∷ record { total_delegated = 30; address = "v3" }
    ∷ []

abbrev delegations : List Delegation
delegations =
    record { validator = "v1"; amount = atoms 400 }
    ∷ record { validator = "v2"; amount = atoms 500 }
    ∷ []

abbrev pub chain : Chain
chain = record {
  addr_validate = ok;
  decode_hook = λ m. ok Cw20HookMsg.unbond;
  query_balance = λ contract denom. ok (atoms 150);
  query_all_delegations = λ delegator. ok delegations;
  query_validators = λ registry. ok validators;
  query_total_supply = λ token. ok 700;
  wait_before = ltb;
}

abbrev pub env : Env
env = record { contract_address = "hub"; block_seconds = 100_000 }

abbrev pub alice : MessageInfo
alice = record { sender = "alice"; funds = [] }

abbrev pub owner : MessageInfo
owner = record { sender = "owner"; funds = [] }

abbrev pub parameters : Parameters
parameters = record {
  epoch_period = 100;
  underlying_coin_denom = "uatom";
  unbonding_period = 1_000;
  paused = some false;
}

abbrev pub config : Config
config = record {
  creator = "owner";
  reward_dispatcher_contract = some "dispatcher";
  validators_registry_contract = some "registry";
  statom_token_contract = some "token";
}

-- The books are 1000, of which 900 are delegated.
abbrev pub state : State
state = record {
  total_statom_issued = 0;
  statom_exchange_rate = decimal_one;
  total_bond_statom_amount = 1_000;
  prev_hub_balance = 50;
  last_unbonded_time = 99_950;
  last_processed_batch = 0;
}

abbrev waiting : ℕ → ℕ → UnbondHistory
waiting id time = record {
  batch_id = id;
  time = time;
  statom_amount = 100;
  statom_applied_exchange_rate = decimal_one;
  statom_withdraw_rate = decimal_one;
  released = false;
}

abbrev pub current_batch : CurrentBatch
current_batch = record { id = 3; requested_statom = 20 }

-- Of the two batches the first is due.
abbrev pub store : Store
store = record {
  config = some config;
  parameters = some parameters;
  current_batch = some current_batch;
  state = some state;
  guardians = ("guard", true) ∷ [];
  wait = λ user. (1, record { statom_amount = 60 }) ∷ (2, record { statom_amount = 5 }) ∷ [];
  history = (1, waiting 1 90_000) ∷ (2, waiting 2 99_900) ∷ [];
}
