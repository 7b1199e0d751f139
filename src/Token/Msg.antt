-- ===== src/Token/Msg.antt =====
-- The messages of contracts/lido_cosmos_token_statom: its `TokenInitMsg` (msg.rs), and those of
-- cw20-base as far as the contract passes them on. The types of cw20-base that the contract does not look
-- into are parameters: initial balances, marketing info, expirations and logos.
use jullia_lp_staking.Base.{ℕ, String, Option, Result}
use jullia_lp_staking.Cosmwasm.Types.{Env, MessageInfo}
use jullia_lp_staking.Messages.{Response}

pub record Cw20Types : Type 1 where
  pub Balances : Type 0
  pub Marketing : Type 0
  pub Expiration : Type 0
  pub Logo : Type 0
  pub QueryMsg : Type 0
  pub Binary : Type 0
  -- what cw20-base keeps in storage
  pub Ledger : Type 0

module _ (T : Cw20Types) where
  open T use {Balances, Marketing, Expiration, Logo, Ledger, QueryMsg, Binary}

  pub record TokenInitMsg : Type 0 where
    pub name : String
    pub symbol : String
    pub decimals : ℕ
    pub initial_balances : Balances
    pub hub_contract : String
    pub marketing : Option Marketing

  -- `InstantiateMsg` of cw20-base; `minter` is the address of the uncapped minter.
  pub record Cw20InstantiateMsg : Type 0 where
    pub name : String
    pub symbol : String
    pub decimals : ℕ
    pub initial_balances : Balances
    pub minter : String
    pub marketing : Option Marketing

  pub data TokenExecuteMsg : Type 0 where
    transfer : String → ℕ → TokenExecuteMsg
    burn : ℕ → TokenExecuteMsg
    send : String → ℕ → String → TokenExecuteMsg
    mint : String → ℕ → TokenExecuteMsg
    increase_allowance : String → ℕ → Option Expiration → TokenExecuteMsg
    decrease_allowance : String → ℕ → Option Expiration → TokenExecuteMsg
    transfer_from : String → String → ℕ → TokenExecuteMsg
    burn_from : String → ℕ → TokenExecuteMsg
    send_from : String → String → ℕ → String → TokenExecuteMsg
    update_marketing : Option String → Option String → Option String → TokenExecuteMsg
    upload_logo : Logo → TokenExecuteMsg

  abbrev pub LedgerCall : Type 0
  LedgerCall = Ledger → Result (Response × Ledger)

  -- The functions of cw20-base that the contract calls.
  pub record Cw20Base : Type 0 where
    pub init : Env → MessageInfo → Cw20InstantiateMsg → LedgerCall
    pub transfer : Env → MessageInfo → String → ℕ → LedgerCall
    pub burn : Env → MessageInfo → ℕ → LedgerCall
    pub send : Env → MessageInfo → String → ℕ → String → LedgerCall
    pub mint : Env → MessageInfo → String → ℕ → LedgerCall
    pub increase_allowance : Env → MessageInfo → String → ℕ → Option Expiration → LedgerCall
    pub decrease_allowance : Env → MessageInfo → String → ℕ → Option Expiration → LedgerCall
    pub transfer_from : Env → MessageInfo → String → String → ℕ → LedgerCall
    pub burn_from : Env → MessageInfo → String → ℕ → LedgerCall
    pub send_from : Env → MessageInfo → String → String → ℕ → String → LedgerCall
    pub update_marketing :
        Env → MessageInfo → Option String → Option String → Option String → LedgerCall
    pub upload_logo : Env → MessageInfo → Logo → LedgerCall
    pub query : Env → QueryMsg → Ledger → Result Binary
