-- ===== src/Token/Contract.antt =====
-- contracts/lido_cosmos_token_statom: contract.rs, handler.rs and state.rs. The ledger is cw20-base's;
-- the contract adds the hub's address, the pause and the slashing checks.
use jullia_lp_staking.Base.{
  ℕ, String, List, [], ◌∷◌, Option, some, Result, ok, generic_err, not_found, ok_or, fail_if, ◌>>=◌,
  ◌>>◌, str_eq, if◌then◌else◌,
}
use jullia_lp_staking.Cosmwasm.Types.{Env, MessageInfo}
use jullia_lp_staking.Basset
use jullia_lp_staking.Basset.{Parameters, is_paused}
use jullia_lp_staking.Messages.{CosmosMsg, Payload, Response}
use jullia_lp_staking.Token.Msg.{Cw20Types, TokenInitMsg, TokenExecuteMsg, Cw20Base}

-- The message with which the hub compares its books with its delegations.
abbrev pub check_slashing_msg : String → CosmosMsg
check_slashing_msg hub_contract =
    CosmosMsg.wasm_execute hub_contract (Payload.to_hub Basset.ExecuteMsg.check_slashing) []

-- The messages of `execute_burn`: one check, and one more unless the hub itself burns.
abbrev pub burn_msgs : String → String → List CosmosMsg
burn_msgs hub_contract sender =
    check_slashing_msg hub_contract
    ∷ (if str_eq sender hub_contract then [] else check_slashing_msg hub_contract ∷ [])

pub record Chain : Type 0 where
  pub addr_validate : String → Result String
  pub query_hub_parameters : String → Result Parameters

module _ (T : Cw20Types) (cw20 : Cw20Base T) where
  open T use {Ledger, Logo, QueryMsg, Binary}

  pub record TokenStore : Type 0 where
    pub hub_contract : Option String
    pub ledger : Ledger

  abbrev pub Call : Type 0
  Call = TokenStore → Result (Response × TokenStore)

  -- A call of cw20-base, passed on.
  abbrev on_ledger : (Ledger → Result (Response × Ledger)) → Call
  on_ledger call s = call s.ledger >>= λ (res, l). ok (res, record s { ledger = l })

  unfoldable pub instantiate :
      Chain → Env → MessageInfo → TokenInitMsg T → TokenStore → Result (Response × TokenStore)
  instantiate chain env info msg s = do
    hub ← chain.addr_validate msg.hub_contract
    (_, l) ←
        cw20.init env info
          (record {
            name = msg.name;
            symbol = msg.symbol;
            decimals = msg.decimals;
            initial_balances = msg.initial_balances;
            minter = msg.hub_contract;
            marketing = msg.marketing;
          })
          s.ledger
    ok (record { messages = []; attributes = [] }, record { hub_contract = some hub; ledger = l })

  unfoldable pub execute_burn : Env → MessageInfo → ℕ → TokenStore → Result (Response × TokenStore)
  execute_burn env info amount s = do
    hub ← ok_or s.hub_contract not_found
    (res, l) ← cw20.burn env info amount s.ledger
    ok (
      record { messages = burn_msgs hub info.sender; attributes = res.attributes },
      record s { ledger = l },
    )

  unfoldable pub execute_burn_from :
      Env → MessageInfo → String → ℕ → TokenStore → Result (Response × TokenStore)
  execute_burn_from env info owner amount s = do
    hub ← ok_or s.hub_contract not_found
    (res, l) ← cw20.burn_from env info owner amount s.ledger
    ok (
      record { messages = check_slashing_msg hub ∷ []; attributes = res.attributes },
      record s { ledger = l },
    )

  -- The handlers that pass the call on.
  unfoldable pub execute_transfer : Env → MessageInfo → String → ℕ → Call
  execute_transfer env info recipient amount = on_ledger (cw20.transfer env info recipient amount)

  unfoldable pub execute_mint : Env → MessageInfo → String → ℕ → Call
  execute_mint env info recipient amount = on_ledger (cw20.mint env info recipient amount)

  unfoldable pub execute_send : Env → MessageInfo → String → ℕ → String → Call
  execute_send env info contract amount msg = on_ledger (cw20.send env info contract amount msg)

  unfoldable pub execute_transfer_from : Env → MessageInfo → String → String → ℕ → Call
  execute_transfer_from env info owner recipient amount =
      on_ledger (cw20.transfer_from env info owner recipient amount)

  unfoldable pub execute_send_from : Env → MessageInfo → String → String → ℕ → String → Call
  execute_send_from env info owner contract amount msg =
      on_ledger (cw20.send_from env info owner contract amount msg)

  unfoldable pub execute_update_marketing :
      Env → MessageInfo → Option String → Option String → Option String → Call
  execute_update_marketing env info project description marketing =
      on_ledger (cw20.update_marketing env info project description marketing)

  unfoldable pub execute_upload_logo : Env → MessageInfo → Logo → Call
  execute_upload_logo env info logo = on_ledger (cw20.upload_logo env info logo)

  -- The `match` of `execute`; the allowances are those of cw20-base.
  unfoldable pub dispatch :
      Env → MessageInfo → TokenExecuteMsg T → TokenStore → Result (Response × TokenStore)
  dispatch env info (TokenExecuteMsg.transfer recipient amount) =
      execute_transfer env info recipient amount
  dispatch env info (TokenExecuteMsg.burn amount) = execute_burn env info amount
  dispatch env info (TokenExecuteMsg.send contract amount msg) =
      execute_send env info contract amount msg
  dispatch env info (TokenExecuteMsg.mint recipient amount) = execute_mint env info recipient amount
  dispatch env info (TokenExecuteMsg.increase_allowance spender amount expires) =
      on_ledger (cw20.increase_allowance env info spender amount expires)
  dispatch env info (TokenExecuteMsg.decrease_allowance spender amount expires) =
      on_ledger (cw20.decrease_allowance env info spender amount expires)
  dispatch env info (TokenExecuteMsg.transfer_from owner recipient amount) =
      execute_transfer_from env info owner recipient amount
  dispatch env info (TokenExecuteMsg.burn_from owner amount) =
      execute_burn_from env info owner amount
  dispatch env info (TokenExecuteMsg.send_from owner contract amount msg) =
      execute_send_from env info owner contract amount msg
  dispatch env info (TokenExecuteMsg.update_marketing project description marketing) =
      execute_update_marketing env info project description marketing
  dispatch env info (TokenExecuteMsg.upload_logo logo) = execute_upload_logo env info logo

  unfoldable pub execute :
      Chain → Env → MessageInfo → TokenExecuteMsg T → TokenStore → Result (Response × TokenStore)
  execute chain env info msg s = do
    hub_addr ← ok_or s.hub_contract not_found
    hub_paused ← is_paused chain.query_hub_parameters hub_addr
    fail_if hub_paused (generic_err "The contract is temporarily paused")
    dispatch env info msg s

  unfoldable pub query : Env → QueryMsg → TokenStore → Result Binary
  query env msg s = cw20.query env msg s.ledger
