-- ===== src/Tests/Token.antt =====
-- A token whose ledger is a number of tokens, of which every call burns or keeps some.
use jullia_lp_staking.Base.{
  ℕ, ◌≡◌, ◌≢◌, refl, String, true, false, List, [], ◌∷◌, ◌++◌, some, ok, Result, ◌+◌, ◌>>=◌,
}
use jullia_lp_staking.Base.Maps.{lookup, insert, place, remove}
use jullia_lp_staking.Cosmwasm.Uint.{add_u128, sub_or_panic, checked_sub}
use jullia_lp_staking.Cosmwasm.Types.{MessageInfo, Cw20ReceiveMsg}
use jullia_lp_staking.Basset.{ExecuteMsg, is_paused, update_statom_exchange_rate}
use jullia_lp_staking.Messages.{Response, CosmosMsg, Payload}
use jullia_lp_staking.Token.Msg.{Cw20Types, Cw20Base, TokenExecuteMsg}
use jullia_lp_staking.Token.Contract.{
  Chain, TokenStore, execute, dispatch, execute_burn, check_slashing_msg,
}
use jullia_lp_staking.Token.Checks.{is_burn, only_checks, execute-checks}
use jullia_lp_staking.Hub.Store.{Store}
use jullia_lp_staking.Hub.Lists.{store_unbond_wait_list}
use jullia_lp_staking.Hub.Slashing.{
  query_total_statom_issued, actual_total_bonded, slashed_state, query_actual_state, slashing,
}
use jullia_lp_staking.Hub.Unbond.{end_epoch, execute_unbond_statom}
use jullia_lp_staking.Hub.Contract.{execute as hub_execute, receive_cw20, receive_hook}
use jullia_lp_staking.System.Redemption.{receive-execute_burn}
use jullia_lp_staking.Tests.{
  fixed_point, outcome, chain, env, config, parameters, current_batch, store,
}

abbrev types : Cw20Types
types = record {
  Balances = Unit;
  Marketing = Unit;
  Expiration = Unit;
  Logo = Unit;
  QueryMsg = Unit;
  Binary = Unit;
  Ledger = ℕ;
}

abbrev no_response : Response
no_response = record { messages = []; attributes = [] }

abbrev keep : ℕ → Result (Response × ℕ)
keep l = ok (no_response, l)

abbrev take_off : ℕ → ℕ → Result (Response × ℕ)
take_off n l = checked_sub l n >>= λ m. ok (no_response, m)

abbrev ledger : Cw20Base types
ledger = record {
  init = λ e i m. keep;
  transfer = λ e i a n. keep;
  burn = λ e i n. take_off n;
  send = λ e i a n m. keep;
  mint = λ e i a n l. ok (no_response, l + n);
  increase_allowance = λ e i a n x. keep;
  decrease_allowance = λ e i a n x. keep;
  transfer_from = λ e i a b n. keep;
  burn_from = λ e i a n. take_off n;
  send_from = λ e i a b n m. keep;
  update_marketing = λ e i a b c. keep;
  upload_logo = λ e i l. keep;
  query = λ e q l. ok tt;
}

abbrev token_chain : Chain
token_chain = record { addr_validate = ok; query_hub_parameters = λ hub. ok parameters }

abbrev tokens : TokenStore types ledger
tokens = record { hub_contract = some "hub"; ledger = 700 }

abbrev user : MessageInfo
user = record { sender = "bob"; funds = [] }

abbrev burnt : Response × TokenStore types ledger
burnt =
    outcome (no_response, tokens)
      (execute types ledger token_chain env user (TokenExecuteMsg.burn 5) tokens)

burnt_lem : execute types ledger token_chain env user (TokenExecuteMsg.burn 5) tokens ≡ ok burnt
unfolding execute dispatch execute_burn is_paused checked_sub
burnt_lem = refl

execute-checks_example :
    (hub : String) × (tokens.hub_contract ≡ some hub)
    × (burnt.1.hub_contract ≡ some hub)
    × (is_paused token_chain.query_hub_parameters hub ≡ ok false)
    × (is_burn types ledger (TokenExecuteMsg.burn 5) ≡ true
        → (burnt.0.messages ≢ []) × (only_checks hub burnt.0.messages ≡ true))
execute-checks_example =
    execute-checks types ledger token_chain env user (TokenExecuteMsg.burn 5) tokens burnt.1 burnt.0
      burnt_lem

abbrev transfer : Cw20ReceiveMsg
transfer = record { sender = "alice"; amount = 10; msg = "" }

abbrev token : MessageInfo
token = record { sender = "token"; funds = [] }

abbrev unbonded : Response × Store
unbonded =
    outcome (no_response, store) (hub_execute chain env token (ExecuteMsg.receive transfer) store)

unbonded_lem : hub_execute chain env token (ExecuteMsg.receive transfer) store ≡ ok unbonded
unfolding hub_execute receive_cw20 receive_hook execute_unbond_statom slashing query_actual_state
    actual_total_bonded query_total_statom_issued slashed_state update_statom_exchange_rate
    store_unbond_wait_list lookup insert remove place add_u128 sub_or_panic end_epoch
unbonded_lem = refl

receive-execute_burn_example :
    (chain.addr_validate "token" ≡ ok "token")
    × (before : List CosmosMsg) × (unbonded.0.messages
        ≡ before ++ CosmosMsg.wasm_execute "token" (Payload.burn 10) [] ∷ [])
    × (execute types ledger token_chain env
          (record { sender = "hub"; funds = [] })
          (TokenExecuteMsg.burn 10)
          tokens
        ≡ ok (
          record { messages = check_slashing_msg "hub" ∷ []; attributes = [] },
          record tokens { ledger = 690 },
        ))
unfolding checked_sub
receive-execute_burn_example =
    receive-execute_burn types ledger chain env token transfer parameters store unbonded.1
      unbonded.0 token_chain env tokens no_response 690 current_batch config "token" refl refl refl
      refl unbonded_lem refl refl refl
