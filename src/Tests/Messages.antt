-- ===== src/Tests/Messages.antt =====
-- The theorems on the messages of the hub, for an owner, a guardian and a user.
use jullia_lp_staking.Base.{◌≡◌, ◌⊎◌, refl, true, false, some, none, [], ◌∷◌, ok, err, generic_err}
use jullia_lp_staking.Cosmwasm.Types.{MessageInfo}
use jullia_lp_staking.Basset.{ExecuteMsg}
use jullia_lp_staking.Messages.{Response}
use jullia_lp_staking.Hub.Store.{Store}
use jullia_lp_staking.Hub.Admin.{action, is_guardian, execute_update_params}
use jullia_lp_staking.Hub.Contract.{execute}
use jullia_lp_staking.Hub.Access.{execute_owner_only, execute_pause, execute_paused}
use jullia_lp_staking.Hub.TokenAddress.{token_address, execute-token_address}
use jullia_lp_staking.Tests.{
  fixed_point, outcome, chain, env, alice, owner, parameters, config, store,
}

abbrev new_params : ExecuteMsg
new_params = ExecuteMsg.update_params (some 200) none

abbrev changed : Response × Store
changed =
    outcome (record { messages = []; attributes = [] }, store)
      (execute chain env owner new_params store)

changed_lem : execute chain env owner new_params store ≡ ok changed
unfolding execute execute_update_params
changed_lem = refl

execute_owner_only_example : "owner" ≡ config.creator
execute_owner_only_example =
    execute_owner_only chain env owner new_params store config changed refl refl changed_lem

execute-token_address_example : token_address changed.1 ≡ some "token"
execute-token_address_example =
    execute-token_address chain env owner new_params store changed.1 changed.0 "token" refl
      changed_lem

abbrev guard : MessageInfo
guard = record { sender = "guard"; funds = [] }

abbrev stopped : Store
stopped = record store { parameters = some (record parameters { paused = some true }) }

execute_pause_example :
    ((guard.sender ≡ config.creator) ⊎ (is_guardian guard.sender store ≡ true)
      → execute chain env guard ExecuteMsg.pause_contracts store
        ≡ ok (record { messages = []; attributes = action "pause_contracts" ∷ [] }, stopped))
    × (¬ (guard.sender ≡ config.creator)
        → is_guardian guard.sender store ≡ false
        → execute chain env guard ExecuteMsg.pause_contracts store
          ≡ err (generic_err "unauthorized"))
execute_pause_example = execute_pause chain env guard store config parameters refl refl

execute_paused_example :
    execute chain env alice ExecuteMsg.withdraw_unbonded stopped
    ≡ err (generic_err "The contract is temporarily paused")
execute_paused_example =
    execute_paused chain env alice ExecuteMsg.withdraw_unbonded stopped
      (record parameters { paused = some true }) refl refl refl
