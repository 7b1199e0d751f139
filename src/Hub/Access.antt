-- ===== src/Hub/Access.antt =====
-- Who may do what: the owner's messages, the pause, and the address of the token contract.
use jullia_lp_staking.Base.{
  String, ◌≡◌, ◌⊎◌, Bool, true, false, some, arith, ok, err, generic_err, str_eq_iff, [], ◌∷◌,
}
use jullia_lp_staking.Cosmwasm.Decimal.{Decimals}
use jullia_lp_staking.Cosmwasm.Types.{Env, MessageInfo}
use jullia_lp_staking.Basset.{ExecuteMsg, Config, Parameters}
use jullia_lp_staking.Messages.{Response}
use jullia_lp_staking.Hub.Store.{Store, Chain}
use jullia_lp_staking.Hub.Slashing.{execute_slashing}
use jullia_lp_staking.Hub.Bond.{execute_bond}
use jullia_lp_staking.Hub.Withdraw.{execute_withdraw_unbonded}
use jullia_lp_staking.Hub.Admin.{
  execute_update_params, execute_update_config, execute_pause_contracts, execute_unpause_contracts,
  execute_dispatch_rewards, execute_add_guardians, execute_remove_guardians, is_guardian, action,
}
use jullia_lp_staking.Hub.Contract.{execute, receive_cw20}

-- The messages that the owner alone may send.
abbrev pub is_owner_msg : ExecuteMsg → Bool
is_owner_msg (ExecuteMsg.update_config o d r t) = true
is_owner_msg (ExecuteMsg.update_params e u) = true
is_owner_msg ExecuteMsg.unpause_contracts = true
is_owner_msg (ExecuteMsg.add_guardians a) = true
is_owner_msg (ExecuteMsg.remove_guardians a) = true
is_owner_msg _ = false

-- The messages that a pause stops.
abbrev pub is_user_msg : ExecuteMsg → Bool
is_user_msg (ExecuteMsg.receive m) = true
is_user_msg ExecuteMsg.bond_for_st_atom = true
is_user_msg ExecuteMsg.bond_rewards = true
is_user_msg ExecuteMsg.dispatch_rewards = true
is_user_msg ExecuteMsg.withdraw_unbonded = true
is_user_msg ExecuteMsg.check_slashing = true
is_user_msg _ = false

abbrev pub pause_error : ExecuteMsg → String
pause_error ExecuteMsg.withdraw_unbonded = "The contract is temporarily paused"
pause_error _ = "the contract is temporarily paused"

module _ ⦃num : Decimals⦄ where
  -- A change of the config, of the parameters or of the guardians, and an unpause, succeed only for the
  -- owner of the contract.
  pub execute_owner_only :
      (chain : Chain) (env : Env) (info : MessageInfo) (msg : ExecuteMsg) (s : Store) (c : Config)
      (r : Response × Store)
      → is_owner_msg msg ≡ true
      → s.config ≡ some c
      → execute chain env info msg s ≡ ok r
      → info.sender ≡ c.creator
  unfolding execute execute_update_config execute_update_params execute_unpause_contracts
      execute_add_guardians execute_remove_guardians
  execute_owner_only chain env info (ExecuteMsg.update_config o d g t) s c r m config done =
      ground (arith, str_eq_iff info.sender c.creator)
  execute_owner_only chain env info (ExecuteMsg.update_params e u) s c r m config done =
      ground (arith, str_eq_iff info.sender c.creator)
  execute_owner_only chain env info ExecuteMsg.unpause_contracts s c r m config done =
      ground (arith, str_eq_iff info.sender c.creator)
  execute_owner_only chain env info (ExecuteMsg.add_guardians a) s c r m config done =
      ground (arith, str_eq_iff info.sender c.creator)
  execute_owner_only chain env info (ExecuteMsg.remove_guardians a) s c r m config done =
      ground (arith, str_eq_iff info.sender c.creator)
  execute_owner_only chain env info _ s c r m config done = cc

  -- `PauseContracts` succeeds exactly for the owner and the guardians, where config and parameters are
  -- stored, and sets the pause and nothing else.
  pub execute_pause :
      (chain : Chain) (env : Env) (info : MessageInfo) (s : Store) (c : Config) (p : Parameters)
      → s.config ≡ some c
      → s.parameters ≡ some p
      → ((info.sender ≡ c.creator) ⊎ (is_guardian info.sender s ≡ true)
          → execute chain env info ExecuteMsg.pause_contracts s
            ≡ ok (
              record { messages = []; attributes = action "pause_contracts" ∷ [] },
              record s { parameters = some (record p { paused = some true }) },
            ))
        × (¬ (info.sender ≡ c.creator)
            → is_guardian info.sender s ≡ false
            → execute chain env info ExecuteMsg.pause_contracts s
              ≡ err (generic_err "unauthorized"))
  unfolding execute execute_pause_contracts
  execute_pause chain env info s c p config params = (
    (λ allowed. ground (arith, str_eq_iff info.sender c.creator)),
    (λ other no_guardian. ground (arith, str_eq_iff info.sender c.creator)),
  )

  -- While the contract is paused, bonding, rewards, unbonding, withdrawals and slashing checks all fail.
  pub execute_paused :
      (chain : Chain) (env : Env) (info : MessageInfo) (msg : ExecuteMsg) (s : Store)
      (p : Parameters)
      → is_user_msg msg ≡ true
      → s.parameters ≡ some p
      → p.paused ≡ some true
      → execute chain env info msg s ≡ err (generic_err (pause_error msg))
  unfolding execute receive_cw20 execute_bond execute_dispatch_rewards execute_withdraw_unbonded
      execute_slashing
  execute_paused chain env info (ExecuteMsg.receive m) s p user params on = ground arith
  execute_paused chain env info ExecuteMsg.bond_for_st_atom s p user params on = ground arith
  execute_paused chain env info ExecuteMsg.bond_rewards s p user params on = ground arith
  execute_paused chain env info ExecuteMsg.dispatch_rewards s p user params on = ground arith
  execute_paused chain env info ExecuteMsg.withdraw_unbonded s p user params on = ground arith
  execute_paused chain env info ExecuteMsg.check_slashing s p user params on = ground arith
  execute_paused chain env info _ s p user params on = cc
