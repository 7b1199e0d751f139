-- ===== src/Hub/TokenAddress.antt =====
-- The address of the token contract.
use jullia_lp_staking.Base.{◌≡◌, String, Option, none, some, arith, ok}
use jullia_lp_staking.Cosmwasm.Decimal.{Decimals}
use jullia_lp_staking.Cosmwasm.Types.{Env, MessageInfo}
use jullia_lp_staking.Basset.{ExecuteMsg, BondType, Config}
use jullia_lp_staking.Messages.{Response}
use jullia_lp_staking.Hub.Store.{Store, Chain}
use jullia_lp_staking.Hub.Admin.{
  execute_update_params, execute_update_config, execute_pause_contracts, execute_unpause_contracts,
  execute_redelegate_proxy, execute_dispatch_rewards, execute_add_guardians,
  execute_remove_guardians,
}
use jullia_lp_staking.Hub.Contract.{execute, receive_cw20}
use jullia_lp_staking.Hub.Frames.{
  execute_slashing-store, execute_bond-store, execute_unbond_statom-store,
  execute_withdraw_unbonded-store,
}

abbrev token_of : Option Config → Option String
token_of none = none
token_of (some c) = c.statom_token_contract

-- The registered token contract.
abbrev pub token_address : Store → Option String
token_address s = token_of s.config

module _ ⦃num : Decimals⦄ where
  -- No message that succeeds, from whomever, changes or removes a registered token contract.
  pub execute-token_address :
      (chain : Chain) (env : Env) (info : MessageInfo) (msg : ExecuteMsg) (s s' : Store)
      (r : Response) (token : String)
      → token_address s ≡ some token
      → execute chain env info msg s ≡ ok (r, s')
      → token_address s' ≡ some token
  unfolding execute receive_cw20 execute_update_params execute_update_config execute_pause_contracts
      execute_unpause_contracts execute_redelegate_proxy execute_dispatch_rewards
      execute_add_guardians execute_remove_guardians
  execute-token_address chain env info (ExecuteMsg.receive m) s s' r token old h =
      ground (arith, execute_unbond_statom-store chain env m.amount m.sender s s' r)
  execute-token_address chain env info ExecuteMsg.bond_for_st_atom s s' r token old h =
      ground (arith, execute_bond-store chain env info BondType.st_atom s s' r h)
  execute-token_address chain env info ExecuteMsg.bond_rewards s s' r token old h =
      ground (arith, execute_bond-store chain env info BondType.bond_rewards s s' r h)
  execute-token_address chain env info ExecuteMsg.withdraw_unbonded s s' r token old h =
      ground (arith, execute_withdraw_unbonded-store chain env info s s' r h)
  execute-token_address chain env info ExecuteMsg.check_slashing s s' r token old h =
      ground (arith, execute_slashing-store chain env s s' r h)
  execute-token_address chain env info _ s s' r token old h = ground arith
