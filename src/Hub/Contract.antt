-- ===== src/Hub/Contract.antt =====
-- The entry points of contracts/lido_cosmos_hub/src/contract.rs, and its handler of received tokens.
use jullia_lp_staking.Base.{String, generic_err, ok_or, str_eq, if◌then◌else◌, []}
use jullia_lp_staking.Cosmwasm.Decimal.{Decimals}
use jullia_lp_staking.Cosmwasm.Types.{Env, MessageInfo, Cw20ReceiveMsg}
use jullia_lp_staking.Basset.{ExecuteMsg, Cw20HookMsg, BondType, paused}
use jullia_lp_staking.Messages.{Response}
use jullia_lp_staking.Hub.Store.{Store, Chain, Tx, ◌>>=◌, ◌>>◌, pure, fail, fail_if, lift, load}
use jullia_lp_staking.Hub.Slashing.{execute_slashing}
use jullia_lp_staking.Hub.Bond.{execute_bond}
use jullia_lp_staking.Hub.Unbond.{execute_unbond_statom}
use jullia_lp_staking.Hub.Withdraw.{execute_withdraw_unbonded}
use jullia_lp_staking.Hub.Admin.{
  execute_update_params, execute_update_config, execute_pause_contracts, execute_unpause_contracts,
  execute_redelegate_proxy, execute_dispatch_rewards, execute_add_guardians,
  execute_remove_guardians,
}

module _ ⦃num : Decimals⦄ where
  unfoldable pub receive_hook :
      Chain → Env → Cw20ReceiveMsg → String → String → Cw20HookMsg → Tx Response
  receive_hook chain env cw20_msg contract_addr statom_contract_addr Cw20HookMsg.unbond =
      if str_eq contract_addr statom_contract_addr
      then execute_unbond_statom chain env cw20_msg.amount cw20_msg.sender
      else fail (generic_err "unauthorized")

  unfoldable pub receive_cw20 : Chain → Env → MessageInfo → Cw20ReceiveMsg → Tx Response
  unfolding receive_hook
  receive_cw20 chain env info cw20_msg = do
    params ← load Store.parameters
    fail_if (paused params) (generic_err "the contract is temporarily paused")
    contract_addr ← lift (chain.addr_validate info.sender)
    conf ← load Store.config
    statom_contract_addr ← lift (
        ok_or conf.statom_token_contract
          (generic_err "the statom token contract must have been registered"))
    hook ← lift (chain.decode_hook cw20_msg.msg)
    receive_hook chain env cw20_msg contract_addr statom_contract_addr hook

  unfoldable pub execute : Chain → Env → MessageInfo → ExecuteMsg → Tx Response
  execute chain env info (ExecuteMsg.receive msg) = receive_cw20 chain env info msg
  execute chain env info ExecuteMsg.bond_for_st_atom = execute_bond chain env info BondType.st_atom
  execute chain env info ExecuteMsg.bond_rewards = execute_bond chain env info BondType.bond_rewards
  execute chain env info ExecuteMsg.dispatch_rewards = execute_dispatch_rewards chain env
  execute chain env info ExecuteMsg.withdraw_unbonded = execute_withdraw_unbonded chain env info
  execute chain env info ExecuteMsg.check_slashing = execute_slashing chain env
  execute chain env info (ExecuteMsg.update_params epoch_period unbonding_period) =
      execute_update_params info epoch_period unbonding_period
  execute chain env info (ExecuteMsg.update_config owner dispatcher registry token) =
      execute_update_config chain info owner dispatcher token registry
  execute chain env info (ExecuteMsg.redelegate_proxy src_validator redelegations) =
      execute_redelegate_proxy info src_validator redelegations
  execute chain env info ExecuteMsg.pause_contracts = execute_pause_contracts info
  execute chain env info ExecuteMsg.unpause_contracts = execute_unpause_contracts info
  execute chain env info (ExecuteMsg.add_guardians addresses) = execute_add_guardians info addresses
  execute chain env info (ExecuteMsg.remove_guardians addresses) =
      execute_remove_guardians info addresses

-- `migrate` keeps the storage.
unfoldable pub migrate : Tx Response
migrate = pure (record { messages = []; attributes = [] })
