-- ===== src/Dispatcher.antt =====
-- contracts/lido_cosmos_rewards_dispatcher
pub mod Msg
pub mod Contract
pub mod Fees
