-- ===== src/Registry.antt =====
-- contracts/lido_cosmos_validators_registry
pub mod Common
pub mod Targets
pub mod Delegation
pub mod Rounds
pub mod Undelegation
pub mod Msg
pub mod Contract
pub mod Entries
pub mod Removal
pub mod Listing
