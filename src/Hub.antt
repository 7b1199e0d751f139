-- ===== src/Hub.antt =====
-- contracts/lido_cosmos_hub
pub mod Store
pub mod Lists
pub mod Rates
pub mod Withdraw
pub mod Slashing
pub mod Bond
pub mod Unbond
pub mod Admin
pub mod Contract
pub mod Msg
pub mod Queries
pub mod Access
pub mod Frames
pub mod Release
pub mod Process
pub mod Released
pub mod Payout
pub mod Buckets
pub mod Withdrawal
pub mod Exchange
pub mod Delegations
pub mod Flows
pub mod TokenAddress
pub mod Queue
pub mod Rewards
pub mod Book
pub mod Pages
pub mod Claimable
pub mod Solvency
pub mod Progress
pub mod Withdrawable
