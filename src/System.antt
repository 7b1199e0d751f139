-- ===== src/System.antt =====
-- Messages from one contract to another.
pub mod Removal
pub mod Rewards
pub mod Redemption
pub mod Bonding
