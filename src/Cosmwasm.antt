-- ===== src/Cosmwasm.antt =====
-- The CosmWasm platform as the contracts see it: words, fixed-point numbers and the types of messages.
pub mod Uint
pub mod Decimal
pub mod Types
