-- ===== src/Token.antt =====
-- contracts/lido_cosmos_token_statom
pub mod Msg
pub mod Contract
pub mod Checks
