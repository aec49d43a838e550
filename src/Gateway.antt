-- ===== src/Gateway.antt =====
-- The gateway: its tables (gateway/crates/local_db_store) and the verification of deposits
-- (gateway/crates/deposit_verification).
pub mod Types
pub mod Responses
pub mod Tables
pub mod Utxos
pub mod Verification
