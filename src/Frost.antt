-- ===== src/Frost.antt =====
-- crates/frost: the distributed key generation and the two signing rounds, on both sides.
pub mod Types
pub mod Scheme
pub mod Signer
pub mod Aggregator
