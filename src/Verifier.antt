-- ===== src/Verifier.antt =====
-- The verifier outside the key rounds: the deposits it watches.
pub mod Types
pub mod Messages
pub mod Tables
pub mod Clients
pub mod Handlers
