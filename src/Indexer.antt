-- ===== src/Indexer.antt =====
-- The bitcoin indexer: the requests it watches, and what it tells the verifiers about them.
pub mod Types
pub mod Requests
pub mod Rounds
