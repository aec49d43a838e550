-- ===== src/Tests.antt =====
-- The theorems applied to concrete runs.
mod Signing
mod Generation
mod Deposits
mod Metadata
mod Invoices
mod Verifier
mod Indexer
