-- ===== src/Token.antt =====
-- crates/token-identifier and crates/lrc20: the metadata of a token.
pub mod Cursor
pub mod Metadata
pub mod Identifier
