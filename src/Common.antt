-- ===== src/Common.antt =====
-- The package `common`: identifiers, amounts and transactions, and their encodings.
pub mod Ids
pub mod Float40
pub mod Account
pub mod Tx
pub mod Codec
pub mod Signing
pub mod Fee
