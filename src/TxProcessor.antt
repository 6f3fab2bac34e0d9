-- ===== src/TxProcessor.antt =====
-- The transaction processor (txprocessor/txprocessor.go).
pub mod State
pub mod Effective
pub mod Apply
pub mod Exit
pub mod Process
pub mod Batch
