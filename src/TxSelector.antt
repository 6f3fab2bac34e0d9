-- ===== src/TxSelector.antt =====
-- The transaction selector (txselector/txselector.go).
pub mod State
pub mod Pick
pub mod Groups
pub mod Receiver
pub mod Step
pub mod Sort
pub mod Selection
