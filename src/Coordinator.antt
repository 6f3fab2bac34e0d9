-- ===== src/Coordinator.antt =====
-- Decisions and bookkeeping of the coordinator (coordinator/coordinator.go, coordinator/txmanager.go,
-- coordinator/purger.go).
pub mod Slots
pub mod Queue
pub mod Purger
pub mod Pipeline
pub mod Messages
