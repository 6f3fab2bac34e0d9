-- ===== src/Tests.antt =====
-- Concrete runs of the modelled code, and the theorems at them.
mod Instance
mod Processor
mod Effective
mod Encoding
mod Codec
mod Pipeline
mod Messages
mod Storage
mod Batch
mod Selector
mod Coordinator
