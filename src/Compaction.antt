-- ===== src/Compaction.antt =====
-- Compaction of a session's journal (crates/phenix-p2-compaction-replay and the checkpoints of
-- crates/phenix-advanced-contracts).
pub mod Checkpoint
pub mod Ledger
pub mod CheckpointStore
pub mod Journal
pub mod View
pub mod Tail
pub mod Selection
pub mod Pressure
mod Examples
