-- ===== src/Kernel/Cells.antt =====
-- crates/phenix-kernel/src/value_state.rs: the state cells of one admitted runtime.
pub mod State
pub mod Register
pub mod Commit
pub mod Subscribe
mod Examples
