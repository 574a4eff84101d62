-- ===== src/Kernel.antt =====
-- The kernel crate (crates/phenix-kernel): ordering of dependencies and state cells.
pub mod Dag
pub mod Cells
