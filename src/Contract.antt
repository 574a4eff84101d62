-- ===== src/Contract.antt =====
-- The contract crate (crates/phenix-contract): failures, portable values and their wire form.
pub mod Failure
pub mod Identity
pub mod Value
pub mod Wire
pub mod Schema
pub mod Scope
