-- ===== src/Basic.antt =====
-- The contracts of the basic plugins (crates/phenix-basic-contracts), and the plugins that keep
-- records behind the interface of the storage service.
pub mod Errors
pub mod Call
pub mod Storage
pub mod Fixture
pub mod Events
pub mod EventJournal
pub mod Session
pub mod Examples
