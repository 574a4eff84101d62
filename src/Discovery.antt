-- ===== src/Discovery.antt =====
-- The provider discovery crate (crates/phenix-provider-discovery): the cache of model catalogs.
pub mod Cache
