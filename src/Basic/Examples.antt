-- ===== src/Basic/Examples.antt =====
-- Tests of the plugins over the storage service, with a codec that writes every text behind its
-- length.
pub mod Codec
pub mod Journals
pub mod Snapshots
pub mod Sessions
