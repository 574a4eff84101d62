-- ===== src/Lib.antt =====
-- Phenix AI: a coding agent that is built from plugins over a small kernel. This library models parts of
-- its core and proves them correct.
--
-- The parts, and how they interact. The contract (crates/phenix-contract) defines the portable values that
-- plugins and the kernel exchange, their one wire form, and the schemas that values are checked against.
-- The kernel (crates/phenix-kernel) orders the plugins of a composition by their dependencies and keeps the
-- state cells of a runtime, which plugins read, change by compare-exchange and watch through subscriptions;
-- what a cell takes is decided by the contract's schemas. The compaction crate
-- (crates/phenix-p2-compaction-replay) verifies a session's journal against a checkpoint
-- (crates/phenix-advanced-contracts) and makes a shorter view of it for a model. The discovery crate
-- (crates/phenix-provider-discovery) caches the model catalogs of provider connections. Plugins keep
-- sessions, their journals and their checkpoints as records behind the storage service of the basic
-- contracts (crates/phenix-basic-contracts): a provider compares and swaps revisions, and its clients
-- rely on nothing but that. A host call is scoped by an authority, which the contract attenuates.
--
-- The files, under the paths from the repository's root:
--   Prelude, Prelude/*: names of the libraries, Boolean tests, lists, orders, sorted maps, characters.
--   Contract/Failure: crates/phenix-contract/src/lib.rs, Failure and results.
--   Contract/Identity, Contract/Schema: crates/phenix-contract/src/reference.rs and descriptor/mod.rs:
--     the identities, ValueSchema with validate, descriptor, encode, id and accepts, identifier.
--   Contract/Value, Contract/Wire: crates/phenix-contract/src/value.rs: Value, encode, encode_schema,
--     decode, decode_schema; Contract/Wire/Spec is the wire form written as a function of the value.
--   Contract/Scope: crates/phenix-contract/src/scope.rs, Authority, with operation_key of
--     descriptor/mod.rs. Scope/Attenuation is about intersect, Scope/Round about to_value and from_value.
--   Kernel/Dag: crates/phenix-kernel/src/dag.rs: order and its inner visit.
--   Kernel/Cells/*: crates/phenix-kernel/src/value_state.rs: State holds the records and the operations
--     that only look, Register the owners and new cells, Commit commit and compare_exchange, Subscribe
--     the subscriptions. An operation takes and returns the cells; commit also tells a panic apart.
--   Compaction/Checkpoint: crates/phenix-advanced-contracts/src/compaction.rs, validate_checkpoint.
--   Compaction/Journal: crates/phenix-p2-compaction-replay/src/lib.rs: span_for_events,
--     restore_original_events. Compaction/View: view.rs, compacted_view. Compaction/Tail: tail.rs,
--     extend_verified_view. Compaction/Selection: model.rs, select_model_view, whose callbacks carry a
--     state of their own; Selection/Newest and Selection/Chosen are about which checkpoint it takes.
--     Compaction/Pressure: budget.rs, checkpoint_pressure, with validate_model_token_measurement of
--     crates/phenix-advanced-contracts/src/model_tokens.rs.
--   Compaction/Ledger: crates/phenix-plugin-compaction-checkpoints/src/lib.rs, the ledger of checkpoints:
--     validate_ledger, append_checkpoint, newest_checkpoint, verify_checkpoint_ancestry, find_checkpoint.
--     Compaction/CheckpointStore: the plugin's load, verify_journal, put, latest and get.
--   Basic/Errors, Basic/Call, Basic/Storage: crates/phenix-basic-contracts/src/lib.rs: errors and
--     check_session; calls, whose state stands beside the result; the records of the storage service,
--     transact_one, and the service as a record of operations (Storage) and laws (IsStorage).
--   Basic/Fixture: crates/phenix-plugin-storage-fixture/src/lib.rs, read and transact over a map;
--     Fixture/Service fills the interface. Basic/Events, Basic/EventJournal:
--     crates/phenix-plugin-event-journal/src/lib.rs: append_checked and page_from, then the handlers
--     append, read, observer and checkpoint_observer over any storage service. Basic/Session:
--     crates/phenix-plugin-basic-session/src/lib.rs: snapshots, reconcile_snapshot, and in
--     Session/Plugin the handlers open, checkpoint and reconcile; their state is the plugin's live
--     sessions beside that of the storage. Basic/Examples: tests of all three over the fixture.
--   Discovery/Cache: crates/phenix-provider-discovery/src/cache.rs: the operations of CatalogCache.
--
-- Conventions. A text is the list of its UTF-8 bytes, which is how the source compares and measures it. A
-- BTreeMap or BTreeSet is an association list in the order of its keys. Numbers are the natural numbers:
-- checked_add of 64 bits is written out where the source uses it, the one unchecked sum (the revision of a
-- committed cell) keeps its remainder by 2^64, and an i64 is its two's-complement word. An early return is
-- a guard, an error is a value of the model's Result.
--
-- Fuel. The search of Kernel/Dag takes one unit for each level; the path never holds a key twice, so one
-- more than the number of keys is enough. The decoder counts the levels that MAX_DEPTH leaves, as the
-- source does. All other loops are recursion on a list.
--
-- Parameters. SHA-256, the encoding that a macro derives for events and requests, the nonce and the number
-- of the process, and the callbacks that assemble and measure a request are arguments of the definitions
-- that use them; no law about them is assumed. The plugins also take the resource that their host
-- answers, the derived codec of what they store, of which some theorems assume that it decodes what it
-- encoded (RoundTrips) and one that it encodes the journal to be written, and the storage service, of which they assume the laws IsStorage: a read answers
-- what is stored; an edit is made at the expected revision only, raises it by one and touches no other
-- record; a domain error changes nothing, while a failure of the kernel leaves open whether the edit was
-- made. The checkpoint store takes the answers of the journal as a function of the query. A session
-- whose calls the host and the provider authorize is one that they serve.
--
-- Not modelled: the JSON reports (to_json, inspect), the decoding of schemas, the scoped request around an
-- authority, state requests, generations, resolution, the runtime with its pending tickets and native
-- calls, graphs, planning and publication of checkpoints, the other plugins, protocols, products, macros
-- and tools.
pub mod Prelude
pub mod Contract
pub mod Kernel
pub mod Compaction
pub mod Basic
pub mod Discovery
