-- ===== src/Basic/Fixture.antt =====
-- crates/phenix-plugin-storage-fixture/src/lib.rs: the storage provider over a map in memory.
pub mod Kept
pub mod Service
use phenix_ai.Prelude.{
  ℕ, ◌+◌, ◌≡◌, Bool, not, ◌||◌, Option, none, some, List, [], ◌∷◌, ◌==◌, length, is_some, u64_max,
}
use phenix_ai.Prelude.Order.{Ord, Text, text_ord, pair_ord}
use phenix_ai.Prelude.Map.{Map, get, insert}
use phenix_ai.Contract.Failure.{Failure, Result, ok, err, guard, ok_or, ◌>>=◌, ◌>>◌}
use phenix_ai.Basic.Errors.{
  BasicError, CallError, domain, CallResult, error, conflict, not_found, invalid_input,
  check_session,
}
use phenix_ai.Basic.Call.{Call}
use phenix_ai.Basic.Storage.{RecordKey, StoredRecord, StorageEdit, StorageTransaction, revision_of}

-- The keys of the map: `(String, String)`.
instance abbrev pub place_ord : Ord (Text × Text)
place_ord = pair_ord ⦃a = text_ord⦄ ⦃b = text_ord⦄

-- `State`
abbrev pub Records : Type 0
Records = Map (Text × Text) StoredRecord

abbrev pub missing_record : CallError
missing_record = domain (error not_found "missing record")

-- One round of the loop that checks the edits; `unique` is the set of the keys before it.
unfoldable pub check_edit :
    Records → Text → Map Text (Unit {0}) → StorageEdit → CallResult (Unit {0})
check_edit records session unique e = do
  guard (not (length e.key == 0 || is_some (get e.key unique)))
      (domain (error invalid_input "invalid transaction key"))
  guard (revision_of (get (session, e.key) records) == e.expected)
      (domain (error conflict "storage revision conflict"))
  guard (not (revision_of (get (session, e.key) records) == u64_max))
      (domain (error conflict "storage revision overflow"))

unfoldable pub check_edits :
    Records → Text → Map Text (Unit {0}) → List StorageEdit → CallResult (Unit {0})
check_edits records session unique [] = ok tt
check_edits records session unique (e ∷ edits) = do
  check_edit records session unique e
  check_edits records session (insert e.key tt unique) edits

abbrev pub new_record : StorageEdit → StoredRecord
new_record e = record { revision = e.expected + 1; data_bytes = e.data_bytes }

-- The loop that writes the edits, and the records that it answers.
unfoldable pub write_edits : Text → List StorageEdit → Records → Records
write_edits session [] records = records
write_edits session (e ∷ edits) records =
    write_edits session edits (insert (session, e.key) (new_record e) records)

unfoldable pub new_records : List StorageEdit → List StoredRecord
new_records [] = []
new_records (e ∷ edits) = new_record e ∷ new_records edits

abbrev pub write_checked :
    StorageTransaction → CallResult (Unit {0}) → Call Records (List StoredRecord)
write_checked request (err e) records = (err e, records)
write_checked request (ok u) records =
    (ok (new_records request.edits), write_edits request.session request.edits records)

module _ (resource : Result Failure (Option Text)) where
  unfoldable pub read : Records → RecordKey → CallResult StoredRecord
  read records request = do
    check_session resource request.session
    ok_or (get (request.session, request.key) records) missing_record

  -- The checks that come before the first write.
  abbrev pub check_transaction : Records → StorageTransaction → CallResult (Unit {0})
  check_transaction records request = do
    check_session resource request.session
    check_edits records request.session [] request.edits

  unfoldable pub transact : StorageTransaction → Call Records (List StoredRecord)
  transact request records = write_checked request (check_transaction records request) records
