-- ===== src/Compaction/CheckpointStore.antt =====
-- crates/phenix-plugin-compaction-checkpoints/src/lib.rs: the handlers of the checkpoint store,
-- over the
-- storage service and the journal's read. The codec of ledgers, the journal's answers, SHA-256, the
-- bytes of an event and the resource that the host answers are parameters.
pub mod Put
pub mod Codec
mod Examples
use phenix_ai.Prelude.{
  ℕ, ◌+◌, ◌-◌, Bool, true, false, not, ◌&&◌, Option, none, some, String, List, [], ◌∷◌, leb, ltb,
  ◌==◌, length, checked_add, if◌then◌else◌,
}
use phenix_ai.Prelude.Order.{Text, text_ord, ◌=?◌, ascii}
use phenix_ai.Contract.Failure.{
  Failure, failure, plugin_failed, Result, ok, err, guard, ok_or, ◌>>=◌, ◌>>◌,
}
use phenix_ai.Basic.Errors
use phenix_ai.Basic.Errors.{
  ErrorCode, BasicError, CallError, domain, kernel, CallResult, map_err, check_session,
}
use phenix_ai.Basic.Storage.{RecordKey, StoredRecord, StorageEdit, Storage, single, one_record}
use phenix_ai.Basic.Storage.Commit.{edit_of}
use phenix_ai.Basic.Events.{JournalQuery, EventPage, and_then}
use phenix_ai.Basic.EventJournal.{is_not_found}
use phenix_ai.Compaction.Checkpoint.{CompactionCheckpoint, CompactionProblem, validate_checkpoint}
use phenix_ai.Compaction.Journal
use phenix_ai.Compaction.Journal.{
  Event, ReplayProblem, restore_original_events, capacity_exceeded, wrong_session,
}
use phenix_ai.Compaction.Ledger.{
  CheckpointStoreProblem, invalid_checkpoint, scope_denied, conflict, not_found, source_changed,
  storage_failed, validate_ledger, append_checkpoint, newest_checkpoint, find_checkpoint,
  verify_checkpoint_ancestry, AncestryVerificationError, missing_checkpoint, source,
}

pub record CheckpointStoreError : Type 0 where
  pub problem : CheckpointStoreProblem
  pub message : String

-- `CallError<CheckpointStoreError>`
pub data StoreError : Type 0 where
  refused : CheckpointStoreError → StoreError
  kernel_failed : Failure → StoreError

-- `CallError::Domain(problem(…))`
abbrev pub problem : CheckpointStoreProblem → String → StoreError
problem p m = refused (record { problem = p; message = m })

-- `RECORD_KEY` and `MAX_JOURNAL_EVENTS`
abbrev pub ledger_key : Text
ledger_key = ascii "compaction-checkpoints.v1"

abbrev pub max_journal_events : ℕ
max_journal_events = 1024

abbrev pub problem_of : ErrorCode → CheckpointStoreProblem
problem_of c = elim c [
  | ErrorCode.not_found ↦ not_found
  | ErrorCode.denied ↦ scope_denied
  | ErrorCode.conflict ↦ conflict
  | _ ↦ storage_failed
]

abbrev pub map_storage : CallError → StoreError
map_storage (kernel f) = kernel_failed f
map_storage (domain e) = problem (problem_of e.code) "checkpoint dependency denied or failed"

abbrev pub replay_problem : ReplayProblem → StoreError
replay_problem p =
    problem
      (elim p [
        | ReplayProblem.invalid_checkpoint ↦ invalid_checkpoint
        | ReplayProblem.capacity_exceeded ↦ invalid_checkpoint
        | ReplayProblem.wrong_session ↦ scope_denied
        | _ ↦ source_changed
      ])
      "original source journal is missing, altered or inaccessible"

abbrev pub ancestry_error : AncestryVerificationError StoreError → StoreError
ancestry_error missing_checkpoint =
    problem storage_failed "checkpoint missing from validated durable lineage"
ancestry_error (source e) = e

-- The number of events of the checkpoint's input: `checked_sub`, then `checked_add(1)`.
abbrev pub checked_sub : ℕ → ℕ → Option ℕ
checked_sub a b = if ltb a b then none else some (a - b)

abbrev pub input_count : CompactionCheckpoint → Option ℕ
input_count c =
    and_then (checked_sub c.input.last_sequence c.input.first_sequence) λ delta. checked_add delta 1

abbrev pub acknowledges : Option StoredRecord → ℕ → Text → Bool
acknowledges none revision content = false
acknowledges (some r) revision content = r.revision == revision + 1 && r.data_bytes =? content

module _ {S : Type 0} (storage : Storage S) (journal_read : S → JournalQuery → CallResult EventPage)
    (resource : Result Failure (Option Text)) (sha256 : List ℕ → List ℕ)
    (event_bytes : Event → Option (List ℕ))
    (encode : List CompactionCheckpoint → Result Failure Text)
    (decode : Text → Result Failure (List CompactionCheckpoint)) where
  -- What the match of `load` makes of the answer of the storage service.
  abbrev pub loaded : CallResult StoredRecord → Result StoreError (ℕ × List CompactionCheckpoint)
  loaded (ok r) = do
    history ←
        map_err (λ f. problem storage_failed "invalid checkpoint ledger encoding")
          (decode r.data_bytes)
    ok (r.revision, history)
  loaded (err e) = elim (is_not_found e) [ true ↦ ok (0, []) | false ↦ err (map_storage e) ]

  -- The end of `load`: the checks of what was found.
  abbrev pub check_loaded :
      Text → ℕ × List CompactionCheckpoint → Result StoreError (ℕ × List CompactionCheckpoint)
  check_loaded session (revision, history) = do
    map_err (λ p. problem storage_failed "invalid durable checkpoint lineage")
        (validate_ledger history session)
    guard (revision == length history)
        (problem storage_failed "checkpoint ledger storage revision mismatch")
    ok (revision, history)

  unfoldable pub load : Text → S → Result StoreError (ℕ × List CompactionCheckpoint)
  load session s = do
    map_err map_storage (check_session resource session)
    found ← loaded (storage.read s (record { session = session; key = ledger_key }))
    check_loaded session found

  unfoldable pub verify_journal : S → CompactionCheckpoint → Result StoreError (Unit {0})
  verify_journal s c = do
    map_err (λ p. problem invalid_checkpoint "invalid checkpoint structure") (validate_checkpoint c)
    count ← ok_or (input_count c) (problem invalid_checkpoint "invalid journal range")
    guard (leb count max_journal_events)
        (problem invalid_checkpoint "checkpoint source range exceeds bounded journal read")
    page ← map_err map_storage (
        journal_read s
          (record { session = c.session; offset = c.input.first_sequence - 1; limit = count }))
    events ← map_err replay_problem (restore_original_events sha256 event_bytes c page.events)
    ok tt

  unfoldable pub verify_source_ancestry :
      S → List CompactionCheckpoint → Text → Result StoreError (Unit {0})
  verify_source_ancestry s history id =
      map_err ancestry_error (verify_checkpoint_ancestry (verify_journal s) history id)

  -- `put` up to the transaction: the expected revision and the bytes of the new ledger.
  unfoldable pub prepare : CompactionCheckpoint → S → Result StoreError (ℕ × Text)
  prepare c s = do
    found ← load c.session s
    updated ←
        map_err (λ p. problem p "invalid checkpoint revision")
          (append_checkpoint found.1 c c.session)
    verify_source_ancestry s updated c.id
    content ← map_err kernel_failed (encode updated)
    ok (found.0, content)

  -- The check of the acknowledgement.
  abbrev pub acknowledged :
      CompactionCheckpoint
      → ℕ
      → Text
      → CallResult (List StoredRecord)
      → Result StoreError CompactionCheckpoint
  acknowledged c revision content answer = do
    records ← map_err map_storage answer
    guard (acknowledges (one_record records) revision content)
        (kernel_failed (failure plugin_failed "invalid checkpoint storage CAS acknowledgment"))
    ok c

  abbrev pub put_prepared :
      CompactionCheckpoint
      → Result StoreError (ℕ × Text)
      → S
      → Result StoreError CompactionCheckpoint × S
  put_prepared c (err e) s = (err e, s)
  put_prepared c (ok (revision, content)) s =
      let (answer, s') =
        storage.transact (single c.session (edit_of ledger_key revision content)) s in
      (acknowledged c revision content answer, s')

  -- `put`
  unfoldable pub put_checkpoint :
      CompactionCheckpoint → S → Result StoreError CompactionCheckpoint × S
  put_checkpoint c s = put_prepared c (prepare c s) s

  unfoldable pub latest : Text → S → Result StoreError CompactionCheckpoint
  latest session s = do
    found ← load session s
    c ← map_err (λ p. problem p "no valid latest checkpoint") (newest_checkpoint found.1 session)
    verify_source_ancestry s found.1 c.id
    ok c

  -- `get`, by the session and the identity of the key.
  unfoldable pub get_checkpoint : Text → Text → S → Result StoreError CompactionCheckpoint
  get_checkpoint session id s = do
    found ← load session s
    c ← map_err (λ p. problem p "checkpoint not found") (find_checkpoint found.1 id)
    verify_source_ancestry s found.1 c.id
    ok c
