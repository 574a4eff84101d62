-- ===== src/Basic/Storage.antt =====
-- crates/phenix-basic-contracts/src/lib.rs: the records of the storage service, the service as an
-- interface with the laws its clients rely on, and the commit of a single record.
pub mod Commit
use phenix_ai.Prelude.{
  ℕ, ◌+◌, ◌<◌, ◌≡◌, refl, Bool, false, Option, none, some, List, [], ◌∷◌, ◌⊎◌, ◌≢◌, ◌&&◌, ◌==◌,
  checked_add, u64_max,
}
use phenix_ai.Prelude.Order.{Text, text_ord, ◌=?◌}
use phenix_ai.Contract.Failure
use phenix_ai.Contract.Failure.{Failure, failure, Result, ok, err, guard, ok_or, plugin_failed}
use phenix_ai.Basic.Errors.{
  BasicError, CallError, domain, kernel, CallResult, map_err, error, conflict, not_found,
}
use phenix_ai.Basic.Call.{Call, lift, ◌>>=◌, ◌>>◌}

pub record RecordKey : Type 0 where
  pub session : Text
  pub key : Text

pub record StoredRecord : Type 0 where
  pub revision : ℕ
  pub data_bytes : Text

pub record StorageEdit : Type 0 where
  pub key : Text
  pub expected : ℕ
  pub data_bytes : Text

pub record StorageTransaction : Type 0 where
  pub session : Text
  pub edits : List StorageEdit

abbrev pub is_number : Option ℕ → ℕ → Bool
is_number none n = false
is_number (some m) n = m == n

-- `StoredRecord::matches_commit`
unfoldable pub matches_commit : StoredRecord → ℕ → Text → Bool
matches_commit r expected content =
    is_number (checked_add expected 1) r.revision && r.data_bytes =? content

-- The revision of what is stored; a missing record has revision 0.
abbrev pub revision_of : Option StoredRecord → ℕ
revision_of none = 0
revision_of (some r) = r.revision

-- What is stored under each key of each session.
abbrev pub Contents : Type 0
Contents = Text → Text → Option StoredRecord

-- One edit was made, and nothing else.
pub record IsCommit (before : Contents) (session : Text) (edit : StorageEdit) (after : Contents)
    : Type 0 where
  pub prior : revision_of (before session edit.key) ≡ edit.expected
  pub stored :
      after session edit.key
      ≡ some (record { revision = edit.expected + 1; data_bytes = edit.data_bytes })
  pub others : (i k : Text) → (i ≢ session) ⊎ (k ≢ edit.key) → after i k ≡ before i k

abbrev pub SameContents : Contents → Contents → Type 0
SameContents before after = (i k : Text) → after i k ≡ before i k

abbrev pub single : Text → StorageEdit → StorageTransaction
single session edit = record { session = session; edits = edit ∷ [] }

-- What a client relies on: `contents` is what the state holds, and `Serves` the sessions that the
-- provider's host authorizes.
pub record IsStorage {S : Type 0} (read : S → RecordKey → CallResult StoredRecord)
    (transact : StorageTransaction → Call S (List StoredRecord)) (contents : S → Contents)
    (Serves : Text → Type 0) : Type 0 where
  pub read_ok :
      (s : S) (k : RecordKey) {r : StoredRecord}
      → read s k ≡ ok r
      → contents s k.session k.key ≡ some r
  pub read_missing :
      (s : S) (k : RecordKey) {e : BasicError}
      → read s k ≡ err (domain e)
      → e.code ≡ not_found
      → contents s k.session k.key ≡ none
  pub transact_ok :
      (s : S) (session : Text) (edit : StorageEdit) {rs : List StoredRecord} {s' : S}
      → transact (single session edit) s ≡ (ok rs, s')
      → IsCommit (contents s) session edit (contents s')
  pub transact_domain :
      (s : S) (session : Text) (edit : StorageEdit) {e : BasicError} {s' : S}
      → transact (single session edit) s ≡ (err (domain e), s')
      → SameContents (contents s) (contents s')
  -- A failure of the kernel does not tell whether the edit was made.
  pub transact_kernel :
      (s : S) (session : Text) (edit : StorageEdit) {f : Failure} {s' : S}
      → transact (single session edit) s ≡ (err (kernel f), s')
      → SameContents (contents s) (contents s') ⊎ IsCommit (contents s) session edit (contents s')
  -- A served session is answered.
  pub read_stored :
      (s : S) (k : RecordKey) {r : StoredRecord}
      → Serves k.session
      → contents s k.session k.key ≡ some r
      → read s k ≡ ok r
  pub read_absent :
      (s : S) (k : RecordKey)
      → Serves k.session
      → contents s k.session k.key ≡ none
      → (e : BasicError) × (read s k ≡ err (domain e)) × (e.code ≡ not_found)
  pub transact_done :
      (s : S) (session : Text) (edit : StorageEdit)
      → Serves session
      → edit.key ≢ []
      → revision_of (contents s session edit.key) ≡ edit.expected
      → edit.expected < u64_max
      → (transact (single session edit) s).0
        ≡ ok (record { revision = edit.expected + 1; data_bytes = edit.data_bytes } ∷ [])

-- The storage service, with a state of type `S`.
pub record Storage (S : Type 0) : Type 1 where
  pub read : S → RecordKey → CallResult StoredRecord
  pub transact : StorageTransaction → Call S (List StoredRecord)
  pub contents : S → Contents
  pub Serves : Text → Type 0
  pub lawful : IsStorage read transact contents Serves
  pub open lawful use *

abbrev pub one_record : List StoredRecord → Option StoredRecord
one_record (r ∷ []) = some r
one_record _ = none

abbrev pub matches_one : Option StoredRecord → ℕ → Text → Bool
matches_one none expected content = false
matches_one (some r) expected content = matches_commit r expected content

abbrev pub first_revision : List StoredRecord → ℕ
first_revision [] = 0
first_revision (r ∷ rs) = r.revision

-- `checked_single_commit_ack`
unfoldable pub checked_single_commit_ack : List StoredRecord → ℕ → Text → Result Failure ℕ
checked_single_commit_ack records expected content =
    Failure.◌>>◌
      (guard (matches_one (one_record records) expected content)
        (failure plugin_failed "storage returned an invalid single-record CAS acknowledgement"))
      (ok (first_revision records))

-- The codec of a type decodes what it encoded.
abbrev pub RoundTrips :
    {A : Type 0} → (A → Result Failure Text) → (Text → Result Failure A) → Type 0
RoundTrips {A = A} encode decode =
    (a : A) (content : Text) → encode a ≡ ok content → decode content ≡ ok a

-- `transact_one`, over the provider of the slot.
module _ {S : Type 0} (storage : Storage S) where
  unfoldable pub transact_one : Text → Text → ℕ → Text → Call S ℕ
  transact_one session key expected content = do
    lift (ok_or (checked_add expected 1) (domain (error conflict "revision overflow")))
    records ←
        storage.transact
          (single session (record { key = key; expected = expected; data_bytes = content }))
    lift (map_err kernel (checked_single_commit_ack records expected content))
