-- ===== src/Basic/EventJournal.antt =====
-- crates/phenix-plugin-event-journal/src/lib.rs: the handlers of the journal over the storage
-- service.
-- The bytes of a value (`encode` and `decode` of the basic contracts over derived codecs) and the
-- resource that the host answers are parameters.
pub mod Append
pub mod Answered
pub mod Observer
pub mod ReadBack
use phenix_ai.Prelude.{
  ℕ, ◌+◌, Bool, true, false, not, ◌&&◌, ◌||◌, Option, none, some, List, [], ◌∷◌, ◌++◌, ltb, leb,
  ◌==◌, length, checked_add,
}
use phenix_ai.Prelude.Order.{Text, text_ord, ◌=?◌, ascii}
use phenix_ai.Contract.Failure
use phenix_ai.Contract.Failure.{Failure, Result, ok, err, guard, ok_or}
use phenix_ai.Contract.Schema.{identifier}
use phenix_ai.Compaction.Journal.{Event}
use phenix_ai.Basic.Errors.{
  ErrorCode, BasicError, CallError, domain, kernel, CallResult, map_err, error, check_session,
  not_found, invalid_input, conflict, invalid_cursor,
}
use phenix_ai.Basic.Call.{Call, lift, reads, ◌>>=◌, ◌>>◌}
use phenix_ai.Basic.Storage.{RecordKey, StoredRecord, Storage, transact_one}
use phenix_ai.Basic.Events.{
  JournalAppend, JournalQuery, EventPage, storage_error, validate, append_checked, page_from,
}

-- `ObserverRequest` and `ObserverCheckpoint` of the basic contracts.
pub record ObserverRequest : Type 0 where
  pub session : Text
  pub observer : Text

pub record ObserverCheckpoint : Type 0 where
  pub session : Text
  pub observer : Text
  pub offset : ℕ
  pub revision : ℕ

-- `JOURNAL_KEY`
abbrev pub journal_key : Text
journal_key = ascii "event-journal.v1"

abbrev pub is_not_found : CallError → Bool
is_not_found (kernel f) = false
is_not_found (domain e) = elim e.code [ not_found ↦ true | _ ↦ false ]

abbrev pub corrupt : Failure → CallError
corrupt f = domain storage_error

-- The sequence number of the last event, 0 for none.
abbrev pub tail_of : List Event → ℕ
tail_of [] = 0
tail_of (e ∷ []) = e.sequence
tail_of (e ∷ d ∷ events) = tail_of (d ∷ events)

unfoldable pub observer_key : Text → CallResult Text
observer_key observer =
    Failure.◌>>◌
      (guard (identifier observer) (domain (error invalid_input "invalid observer identity")))
      (ok (ascii "event-observer.v1." ++ observer))

abbrev pub is_saved : ObserverRequest → ℕ → ℕ → ObserverCheckpoint → Bool
is_saved request revision tail saved =
    saved.session =? request.session
    && saved.observer =? request.observer
    && not (saved.revision == 0)
    && saved.revision == revision
    && leb saved.offset tail

module _ {S : Type 0} (storage : Storage S) (resource : Result Failure (Option Text))
    (encode : List Event → Result Failure Text) (decode : Text → Result Failure (List Event)) where
  -- What the match of `load` makes of the answer of the storage service.
  abbrev pub loaded : CallResult StoredRecord → CallResult (ℕ × List Event)
  loaded (ok r) =
      Failure.◌>>=◌ (map_err corrupt (decode r.data_bytes)) λ events. ok (r.revision, events)
  loaded (err e) = elim (is_not_found e) [ true ↦ ok (0, []) | false ↦ err e ]

  unfoldable pub load : Text → S → CallResult (ℕ × List Event)
  load session s = loaded (storage.read s (record { session = session; key = journal_key }))

  abbrev pub commit_events : Text → ℕ → List Event → List Event → Call S ℕ
  commit_events session revision updated [] = lift (ok (tail_of updated))
  commit_events session revision updated (e ∷ events) = do
    content ← lift (map_err kernel (encode updated))
    transact_one storage session journal_key revision content
    lift (ok (tail_of updated))

  unfoldable pub append : JournalAppend → Call S ℕ
  append request = do
    lift (check_session resource request.session)
    stored ← reads (load request.session)
    updated ← lift (map_err domain (append_checked stored.1 request))
    commit_events request.session stored.0 updated request.events

  -- `read`
  unfoldable pub read_page : JournalQuery → Call S EventPage
  read_page request = do
    lift (check_session resource request.session)
    stored ← reads (load request.session)
    lift (map_err domain (page_from stored.1 request))

  module _ (encode_observer : ObserverCheckpoint → Result Failure Text)
      (decode_observer : Text → Result Failure ObserverCheckpoint) where
    abbrev pub first_checkpoint : ObserverRequest → ObserverCheckpoint
    first_checkpoint request = record {
      session = request.session;
      observer = request.observer;
      offset = 0;
      revision = 0;
    }

    -- What the match of `load_observer` makes of the answer of the storage service.
    abbrev pub saved_checkpoint :
        ObserverRequest → ℕ → CallResult StoredRecord → CallResult ObserverCheckpoint
    saved_checkpoint request tail (ok r) =
        Failure.◌>>=◌ (map_err corrupt (decode_observer r.data_bytes)) λ saved.
          Failure.◌>>◌ (guard (is_saved request r.revision tail saved) (domain storage_error))
            (ok saved)
    saved_checkpoint request tail (err e) = elim (is_not_found e) [
      | true ↦ ok (first_checkpoint request)
      | false ↦ err e
    ]

    unfoldable pub load_observer : ObserverRequest → S → CallResult (ObserverCheckpoint × ℕ)
    load_observer request s = Failure.◌>>=◌ (observer_key request.observer) λ key.
        Failure.◌>>=◌ (load request.session s) λ stored.
          Failure.◌>>◌ (map_err domain (validate stored.1 request.session)) (
            Failure.◌>>=◌
              (saved_checkpoint request (tail_of stored.1)
                (storage.read s (record { session = request.session; key = key })))
              λ checkpoint. ok (checkpoint, tail_of stored.1))

    -- `observer`
    unfoldable pub observe : ObserverRequest → Call S ObserverCheckpoint
    observe request = do
      lift (check_session resource request.session)
      current ← reads (load_observer request)
      lift (ok current.0)

    -- The end of `checkpoint_observer`, for an offset that is ahead of the current one.
    abbrev pub advance : ObserverCheckpoint → ObserverCheckpoint → Call S ObserverCheckpoint
    advance request current = do
      revision ← lift (
          ok_or (checked_add current.revision 1)
            (domain (error conflict "observer revision overflow")))
      let saved : ObserverCheckpoint = record request { revision = revision } in
          do
            content ← lift (map_err kernel (encode_observer saved))
            key ← lift (observer_key saved.observer)
            transact_one storage saved.session key current.revision content
            lift (ok saved)

    -- An offset that has not moved is not saved again.
    abbrev pub save : Bool → ObserverCheckpoint → ObserverCheckpoint → Call S ObserverCheckpoint
    save true request current = lift (ok current)
    save false request current = advance request current

    unfoldable pub checkpoint_observer : ObserverCheckpoint → Call S ObserverCheckpoint
    checkpoint_observer request = do
      lift (check_session resource request.session)
      current ←
          reads (load_observer (record { session = request.session; observer = request.observer }))
      lift (
          guard (request.revision == current.0.revision)
            (domain (error conflict "observer revision changed")))
      lift (
          guard (not (ltb request.offset current.0.offset) && leb request.offset current.1)
            (domain (error invalid_cursor "observer offset is outside delivered journal bounds")))
      save (request.offset == current.0.offset) request current.0
