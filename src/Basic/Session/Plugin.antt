-- ===== src/Basic/Session/Plugin.antt =====
-- crates/phenix-plugin-basic-session/src/lib.rs: the handlers of the session plugin. The state of a
-- call
-- is the plugin's live sessions beside the state of the storage service. The codec of snapshots and
-- the
-- resource that the host answers are parameters.
use phenix_ai.Prelude.{true, false, not, ◌&&◌, Option, none, some, ◌==◌, checked_add}
use phenix_ai.Prelude.Order.{Text, text_ord, ◌=?◌, ascii}
use phenix_ai.Prelude.Map.{Map, get, insert, remove}
use phenix_ai.Contract.Failure
use phenix_ai.Contract.Failure.{Failure, Result, ok, err, guard, ok_or}
use phenix_ai.Basic.Errors.{
  CallError, domain, kernel, CallResult, map_err, error, check_session, conflict, indeterminate,
  invalid_input, storage_failed,
}
use phenix_ai.Basic.Call.{Call, lift, ◌>>=◌, ◌>>◌}
use phenix_ai.Basic.Storage.{StoredRecord, Storage, transact_one}
use phenix_ai.Basic.EventJournal.{is_not_found}
use phenix_ai.Basic.Session.{
  SessionSnapshot, ReconcileTool, well_formed_snapshot, empty, is_indeterminate, reconcile_snapshot,
}

-- `RECORD`
abbrev pub record_key : Text
record_key = ascii "session.snapshot.v1"

-- The live sessions of `State`.
abbrev pub Sessions : Type 0
Sessions = Map Text SessionSnapshot

abbrev pub invalid_snapshot : Failure → CallError
invalid_snapshot f = domain (error storage_failed "invalid snapshot")

module _ {S : Type 0} (storage : Storage S) (resource : Result Failure (Option Text))
    (encode : SessionSnapshot → Result Failure Text)
    (decode : Text → Result Failure SessionSnapshot) where
  -- What the match of `load` makes of the answer of the storage service.
  abbrev pub restored : Text → CallResult StoredRecord → CallResult SessionSnapshot
  restored session (ok r) = Failure.◌>>=◌ (map_err invalid_snapshot (decode r.data_bytes)) λ x.
      Failure.◌>>◌
        (guard (x.revision == r.revision && x.session =? session && well_formed_snapshot x)
          (domain (error storage_failed "snapshot revision, session or state is invalid")))
        (ok x)
  restored session (err e) = elim (is_not_found e) [ true ↦ ok (empty session) | false ↦ err e ]

  unfoldable pub load : Text → S → CallResult SessionSnapshot
  load session s =
      restored session (storage.read s (record { session = session; key = record_key }))

  -- The rest of `current` when the session is not live.
  abbrev pub restore : Text → CallResult SessionSnapshot → Call (Sessions × S) SessionSnapshot
  restore session (ok x) (live, s) = (ok x, (insert session x live, s))
  restore session (err e) (live, s) = (err e, (live, s))

  abbrev pub current_or : Text → Option SessionSnapshot → Call (Sessions × S) SessionSnapshot
  current_or session (some x) w = (ok x, w)
  current_or session none w = restore session (load session w.1) w

  -- `State::current`
  unfoldable pub current : Text → Call (Sessions × S) SessionSnapshot
  current session w = current_or session (get session w.0) w

  unfoldable pub commit : SessionSnapshot → Call S SessionSnapshot
  commit x = do
    revision ←
        lift
          (ok_or (checked_add x.revision 1) (domain (error conflict "session revision overflow")))
    let next : SessionSnapshot = record x { revision = revision } in
        do
          content ← lift (map_err kernel (encode next))
          transact_one storage next.session record_key x.revision content
          lift (ok next)

  -- `committed` or `invalidate`, by how the commit ended.
  abbrev pub settle :
      Text → Sessions → CallResult SessionSnapshot × S → CallResult SessionSnapshot × (Sessions × S)
  settle session live (ok x, s) = (ok x, (insert x.session x live, s))
  settle session live (err e, s) = (err e, (remove session live, s))

  -- The match on `commit(host, …)`.
  unfoldable pub commit_live : Text → SessionSnapshot → Call (Sessions × S) SessionSnapshot
  commit_live session x w = settle session w.0 (commit x w.1)

  -- `Session::open`; the request is the session of the scope.
  unfoldable pub open_session : Text → Call (Sessions × S) SessionSnapshot
  open_session session = do lift (check_session resource session); current session

  -- `Session::checkpoint`
  unfoldable pub checkpoint_session : SessionSnapshot → Call (Sessions × S) SessionSnapshot
  checkpoint_session request = do
    lift (check_session resource request.session)
    prior ← current request.session
    lift (
        guard (request.revision == prior.revision)
          (domain (error conflict "stale session checkpoint")))
    lift (
        guard (not (is_indeterminate prior.status && not (is_indeterminate request.status)))
          (domain (error indeterminate "pending tools require reconciliation")))
    lift (
        guard (well_formed_snapshot request) (
          domain
            (error invalid_input "session checkpoint has invalid running state or pending calls")))
    commit_live request.session request

  -- `Session::reconcile`
  unfoldable pub reconcile_session : ReconcileTool → Call (Sessions × S) SessionSnapshot
  reconcile_session request = do
    lift (check_session resource request.session)
    prior ← current request.session
    next ← lift (map_err domain (reconcile_snapshot prior request))
    commit_live request.session next
