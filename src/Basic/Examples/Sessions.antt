-- ===== src/Basic/Examples/Sessions.antt =====
-- Tests of the session plugin over the storage fixture.
use phenix_ai.Prelude.{ℕ, ◌≡◌, refl, true, false, Option, some, [], ◌∷◌, checked_add, position}
use phenix_ai.Prelude.Order.{Text, ascii, compare_text, text_ord}
use phenix_ai.Prelude.Map.{get, insert, get-All_key}
use phenix_ai.Contract.Failure.{Failure, Result, ok}
use phenix_ai.Contract.Schema.{identifier}
use phenix_ai.Basic.Errors.{session_resource, check_session}
use phenix_ai.Basic.Storage.{matches_commit, checked_single_commit_ack, transact_one}
use phenix_ai.Basic.Fixture
use phenix_ai.Basic.Fixture.{Records, check_edit, check_edits, write_edits, new_records, transact}
use phenix_ai.Basic.Fixture.Service.{fixture}
use phenix_ai.Basic.Session.{
  ToolCall, ToolOutcome, tool_result, running, run_indeterminate, SessionSnapshot, ReconcileTool,
  fresh_ids, well_formed_snapshot, reconcile_snapshot,
}
use phenix_ai.Basic.Session.Plugin.{
  record_key, Sessions, load, current, commit, commit_live, open_session, checkpoint_session,
  reconcile_session,
}
use phenix_ai.Basic.Session.Reconcile.{IsReconciled, reconcile_snapshot-well_formed_snapshot}
use phenix_ai.Basic.Session.Synced.{IsSaved, at, IsSynced, handle-IsSynced, handle, reconciles}
use phenix_ai.Basic.Session.Answers.{
  IsAnswer, checkpoint_session-IsAnswer, reconcile_session-IsAnswer, open_session_restart,
}
use phenix_ai.Basic.Examples.Snapshots.{encode, decode, put_snapshot, snapshot_codec-RoundTrips}

abbrev held : Result Failure (Option Text)
held = ok (some (ascii "phenix.session.s"))

abbrev s : Text
s = ascii "s"

abbrev call : ToolCall
call = record { id = ascii "a"; tool = ascii "t"; arguments = [] }

abbrev stopped : ℕ → Text → SessionSnapshot
stopped n run = record {
  session = s;
  history = [];
  status = run_indeterminate;
  run = run;
  checkpoint = 0;
  revision = n;
  pending = call ∷ [];
  usage = record { input_tokens = 0; output_tokens = 0 };
}

abbrev resolution : ReconcileTool
resolution = record {
  session = s;
  call_id = ascii "a";
  outcome = ToolOutcome.succeeded (ascii "x");
}

abbrev resumed : ℕ → Text → SessionSnapshot
resumed n run = record {
  session = s;
  history = tool_result (ascii "a") (ToolOutcome.succeeded (ascii "x")) ∷ [];
  status = running;
  run = run;
  checkpoint = 0;
  revision = n;
  pending = [];
  usage = record { input_tokens = 0; output_tokens = 0 };
}

reconciles_call : (run : Text) → reconcile_snapshot (stopped 1 run) resolution ≡ ok (resumed 1 run)
unfolding reconcile_snapshot compare_text position
reconciles_call run = refl

stopped_formed : (run : Text) → well_formed_snapshot (stopped 1 run) ≡ true
unfolding well_formed_snapshot fresh_ids get insert compare_text
stopped_formed run = refl

-- A snapshot without a run: what is left of it is not well formed.
reconcile_snapshot-well_formed_snapshot_example : well_formed_snapshot (resumed 1 []) ≡ false
reconcile_snapshot-well_formed_snapshot_example =
    reconcile_snapshot-well_formed_snapshot (stopped 1 []) resolution (stopped_formed [])
      (reconciles_call [])

abbrev place : Text × Text
place = (s, record_key)

abbrev before : Sessions × Records
before = (
  (s, stopped 1 (ascii "r")) ∷ [],
  (place, record { revision = 1; data_bytes = put_snapshot (stopped 1 (ascii "r")) }) ∷ [],
)

abbrev behind : Sessions × Records
behind = (
  (s, resumed 2 (ascii "r")) ∷ [],
  (place, record { revision = 2; data_bytes = put_snapshot (resumed 2 (ascii "r")) }) ∷ [],
)

reconciles_session :
    reconcile_session (fixture held) held encode decode resolution before
    ≡ (ok (resumed 2 (ascii "r")), behind)
unfolding reconcile_session current commit_live commit Fixture.read transact check_session
    session_resource identifier check_edits check_edit write_edits new_records get insert
    compare_text encode put_snapshot reconcile_snapshot position checked_add transact_one
    checked_single_commit_ack matches_commit
reconciles_session = refl

reconcile_session-IsAnswer_example :
    (prior next : SessionSnapshot) × ((current (fixture held) held encode decode s before).0
      ≡ ok prior)
    × IsReconciled prior resolution next
    × IsAnswer (fixture held) held encode decode next (resumed 2 (ascii "r")) behind
reconcile_session-IsAnswer_example =
    reconcile_session-IsAnswer (fixture held) held encode decode snapshot_codec-RoundTrips
      resolution before reconciles_session

saved : decode (put_snapshot (stopped 1 (ascii "r"))) ≡ ok (stopped 1 (ascii "r"))
unfolding encode
saved = snapshot_codec-RoundTrips (stopped 1 (ascii "r")) _ refl

-- What the storage holds of a live session.
abbrev IsHeld : Text × SessionSnapshot → Type 0
IsHeld (k, x) =
    (x.session ≡ k)
    × IsSaved (fixture held) held encode decode k (at (fixture held) held encode decode before.1 k)
        x

before-IsHeld : IsHeld (s, stopped 1 (ascii "r"))
unfolding get compare_text
before-IsHeld = (refl, (saved, refl))

before-IsSynced : IsSynced (fixture held) held encode decode before
before-IsSynced k x h = get-All_key IsHeld k before.0 x (before-IsHeld, tt) h

handle-IsSynced_example :
    IsSynced
      (fixture held)
      held
      encode
      decode
      (handle (fixture held) held encode decode (reconciles resolution) before).1
handle-IsSynced_example =
    handle-IsSynced (fixture held) held encode decode snapshot_codec-RoundTrips
      (reconciles resolution) before before-IsSynced

-- A session is stopped by a checkpoint.
abbrev started : Sessions × Records
started = ([], [])

abbrev first : SessionSnapshot
first = stopped 0 (ascii "r")

abbrev first_saved : Sessions × Records
first_saved = (
  (s, stopped 1 (ascii "r")) ∷ [],
  (place, record { revision = 1; data_bytes = put_snapshot (stopped 1 (ascii "r")) }) ∷ [],
)

checkpoints_session :
    checkpoint_session (fixture held) held encode decode first started
    ≡ (ok (stopped 1 (ascii "r")), first_saved)
unfolding checkpoint_session current load commit_live commit Fixture.read transact check_session
    session_resource identifier check_edits check_edit write_edits new_records get insert
    compare_text encode put_snapshot well_formed_snapshot fresh_ids checked_add transact_one
    checked_single_commit_ack matches_commit
checkpoints_session = refl

checkpoint_session-IsAnswer_example :
    (prior : SessionSnapshot) × ((current (fixture held) held encode decode s started).0 ≡ ok prior)
    × (◌≡◌ {A = ℕ} 0 prior.revision)
    × (prior.status ≡ run_indeterminate → run_indeterminate ≡ run_indeterminate)
    × (well_formed_snapshot first ≡ true)
    × IsAnswer (fixture held) held encode decode first (stopped 1 (ascii "r")) first_saved
checkpoint_session-IsAnswer_example =
    checkpoint_session-IsAnswer (fixture held) held encode decode snapshot_codec-RoundTrips first
      started checkpoints_session

allowed : check_session held s ≡ ok tt
unfolding check_session session_resource identifier compare_text
allowed = refl

live_session : get s before.0 ≡ some (stopped 1 (ascii "r"))
unfolding get compare_text
live_session = refl

open_session_restart_example :
    (open_session (fixture held) held encode decode s before).0
    ≡ (open_session (fixture held) held encode decode s ([], before.1)).0
open_session_restart_example =
    open_session_restart (fixture held) held encode decode s before.0 before.1
      (stopped 1 (ascii "r")) allowed before-IsSynced live_session (stopped_formed (ascii "r"))
