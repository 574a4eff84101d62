-- ===== src/Basic/Session.antt =====
-- crates/phenix-plugin-basic-session/src/lib.rs: snapshots of a session, with the records of
-- crates/phenix-basic-contracts/src/lib.rs that they are made of.
pub mod Plugin
pub mod Reconcile
pub mod Synced
pub mod Answers
use phenix_ai.Prelude.{
  ℕ, zero, suc, Bool, true, false, not, ◌&&◌, ◌||◌, Option, none, some, List, [], ◌∷◌, ◌++◌, ◌==◌,
  if◌then◌else◌, length, position, is_some,
}
use phenix_ai.Prelude.Order.{Text, text_ord, ◌=?◌, ascii}
use phenix_ai.Prelude.Map.{Map, get, insert}
use phenix_ai.Contract.Failure.{Result, ok, err, guard, ok_or, ◌>>=◌, ◌>>◌}
use phenix_ai.Basic.Errors.{BasicError, error, invalid_input, not_found}

pub record ToolCall : Type 0 where
  pub id : Text
  pub tool : Text
  pub arguments : Text

pub data ToolOutcome : Type 0 where
  succeeded : Text → ToolOutcome
  failed : Text → Text → ToolOutcome

pub data Message : Type 0 where
  user : Text → Message
  assistant : Text → List ToolCall → Message
  tool_result : Text → ToolOutcome → Message

pub record Usage : Type 0 where
  pub input_tokens : ℕ
  pub output_tokens : ℕ

pub data RunStatus : Type 0 where
  idle running completed run_failed run_cancelled run_indeterminate : RunStatus

pub record SessionSnapshot : Type 0 where
  pub session : Text
  pub history : List Message
  pub status : RunStatus
  pub run : Text
  pub checkpoint : ℕ
  pub revision : ℕ
  pub pending : List ToolCall
  pub usage : Usage

pub record ReconcileTool : Type 0 where
  pub session : Text
  pub call_id : Text
  pub outcome : ToolOutcome

abbrev pub is_running : RunStatus → Bool
is_running running = true
is_running _ = false

abbrev pub is_indeterminate : RunStatus → Bool
is_indeterminate run_indeterminate = true
is_indeterminate _ = false

-- The iteration over the pending calls: no identity is empty or seen before.
unfoldable pub fresh_ids : Map Text (Unit {0}) → List ToolCall → Bool
fresh_ids seen [] = true
fresh_ids seen (c ∷ calls) =
    not (length c.id == 0) && not (is_some (get c.id seen)) && fresh_ids (insert c.id tt seen) calls

unfoldable pub well_formed_snapshot : SessionSnapshot → Bool
well_formed_snapshot x = not (is_running x.status && length x.run == 0) && fresh_ids [] x.pending

abbrev pub empty : Text → SessionSnapshot
empty session = record {
  session = session;
  history = [];
  status = idle;
  run = [];
  checkpoint = 0;
  revision = 0;
  pending = [];
  usage = record { input_tokens = 0; output_tokens = 0 };
}

-- `pending.remove(position)`
abbrev pub remove_at : ℕ → List ToolCall → List ToolCall
remove_at n [] = []
remove_at zero (c ∷ calls) = calls
remove_at (suc n) (c ∷ calls) = c ∷ remove_at n calls

-- A session whose last pending call is reconciled runs again.
abbrev pub status_after : List ToolCall → RunStatus → RunStatus
status_after [] status = running
status_after (c ∷ calls) status = status

abbrev pub resolved : SessionSnapshot → ReconcileTool → ℕ → SessionSnapshot
resolved x resolution n = record x {
  pending = remove_at n x.pending;
  history = x.history ++ tool_result resolution.call_id resolution.outcome ∷ [];
  status = status_after (remove_at n x.pending) x.status;
}

-- `reconcile_snapshot`; the snapshot is changed only where it succeeds.
unfoldable pub reconcile_snapshot :
    SessionSnapshot → ReconcileTool → Result BasicError SessionSnapshot
reconcile_snapshot x resolution = do
  guard
      (x.session =? resolution.session
        && is_indeterminate x.status
        && not (length resolution.call_id == 0))
      (error invalid_input "session cannot be reconciled")
  n ←
      ok_or (position (λ c. c.id =? resolution.call_id) x.pending)
        (error not_found "pending tool call not found")
  ok (resolved x resolution n)
