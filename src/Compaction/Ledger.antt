-- ===== src/Compaction/Ledger.antt =====
-- crates/phenix-plugin-compaction-checkpoints/src/lib.rs: the ledger of a session's checkpoints.
-- The
-- callback that verifies a checkpoint's source is a function of the checkpoint.
pub mod Lineage
pub mod Ancestry
use phenix_ai.Prelude.{
  ℕ, suc, ◌+◌, Bool, true, false, not, ◌&&◌, ◌||◌, Option, none, some, List, [], ◌∷◌, ◌++◌, leb,
  ltb, ◌==◌, length, take, any, position, find?,
}
use phenix_ai.Prelude.Order.{Text, text_ord, ◌=?◌, ascii}
use phenix_ai.Contract.Failure.{Result, ok, err, guard, ok_or, ◌>>=◌, ◌>>◌}
use phenix_ai.Basic.Events.{next_number}
use phenix_ai.Compaction.Checkpoint.{CompactionCheckpoint, Checked, validate_checkpoint}

-- `CheckpointStoreProblem`
pub data CheckpointStoreProblem : Type 0 where
  invalid_checkpoint scope_denied conflict not_found source_changed storage_failed :
      CheckpointStoreProblem

-- `MAX_CHECKPOINTS`
abbrev pub max_checkpoints : ℕ
max_checkpoints = 256

abbrev pub is_ok : Checked → Bool
is_ok (ok u) = true
is_ok (err e) = false

-- The identity of the last checkpoint.
abbrev pub last_id : List CompactionCheckpoint → Option Text
last_id [] = none
last_id (c ∷ []) = some c.id
last_id (c ∷ d ∷ history) = last_id (d ∷ history)

abbrev pub same_id : Option Text → Option Text → Bool
same_id none none = true
same_id none (some b) = false
same_id (some a) none = false
same_id (some a) (some b) = a =? b

abbrev pub knows : Text → List CompactionCheckpoint → Bool
knows id history = any (λ older. older.id =? id) history

-- The conditions of the loop of `validate_ledger` on a checkpoint behind `older`.
abbrev pub is_next : Text → List CompactionCheckpoint → ℕ → CompactionCheckpoint → Bool
is_next session older expected c =
    is_ok (validate_checkpoint c)
    && c.session =? session
    && c.revision == expected
    && same_id c.parent_checkpoint (last_id older)
    && not (knows c.id older)

-- The loop, with the checkpoints that it has passed.
unfoldable pub check_ledger :
    Text
    → List CompactionCheckpoint
    → List CompactionCheckpoint
    → Result CheckpointStoreProblem (Unit {0})
check_ledger session older [] = ok tt
check_ledger session older (c ∷ history) = do
  expected ← ok_or (next_number (length older)) storage_failed
  guard (is_next session older expected c) storage_failed
  check_ledger session (older ++ c ∷ []) history

unfoldable pub validate_ledger :
    List CompactionCheckpoint → Text → Result CheckpointStoreProblem (Unit {0})
validate_ledger history session = do
  guard (leb (length history) max_checkpoints) storage_failed
  check_ledger session [] history

unfoldable pub append_checkpoint :
    List CompactionCheckpoint
    → CompactionCheckpoint
    → Text
    → Result CheckpointStoreProblem (List CompactionCheckpoint)
append_checkpoint history c session = do
  validate_ledger history session
  guard (c.session =? session) scope_denied
  guard (not (knows c.id history)) conflict
  guard (is_ok (validate_checkpoint c)) invalid_checkpoint
  guard (ltb (length history) max_checkpoints) conflict
  next ← ok_or (next_number (length history)) conflict
  guard
      (c.revision == next
        && same_id c.parent_checkpoint (last_id history)
        && not (knows c.id history))
      conflict
  ok (history ++ c ∷ [])

-- `history.last()`
abbrev pub last_of : List CompactionCheckpoint → Option CompactionCheckpoint
last_of [] = none
last_of (c ∷ []) = some c
last_of (c ∷ d ∷ history) = last_of (d ∷ history)

unfoldable pub newest_checkpoint :
    List CompactionCheckpoint → Text → Result CheckpointStoreProblem CompactionCheckpoint
newest_checkpoint history session = do
  validate_ledger history session
  ok_or (last_of history) not_found

-- `AncestryVerificationError`
pub data AncestryVerificationError (E : Type 0) : Type 0 where
  missing_checkpoint : AncestryVerificationError E
  source : E → AncestryVerificationError E

module _ {E : Type 0} (verify : CompactionCheckpoint → Result E (Unit {0})) where
  abbrev pub from_source : Result E (Unit {0}) → Result (AncestryVerificationError E) (Unit {0})
  from_source (ok u) = ok u
  from_source (err e) = err (source e)

  -- The loop of `verify_checkpoint_ancestry`.
  unfoldable pub verify_each :
      List CompactionCheckpoint → Result (AncestryVerificationError E) (Unit {0})
  verify_each [] = ok tt
  verify_each (c ∷ history) = do from_source (verify c); verify_each history

  unfoldable pub verify_checkpoint_ancestry :
      List CompactionCheckpoint → Text → Result (AncestryVerificationError E) (Unit {0})
  verify_checkpoint_ancestry history id = do
    last ← ok_or (position (λ c. c.id =? id) history) missing_checkpoint
    verify_each (take (suc last) history)

unfoldable pub find_checkpoint :
    List CompactionCheckpoint → Text → Result CheckpointStoreProblem CompactionCheckpoint
find_checkpoint history id = ok_or (find? (λ c. c.id =? id) history) not_found
