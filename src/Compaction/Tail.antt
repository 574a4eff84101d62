-- ===== src/Compaction/Tail.antt =====
-- crates/phenix-p2-compaction-replay/src/tail.rs: the events after a checkpoint
-- (`extend_verified_view`).
pub mod Extended
use phenix_ai.Prelude.{
  ℕ, ◌+◌, ◌≡◌, Bool, true, false, not, ◌&&◌, ◌||◌, Option, none, some, List, [], ◌∷◌, leb, ◌==◌,
  if◌then◌else◌, length, is_some, checked_add,
}
use phenix_ai.Prelude.Order.{Text, text_ord, ◌=?◌}
use phenix_ai.Prelude.Map.{Map, get, insert, remove}
use phenix_ai.Contract.Failure.{Result, ok, err, ◌>>=◌, ◌>>◌, guard, ok_or}
use phenix_ai.Compaction.Checkpoint.{JournalSpan, CompactionCheckpoint}
use phenix_ai.Compaction.Journal.{
  Event, tool_started, tool_finished, ReplayProblem, span_for_events,
}
use phenix_ai.Compaction.View.{ContextProjection, ViewProblem, event_size, compacted_view}

pub record ExtendedProjection : Type 0 where
  pub base : ContextProjection
  pub trailing : List Event
  pub trailing_span : Option JournalSpan
  pub visible_payload_bytes : ℕ

pub data TailProblem : Type 0 where
  checkpoint : ViewProblem → TailProblem
  invalid_budget over_budget capacity_exceeded invalid_sequence wrong_session invalid_tool_sequence
        unresolved_tool_call :
      TailProblem

-- The set of running calls: a `BTreeSet<&str>`.
abbrev pub Active : Type 0
Active = Map Text (Unit {0})

unfoldable pub tail_tool : Event → Active → Result TailProblem Active
tail_tool event active = elim event.kind [
  | tool_started ↦ do
    guard (not (length event.call_id == 0 || is_some (get event.call_id active)))
        invalid_tool_sequence
    ok (insert event.call_id tt active)
  | tool_finished ↦ do
    guard (is_some (get event.call_id active)) invalid_tool_sequence
    ok (remove event.call_id active)
  | _ ↦ ok active
]

-- The loop: what it carries is the last sequence number, the running calls, and the size so far.
pub record Tracking : Type 0 where
  pub sequence : ℕ
  pub active : Active
  pub bytes : ℕ

unfoldable pub tail_event :
    CompactionCheckpoint → ℕ → Event → Tracking → Result TailProblem Tracking
tail_event c max_bytes event t = do
  sequence ← ok_or (checked_add t.sequence 1) invalid_sequence
  guard (event.sequence == sequence) invalid_sequence
  guard (event.session =? c.session) wrong_session
  active ← tail_tool event t.active
  size ← ok_or (event_size event) over_budget
  bytes ← ok_or (checked_add t.bytes size) over_budget
  guard (leb bytes max_bytes) over_budget
  ok (record { sequence = sequence; active = active; bytes = bytes })

unfoldable pub tail_events :
    CompactionCheckpoint → ℕ → List Event → Tracking → Result TailProblem Tracking
tail_events c max_bytes [] t = ok t
tail_events c max_bytes (event ∷ events) t = do
  t ← tail_event c max_bytes event t
  tail_events c max_bytes events t

abbrev pub as_checkpoint {ℓ} : {A : Type ℓ} → Result ViewProblem A → Result TailProblem A
as_checkpoint (ok a) = ok a
as_checkpoint (err e) = err (checkpoint e)

abbrev pub as_sequence : Result ReplayProblem JournalSpan → Result TailProblem (Option JournalSpan)
as_sequence (ok span) = ok (some span)
as_sequence (err e) = err invalid_sequence

module _ (sha256 : List ℕ → List ℕ) (event_bytes : Event → Option (List ℕ)) where
  unfoldable pub span_of_tail : List Event → Result TailProblem (Option JournalSpan)
  span_of_tail [] = ok none
  span_of_tail (event ∷ events) = as_sequence (span_for_events sha256 event_bytes (event ∷ events))

  -- `extend_verified_view`
  unfoldable pub extend_verified_view :
      CompactionCheckpoint → List Event → List Event → ℕ → Result TailProblem ExtendedProjection
  extend_verified_view c journal appended max_bytes = do
    guard (not (max_bytes == 0)) invalid_budget
    guard (leb (length appended) 8192) capacity_exceeded
    base ← as_checkpoint (compacted_view sha256 event_bytes c journal max_bytes)
    let start : Tracking = record {
      sequence = c.input.last_sequence;
      active = [];
      bytes = base.visible_payload_bytes;
    }
    t ← tail_events c max_bytes appended start
    guard (length t.active == 0) unresolved_tool_call
    span ← span_of_tail appended
    ok (record {
      base = base;
      trailing = appended;
      trailing_span = span;
      visible_payload_bytes = t.bytes;
    })
