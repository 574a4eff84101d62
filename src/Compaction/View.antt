-- ===== src/Compaction/View.antt =====
-- crates/phenix-p2-compaction-replay/src/view.rs: the compacted view of a verified journal.
pub mod Budget
pub mod Shown
use phenix_ai.Prelude.{
  ℕ, ◌+◌, ◌≡◌, Bool, true, false, not, ◌&&◌, ◌||◌, Option, none, some, List, [], ◌∷◌, ◌++◌, ltb,
  leb, ◌==◌, if◌then◌else◌, length, any, is_some, checked_add,
}
use phenix_ai.Prelude.Order.{Text, text_ord}
use phenix_ai.Prelude.Map.{Map, get, insert, remove}
use phenix_ai.Contract.Failure.{Result, ok, err, ◌>>=◌, ◌>>◌, guard, ok_or}
use phenix_ai.Compaction.Checkpoint.{JournalSpan, CompactionCheckpoint}
use phenix_ai.Compaction.Journal.{
  Event, EventKind, tool_started, tool_finished, ReplayProblem, restore_original_events,
}

pub data ContextPart : Type 0 where
  summary : Text → Text → List JournalSpan → ContextPart
  original : Event → ContextPart

pub record ContextProjection : Type 0 where
  pub checkpoint_id : Text
  pub source_span : JournalSpan
  pub parts : List ContextPart
  pub excluded : List JournalSpan
  pub visible_payload_bytes : ℕ

pub data ViewProblem : Type 0 where
  replay : ReplayProblem → ViewProblem
  invalid_budget over_budget invalid_tool_sequence split_tool_call unresolved_tool_call
        non_prefix_summary :
      ViewProblem

pub data Visibility : Type 0 where
  is_summarized is_retained is_excluded : Visibility

abbrev pub same_visibility : Visibility → Visibility → Bool
same_visibility is_summarized is_summarized = true
same_visibility is_retained is_retained = true
same_visibility is_excluded is_excluded = true
same_visibility _ _ = false

abbrev pub spanned : ℕ → JournalSpan → Bool
spanned sequence span = leb span.first_sequence sequence && leb sequence span.last_sequence

-- `visibility`
unfoldable pub visibility : CompactionCheckpoint → ℕ → Visibility
visibility c sequence =
    if any (spanned sequence) c.retained
    then is_retained
    else if any (spanned sequence) c.summarized
    then is_summarized
    else is_excluded

abbrev pub Viewed : Type 0
Viewed = Result ViewProblem (Unit {0})

-- The first loop: what is summarized comes first.
unfoldable pub prefix_step : Visibility → Bool → Result ViewProblem Bool
prefix_step is_summarized left = guard (not left) non_prefix_summary >> ok left
prefix_step is_retained left = ok true
prefix_step is_excluded left = ok true

unfoldable pub check_prefix : CompactionCheckpoint → List Event → Bool → Viewed
check_prefix c [] left = ok tt
check_prefix c (event ∷ events) left = do
  left ← prefix_step (visibility c event.sequence) left
  check_prefix c events left

-- The second loop: the tools that are running, by call, with where they started.
unfoldable pub tool_step :
    CompactionCheckpoint → Event → Map Text Visibility → Result ViewProblem (Map Text Visibility)
tool_step c event active = elim event.kind [
  | tool_started ↦ do
    guard (not (length event.call_id == 0 || is_some (get event.call_id active)))
        invalid_tool_sequence
    ok (insert event.call_id (visibility c event.sequence) active)
  | tool_finished ↦ do
    start ← ok_or (get event.call_id active) invalid_tool_sequence
    guard (same_visibility start (visibility c event.sequence)) split_tool_call
    ok (remove event.call_id active)
  | _ ↦ ok active
]

unfoldable pub check_tools : CompactionCheckpoint → List Event → Map Text Visibility → Viewed
check_tools c [] active = guard (length active == 0) unresolved_tool_call
check_tools c (event ∷ events) active = do
  active ← tool_step c event active
  check_tools c events active

-- The size of an event: its text, its data and its call.
unfoldable pub event_size : Event → Option ℕ
event_size event = elim (checked_add (length event.text) (length event.data_bytes)) [
  | none ↦ none
  | some n ↦ checked_add n (length event.call_id)
]

-- What the third loop carries.
pub record Collected : Type 0 where
  pub bytes : ℕ
  pub parts : List ContextPart
  pub summary_emitted : Bool

-- `parts.push`
abbrev pub push : ContextPart → ℕ → Bool → Collected → Result ViewProblem Collected
push part size emitted k = do
  bytes ← ok_or (checked_add k.bytes size) over_budget
  ok (record { bytes = bytes; parts = k.parts ++ part ∷ []; summary_emitted = emitted })

unfoldable pub collect_as :
    CompactionCheckpoint → Event → Visibility → Collected → Result ViewProblem Collected
collect_as c event is_summarized k =
    if k.summary_emitted
    then ok k
    else push (summary c.id c.summary c.summarized) (length c.summary) true k
collect_as c event is_retained k = do
  size ← ok_or (event_size event) over_budget
  push (original event) size k.summary_emitted k
collect_as c event is_excluded k = ok k

abbrev pub collect_event : CompactionCheckpoint → Event → Collected → Result ViewProblem Collected
collect_event c event = collect_as c event (visibility c event.sequence)

unfoldable pub collect :
    CompactionCheckpoint → ℕ → List Event → Collected → Result ViewProblem Collected
collect c max_bytes [] k = ok k
collect c max_bytes (event ∷ events) k = do
  k ← collect_event c event k
  guard (leb k.bytes max_bytes) over_budget
  collect c max_bytes events k

abbrev pub as_replay {ℓ} : {A : Type ℓ} → Result ReplayProblem A → Result ViewProblem A
as_replay (ok a) = ok a
as_replay (err e) = err (replay e)

abbrev pub nothing_collected : Collected
nothing_collected = record { bytes = 0; parts = []; summary_emitted = false }

module _ (sha256 : List ℕ → List ℕ) (event_bytes : Event → Option (List ℕ)) where
  -- `compacted_view`
  unfoldable pub compacted_view :
      CompactionCheckpoint → List Event → ℕ → Result ViewProblem ContextProjection
  compacted_view c journal max_bytes = do
    guard (not (max_bytes == 0)) invalid_budget
    events ← as_replay (restore_original_events sha256 event_bytes c journal)
    check_prefix c events false
    check_tools c events []
    k ← collect c max_bytes events nothing_collected
    ok (record {
      checkpoint_id = c.id;
      source_span = c.input;
      parts = k.parts;
      excluded = c.excluded;
      visible_payload_bytes = k.bytes;
    })
