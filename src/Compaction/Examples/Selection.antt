-- ===== src/Compaction/Examples/Selection.antt =====
-- Tests of the selection among two checkpoints of the same journal.
use phenix_ai.Prelude.{ℕ, ◌+◌, ◌≡◌, refl, inr, Bool, none, some, [], ◌∷◌, arith, checked_add}
use phenix_ai.Prelude.Order.{compare_text, ascii}
use phenix_ai.Prelude.Map.{get, insert, remove}
use phenix_ai.Prelude.Chars.{has_control, is_blank}
use phenix_ai.Contract.Failure.{Result, ok}
use phenix_ai.Contract.Wire.Bytes.{to_be_bytes}
use phenix_ai.Compaction.Checkpoint.{
  CompactionCheckpoint, valid_identity, valid_digest, validate_span, check_spans, insert_range,
  sort_ranges, scan, check_sources, validate_checkpoint,
}
use phenix_ai.Compaction.Journal.{
  prompt_accepted, lower_hex, hash_event, hash_events, span_for_events, check_digests,
  restore_original_events,
}
use phenix_ai.Compaction.View.{
  summary, original, ContextProjection, visibility, prefix_step, check_prefix, tool_step,
  check_tools, event_size, collect_as, collect, compacted_view,
}
use phenix_ai.Compaction.Selection.{SelectedModelView, newest_first, try_views, select_model_view}
use phenix_ai.Compaction.Selection.Newest.{select_model_view-Found, Found}
use phenix_ai.Compaction.Selection.Chosen.{select_model_view-ok}
use phenix_ai.Compaction.Examples.{
  sha256, event_bytes, event_at, journal, span, saved, shown, viewed,
}

-- The request of a view is the number of its bytes, and takes ten tokens more.
abbrev assemble : ContextProjection → ℕ → Result Bool ℕ × ℕ
assemble view calls = (ok view.visible_payload_bytes, calls + 1)

abbrev measure : ℕ → ℕ → Result Bool ℕ × ℕ
measure request calls = (ok (request + 10), calls + 1)

-- A newer checkpoint, with a longer summary.
abbrev saved_later : CompactionCheckpoint
saved_later = record {
  id = ascii "cq";
  session = ascii "s";
  revision = 2;
  parent_checkpoint = some (ascii "cp");
  input = span 5 7;
  summarized = span 5 6 ∷ [];
  retained = span 7 7 ∷ [];
  excluded = [];
  summary = ascii "longer";
  policy = ascii "p";
  policy_version = 1;
  model = none;
  hydration_sources = [];
}

abbrev shown_later : ContextProjection
shown_later = record {
  checkpoint_id = ascii "cq";
  source_span = span 5 7;
  parts =
      summary (ascii "cq") (ascii "longer") (span 5 6 ∷ [])
      ∷ original (event_at 7 prompt_accepted)
      ∷ [];
  excluded = [];
  visible_payload_bytes = 10;
}

viewed_later : compacted_view sha256 event_bytes saved_later journal 100 ≡ ok shown_later
unfolding compacted_view restore_original_events validate_checkpoint valid_identity valid_digest
    has_control is_blank validate_span check_spans insert_range sort_ranges scan check_sources
    compare_text lower_hex span_for_events hash_event hash_events check_digests to_be_bytes
    visibility prefix_step check_prefix tool_step check_tools event_size collect_as collect
    checked_add get insert remove
viewed_later = refl

abbrev chosen : SelectedModelView ℕ
chosen = record { request = 9; view = shown; model_input_tokens = 19 }

abbrev chosen_later : SelectedModelView ℕ
chosen_later = record { request = 10; view = shown_later; model_input_tokens = 20 }

-- The newest is selected where both fit.
selected_newest :
    select_model_view sha256 event_bytes assemble measure
      (saved ∷ saved_later ∷ [])
      journal
      100
      50
      0
    ≡ (ok chosen_later, 2)
unfolding select_model_view newest_first try_views compacted_view restore_original_events
    validate_checkpoint valid_identity valid_digest has_control is_blank validate_span check_spans
    insert_range sort_ranges scan check_sources compare_text lower_hex span_for_events hash_event
    hash_events check_digests to_be_bytes visibility prefix_step check_prefix tool_step check_tools
    event_size collect_as collect checked_add get insert remove
selected_newest = refl

-- Where its request takes too many tokens, the one before it is selected.
selected :
    select_model_view sha256 event_bytes assemble measure
      (saved ∷ saved_later ∷ [])
      journal
      100
      19
      0
    ≡ (ok chosen, 4)
unfolding select_model_view newest_first try_views compacted_view restore_original_events
    validate_checkpoint valid_identity valid_digest has_control is_blank validate_span check_spans
    insert_range sort_ranges scan check_sources compare_text lower_hex span_for_events hash_event
    hash_events check_digests to_be_bytes visibility prefix_step check_prefix tool_step check_tools
    event_size collect_as collect checked_add get insert remove
selected = refl

select_model_view-Found_example :
    Found sha256 event_bytes assemble measure (saved ∷ saved_later ∷ []) journal 100 19 chosen 0 4
select_model_view-Found_example =
    select_model_view-Found sha256 event_bytes assemble measure (saved ∷ saved_later ∷ []) journal
      100 19 0 4 chosen selected

-- The newest of them does not fit and the one before it does.
fitting_before :
    Found sha256 event_bytes assemble measure (saved ∷ saved_later ∷ []) journal 100 19 chosen 0 4
fitting_before = (
  [],
  saved,
  saved_later ∷ [],
  2,
  refl,
  (0, refl, inr (chosen_later, viewed_later, (1, refl, refl), omega arith)),
  viewed,
  (3, refl, refl),
  omega arith,
)

select_model_view-ok_example :
    select_model_view sha256 event_bytes assemble measure
      (saved ∷ saved_later ∷ [])
      journal
      100
      19
      0
    ≡ (ok chosen, 4)
select_model_view-ok_example =
    select_model_view-ok sha256 event_bytes assemble measure journal 100 19
      (saved ∷ saved_later ∷ []) 0 4 chosen (omega arith) (omega arith) fitting_before
