-- ===== src/Compaction/Examples.antt =====
-- A journal of three events, of which the first two are summarized. The digest of a message is its
-- first 32 bytes here, and the bytes of an event are its text.
mod Selection
use phenix_ai.Prelude.{
  ℕ, ◌+◌, ◌≤◌, ◌≡◌, refl, Option, none, some, List, [], ◌∷◌, ◌++◌, map, take, length, arith,
  checked_add,
}
use phenix_ai.Prelude.Order.{Text, compare_text, ascii}
use phenix_ai.Prelude.Map.{get, insert, remove}
use phenix_ai.Prelude.Chars.{has_control, is_blank}
use phenix_ai.Contract.Failure.{Result, ok}
use phenix_ai.Contract.Wire.Bytes.{to_be_bytes}
use phenix_ai.Compaction.Checkpoint.{
  JournalSpan, CompactionCheckpoint, valid_identity, valid_digest, validate_span, check_spans,
  insert_range, sort_ranges, scan, check_sources, partitions, range_of, validate_checkpoint,
}
use phenix_ai.Compaction.Checkpoint.Sorting.{count}
use phenix_ai.Compaction.Checkpoint.Coverage.{validate_checkpoint-count}
use phenix_ai.Compaction.Journal.{
  Event, EventKind, prompt_accepted, answer, tool_started, tool_finished, hash_domain, lower_hex,
  hash_event, hash_events, span_for_events, check_digests, restore_original_events,
}
use phenix_ai.Compaction.Journal.Restore.{Numbered, restore_original_events-Numbered}
use phenix_ai.Compaction.View.{
  summary, original, ContextProjection, visibility, prefix_step, check_prefix, tool_step,
  check_tools, event_size, collect_as, collect, compacted_view,
}
use phenix_ai.Compaction.View.Budget.{total, originals, heading}
use phenix_ai.Compaction.View.Shown.{compacted_view-parts}
use phenix_ai.Compaction.Tail.{
  ExtendedProjection, tail_tool, tail_event, tail_events, span_of_tail, extend_verified_view,
}
use phenix_ai.Compaction.Tail.Extended.{extend_verified_view-Numbered}
use phenix_ai.Compaction.Pressure.{
  ModelTokenMeasurement, at_threshold, pressed, pressure_of, validate_measurement,
  checkpoint_pressure, checkpoint_pressure-Says, Authentic, Says,
}

abbrev sha256 : List ℕ → List ℕ
sha256 message = take 32 message

abbrev event_bytes : Event → Option (List ℕ)
event_bytes event = some event.text

abbrev digest : Text
digest = lower_hex (take 32 hash_domain)

abbrev event_at : ℕ → EventKind → Event
event_at sequence kind = record {
  sequence = sequence;
  session = ascii "s";
  run = ascii "r";
  kind = kind;
  call_id = ascii "c";
  text = ascii "hi";
  data_bytes = 0 ∷ [];
}

abbrev journal : List Event
journal = event_at 5 tool_started ∷ event_at 6 tool_finished ∷ event_at 7 prompt_accepted ∷ []

abbrev span : ℕ → ℕ → JournalSpan
span first last = record { first_sequence = first; last_sequence = last; digest_sha256 = digest }

abbrev saved : CompactionCheckpoint
saved = record {
  id = ascii "cp";
  session = ascii "s";
  revision = 1;
  parent_checkpoint = none;
  input = span 5 7;
  summarized = span 5 6 ∷ [];
  retained = span 7 7 ∷ [];
  excluded = [];
  summary = ascii "short";
  policy = ascii "p";
  policy_version = 1;
  model = none;
  hydration_sources = [];
}

abbrev shown : ContextProjection
shown = record {
  checkpoint_id = ascii "cp";
  source_span = span 5 7;
  parts =
      summary (ascii "cp") (ascii "short") (span 5 6 ∷ [])
      ∷ original (event_at 7 prompt_accepted)
      ∷ [];
  excluded = [];
  visible_payload_bytes = 9;
}

saved_valid : validate_checkpoint saved ≡ ok tt
unfolding validate_checkpoint valid_identity valid_digest has_control is_blank validate_span
    check_spans insert_range sort_ranges scan check_sources compare_text lower_hex
saved_valid = refl

restored : restore_original_events sha256 event_bytes saved journal ≡ ok journal
unfolding restore_original_events validate_checkpoint valid_identity valid_digest has_control
    is_blank validate_span check_spans insert_range sort_ranges scan check_sources compare_text
    lower_hex span_for_events hash_event hash_events check_digests to_be_bytes
restored = refl

viewed : compacted_view sha256 event_bytes saved journal 100 ≡ ok shown
unfolding compacted_view restore_original_events validate_checkpoint valid_identity valid_digest
    has_control is_blank validate_span check_spans insert_range sort_ranges scan check_sources
    compare_text lower_hex span_for_events hash_event hash_events check_digests to_be_bytes
    visibility prefix_step check_prefix tool_step check_tools event_size collect_as collect
    checked_add get insert remove
viewed = refl

validate_checkpoint-count_example : count 6 (map range_of (partitions saved)) ≡ 1
validate_checkpoint-count_example = validate_checkpoint-count saved 6 saved_valid

restore_original_events-Numbered_example :
    (validate_checkpoint saved ≡ ok tt)
    × (journal ≡ journal)
    × Numbered (ascii "s") 5 journal
    × (5 + length journal ≡ 7 + 1)
restore_original_events-Numbered_example =
    restore_original_events-Numbered sha256 event_bytes saved journal journal restored

compacted_view-parts_example :
    (shown.parts ≡ heading saved journal ++ originals saved journal)
    × (9 ≡ total shown.parts)
    × (9 ≤ 100)
compacted_view-parts_example =
    compacted_view-parts sha256 event_bytes saved journal 100 shown viewed

abbrev extended : ExtendedProjection
extended = record {
  base = shown;
  trailing = event_at 8 answer ∷ [];
  trailing_span = some (span 8 8);
  visible_payload_bytes = 13;
}

extends :
    extend_verified_view sha256 event_bytes saved journal (event_at 8 answer ∷ []) 100 ≡ ok extended
unfolding extend_verified_view compacted_view restore_original_events validate_checkpoint
    valid_identity valid_digest has_control is_blank validate_span check_spans insert_range
    sort_ranges scan check_sources compare_text lower_hex span_for_events hash_event hash_events
    check_digests to_be_bytes visibility prefix_step check_prefix tool_step check_tools event_size
    collect_as collect checked_add get insert remove tail_tool tail_event tail_events span_of_tail
extends = refl

extend_verified_view-Numbered_example :
    (compacted_view sha256 event_bytes saved journal 100 ≡ ok shown)
    × ((event_at 8 answer ∷ []) ≡ (event_at 8 answer ∷ []))
    × Numbered (ascii "s") (7 + 1) (event_at 8 answer ∷ [])
    × (13 ≡ total shown.parts + total (original (event_at 8 answer) ∷ []))
    × (13 ≤ 100)
extend_verified_view-Numbered_example =
    extend_verified_view-Numbered sha256 event_bytes saved journal (event_at 8 answer ∷ []) 100
      extended extends

abbrev measured_request : ModelTokenMeasurement
measured_request = record {
  model = ascii "m";
  tokenizer_revision = ascii "t";
  request_sha256 = digest;
  input_tokens = 70;
  context_window_tokens = 100;
}

pressed_hard :
    checkpoint_pressure {Request = ℕ}
      (λ request. some digest)
      (λ request. some request)
      10
      measured_request
      (ascii "m")
      80
    ≡ ok at_threshold
unfolding checkpoint_pressure validate_measurement pressure_of pressed valid_digest is_blank
    compare_text checked_add lower_hex
pressed_hard = refl

checkpoint_pressure-Says_example :
    Authentic {Request = ℕ}
      (λ request. some digest)
      (λ request. some request)
      10
      measured_request
      (ascii "m")
    × (1 ≤ 80)
    × (80 ≤ 100)
    × Says at_threshold measured_request 10 80
checkpoint_pressure-Says_example =
    checkpoint_pressure-Says {Request = ℕ} (λ request. some digest) (λ request. some request) 10
      measured_request (ascii "m") 80 at_threshold (omega arith) pressed_hard
