-- ===== src/Compaction/CheckpointStore/Examples.antt =====
-- Tests of the checkpoint store over the storage fixture. The digest of a message is its first 32
-- bytes
-- here, and the bytes of an event are its text.
use phenix_ai.Prelude.{
  ℕ, ◌≡◌, refl, Option, none, some, List, [], ◌∷◌, ◌++◌, take, length, All, position, checked_add,
}
use phenix_ai.Prelude.Order.{Text, compare_text, ascii}
use phenix_ai.Prelude.Map.{get, insert}
use phenix_ai.Prelude.Chars.{has_control, is_blank}
use phenix_ai.Contract.Failure.{Failure, Result, ok}
use phenix_ai.Contract.Wire.Bytes.{to_be_bytes}
use phenix_ai.Contract.Schema.{identifier}
use phenix_ai.Basic.Errors.{CallResult, session_resource, check_session}
use phenix_ai.Basic.Fixture
use phenix_ai.Basic.Fixture.{Records, check_edit, check_edits, write_edits, new_records, transact}
use phenix_ai.Basic.Fixture.Service.{fixture}
use phenix_ai.Basic.Events.{JournalQuery, EventPage}
use phenix_ai.Compaction.Checkpoint.{
  JournalSpan, CompactionCheckpoint, valid_identity, valid_digest, validate_span, check_spans,
  insert_range, sort_ranges, scan, check_sources, validate_checkpoint,
}
use phenix_ai.Compaction.Journal.{
  Event, prompt_accepted, hash_domain, lower_hex, hash_event, hash_events, span_for_events,
  check_digests, restore_original_events,
}
use phenix_ai.Compaction.Ledger.{
  check_ledger, validate_ledger, append_checkpoint, newest_checkpoint, verify_each,
  verify_checkpoint_ancestry, last_of,
}
use phenix_ai.Compaction.Ledger.Lineage.{IsNext, IsLedger, append_checkpoint-IsLedger}
use phenix_ai.Compaction.Ledger.Ancestry.{IsLineage}
use phenix_ai.Compaction.CheckpointStore.{
  ledger_key, load, verify_journal, verify_source_ancestry, prepare, put_checkpoint, latest,
}
use phenix_ai.Compaction.CheckpointStore.Put.{put_checkpoint-load, latest-IsLineage}
use phenix_ai.Compaction.CheckpointStore.Codec
use phenix_ai.Compaction.CheckpointStore.Codec.{encode, decode, put_ledger, ledger_codec-RoundTrips}

abbrev held : Result Failure (Option Text)
held = ok (some (ascii "phenix.session.s"))

abbrev sha256 : List ℕ → List ℕ
sha256 message = take 32 message

abbrev event_bytes : Event → Option (List ℕ)
event_bytes event = some event.text

abbrev event : Event
event = record {
  sequence = 5;
  session = ascii "s";
  run = ascii "r";
  kind = prompt_accepted;
  call_id = [];
  text = ascii "hi";
  data_bytes = [];
}

abbrev span : JournalSpan
span = record {
  first_sequence = 5;
  last_sequence = 5;
  digest_sha256 = lower_hex (take 32 hash_domain);
}

abbrev checkpoint : CompactionCheckpoint
checkpoint = record {
  id = ascii "cp";
  session = ascii "s";
  revision = 1;
  parent_checkpoint = none;
  input = span;
  summarized = [];
  retained = span ∷ [];
  excluded = [];
  summary = [];
  policy = ascii "p";
  policy_version = 1;
  model = none;
  hydration_sources = [];
}

-- The journal's answer to every query.
abbrev journal_read : Records → JournalQuery → CallResult EventPage
journal_read s query = ok (record { events = event ∷ []; next = 5 })

appended : append_checkpoint [] checkpoint (ascii "s") ≡ ok (checkpoint ∷ [])
unfolding append_checkpoint validate_ledger check_ledger validate_checkpoint valid_identity
    valid_digest has_control is_blank validate_span check_spans insert_range sort_ranges scan
    check_sources compare_text lower_hex checked_add
appended = refl

append_checkpoint-IsLedger_example :
    ([] ++ checkpoint ∷ [] ≡ checkpoint ∷ [])
    × IsLedger (ascii "s") [] []
    × IsNext (ascii "s") [] checkpoint
    × IsLedger (ascii "s") [] (checkpoint ∷ [])
    × (validate_ledger (checkpoint ∷ []) (ascii "s") ≡ ok tt)
append_checkpoint-IsLedger_example = append_checkpoint-IsLedger [] checkpoint (ascii "s") appended

abbrev kept : Records
kept =
    ((ascii "s", ledger_key), record { revision = 1; data_bytes = put_ledger (checkpoint ∷ []) })
    ∷ []

stored :
    put_checkpoint (fixture held) journal_read held sha256 event_bytes encode decode checkpoint []
    ≡ (ok checkpoint, kept)
unfolding put_checkpoint prepare load verify_journal verify_source_ancestry
    verify_checkpoint_ancestry verify_each position Fixture.read transact check_session
    session_resource identifier check_edits check_edit write_edits new_records get insert encode
    append_checkpoint validate_ledger check_ledger validate_checkpoint valid_identity valid_digest
    has_control is_blank validate_span check_spans insert_range sort_ranges scan check_sources
    compare_text lower_hex checked_add restore_original_events span_for_events hash_event
    hash_events check_digests to_be_bytes Codec.write_checkpoint Codec.put_option Codec.put_span
    Codec.put_spans Codec.put_sources put_ledger
stored = refl

allowed : check_session held (ascii "s") ≡ ok tt
unfolding check_session session_resource identifier compare_text
allowed = refl

put_checkpoint-load_example :
    (history lineage : List CompactionCheckpoint) × (checkpoint ≡ checkpoint)
    × (load (fixture held) journal_read held sha256 event_bytes encode decode (ascii "s") []
        ≡ ok (length history, history))
    × IsNext (ascii "s") history checkpoint
    × IsLineage (ascii "s") (history ++ checkpoint ∷ []) lineage (ascii "cp")
    × All
        (λ a.
          verify_journal (fixture held) journal_read held sha256 event_bytes encode decode [] a
          ≡ ok tt)
        lineage
    × (load (fixture held) journal_read held sha256 event_bytes encode decode (ascii "s") kept
        ≡ ok (length (history ++ checkpoint ∷ []), history ++ checkpoint ∷ []))
put_checkpoint-load_example =
    put_checkpoint-load (fixture held) journal_read held sha256 event_bytes encode decode
      ledger_codec-RoundTrips checkpoint [] allowed stored

found :
    latest (fixture held) journal_read held sha256 event_bytes encode decode (ascii "s") kept
    ≡ ok checkpoint
unfolding latest newest_checkpoint load verify_journal verify_source_ancestry
    verify_checkpoint_ancestry verify_each position Fixture.read check_session session_resource
    identifier get decode validate_ledger check_ledger validate_checkpoint valid_identity
    valid_digest has_control is_blank validate_span check_spans insert_range sort_ranges scan
    check_sources compare_text lower_hex checked_add restore_original_events span_for_events
    hash_event hash_events check_digests to_be_bytes Codec.write_checkpoint Codec.put_option
    Codec.put_span Codec.put_spans Codec.put_sources put_ledger
found = refl

latest-IsLineage_example :
    (history lineage : List CompactionCheckpoint) × (load
        (fixture held)
        journal_read
        held
        sha256
        event_bytes
        encode
        decode
        (ascii "s")
        kept
      ≡ ok (length history, history))
    × (last_of history ≡ some checkpoint)
    × IsLineage (ascii "s") history lineage (ascii "cp")
    × All
        (λ a.
          verify_journal (fixture held) journal_read held sha256 event_bytes encode decode kept a
          ≡ ok tt)
        lineage
latest-IsLineage_example =
    latest-IsLineage (fixture held) journal_read held sha256 event_bytes encode decode (ascii "s")
      kept found
