-- ===== src/Basic/Examples/Journals.antt =====
-- Tests of the journal over the storage fixture.
use phenix_ai.Prelude.{
  ℕ, ◌+◌, ◌≤◌, ◌<◌, ◌≡◌, ◌≢◌, refl, ◌⊎◌, Option, some, List, [], ◌∷◌, ◌++◌, length, arith, All,
  checked_add, u64_max,
}
use phenix_ai.Prelude.Order.{Text, ascii, compare_text}
use phenix_ai.Prelude.Map.{get, insert}
use phenix_ai.Contract.Failure.{Failure, Result, ok, err}
use phenix_ai.Contract.Schema.{identifier}
use phenix_ai.Compaction.Journal.{Event, text_delta}
use phenix_ai.Basic.Errors.{domain, error, conflict, invalid_input, session_resource, check_session}
use phenix_ai.Basic.Storage.{
  StorageEdit, StorageTransaction, revision_of, IsStorage, matches_commit,
  checked_single_commit_ack, transact_one, SameContents,
}
use phenix_ai.Basic.Fixture
use phenix_ai.Basic.Fixture.{
  Records, check_edit, check_edits, write_edits, new_record, new_records, transact,
}
use phenix_ai.Basic.Fixture.Kept.{contents, transact-ok, HasUnique, IsWritten, Untouched}
use phenix_ai.Basic.Fixture.Service.{fixture, fixture-IsStorage, Serves}
use phenix_ai.Basic.Events.{
  JournalAppend, JournalQuery, validate_from, append_events, append_checked, page_from,
}
use phenix_ai.Basic.Events.Numbered.{IsJournal, AllSubmitted, numbered, append_checked-ok}
use phenix_ai.Basic.Events.Paging.{page_from-at, page_at, replay, replay-all}
use phenix_ai.Basic.EventJournal.{
  ObserverCheckpoint, journal_key, load, append, read_page, observer_key, load_observer,
  checkpoint_observer,
}
use phenix_ai.Basic.EventJournal.Append.{append-ok, append-domain, journal, ElsewhereSame}
use phenix_ai.Basic.EventJournal.Answered.{append-done}
use phenix_ai.Basic.EventJournal.ReadBack.{append-read_page}
use phenix_ai.Basic.EventJournal.Observer.{checkpoint_observer-load_observer, request_of}
use phenix_ai.Basic.Examples.Codec.{
  encode, decode, encode_observer, decode_observer, codec-RoundTrips, observer_codec-RoundTrips,
  put_event,
}

abbrev held : Result Failure (Option Text)
held = ok (some (ascii "phenix.session.s"))

abbrev s : Text
s = ascii "s"

abbrev event : ℕ → Event
event n = record {
  sequence = n;
  session = s;
  run = ascii "r";
  kind = text_delta;
  call_id = [];
  text = ascii "hi";
  data_bytes = [];
}

abbrev edit : ℕ → StorageEdit
edit n = record { key = ascii "a"; expected = n; data_bytes = ascii "x" }

abbrev other_edit : StorageEdit
other_edit = record { key = ascii "b"; expected = 0; data_bytes = ascii "y" }

abbrev both : StorageTransaction
both = record { session = s; edits = edit 1 ∷ other_edit ∷ [] }

abbrev before : Records
before = ((s, ascii "a"), record { revision = 1; data_bytes = ascii "w" }) ∷ []

abbrev behind : Records
behind =
    ((s, ascii "a"), record { revision = 2; data_bytes = ascii "x" })
    ∷ ((s, ascii "b"), record { revision = 1; data_bytes = ascii "y" })
    ∷ []

transacted :
    transact held both before ≡ (ok (new_record (edit 1) ∷ new_record other_edit ∷ []), behind)
unfolding transact check_session session_resource identifier check_edits check_edit write_edits
    new_records get insert compare_text
transacted = refl

-- The second edit of a transaction is refused: the first is not made either.
abbrev stale : StorageTransaction
stale = record { session = s; edits = other_edit ∷ edit 0 ∷ [] }

refused :
    transact held stale before ≡ (err (domain (error conflict "storage revision conflict")), before)
unfolding transact check_session session_resource identifier check_edits check_edit write_edits
    new_records get insert compare_text
refused = refl

transact-ok_example :
    HasUnique both.edits
    × All (IsWritten before s behind) both.edits
    × (new_records both.edits ≡ new_record (edit 1) ∷ new_record other_edit ∷ [])
    × ((i k : Text) → (i ≢ s) ⊎ Untouched k both.edits → contents behind i k ≡ contents before i k)
transact-ok_example = transact-ok held both before transacted

abbrev two : List Event
two = event 1 ∷ event 2 ∷ []

abbrev more : JournalAppend
more = record { session = s; events = event 0 ∷ [] }

abbrev three : List Event
three = event 1 ∷ event 2 ∷ event 3 ∷ []

appended : append_checked two more ≡ ok three
unfolding append_checked validate_from append_events compare_text checked_add
appended = refl

appended_facts :
    IsJournal s 0 two
    × AllSubmitted s more.events
    × (two ++ numbered 2 more.events ≡ three)
    × IsJournal s 0 three
appended_facts = append_checked-ok two more appended

abbrev query : JournalQuery
query = record { session = s; offset = 1; limit = 5 }

page_from-at_example : page_from three query ≡ ok (page_at three 1 5)
page_from-at_example =
    page_from-at three query appended_facts.3 (omega arith) (omega arith) (omega arith)

replay-all_example : replay s three 0 (2 ∷ 5 ∷ 1 ∷ []) ≡ ok three
replay-all_example =
    replay-all s three 0 (2 ∷ 5 ∷ 1 ∷ []) appended_facts.3 (omega arith) (omega arith)
      (omega arith, (omega arith, (omega arith, tt))) (omega arith)

abbrev one_edit : StorageEdit
one_edit = record { key = journal_key; expected = 0; data_bytes = 1 ∷ put_event (event 1) [] }

-- A state whose journal holds one event, and the one that an event was added to.
abbrev stored : Records
stored = ((s, journal_key), record { revision = 1; data_bytes = 1 ∷ put_event (event 1) [] }) ∷ []

abbrev grown : Records
grown =
    (
      (s, journal_key),
      record { revision = 2; data_bytes = 2 ∷ put_event (event 1) (put_event (event 2) []) },
    )
    ∷ []

appends : append (fixture held) held encode decode more stored ≡ (ok 2, grown)
unfolding append load Fixture.read transact check_session session_resource identifier check_edits
    check_edit write_edits new_records get insert compare_text encode decode put_event
    append_checked validate_from append_events checked_add transact_one checked_single_commit_ack
    matches_commit
appends = refl

abbrev numbered_already : JournalAppend
numbered_already = record { session = s; events = event 1 ∷ [] }

rejects :
    append (fixture held) held encode decode numbered_already stored
    ≡ (err (domain (error invalid_input "invalid submitted journal event")), stored)
unfolding append load Fixture.read check_session session_resource identifier get compare_text decode
    put_event append_checked validate_from append_events checked_add
rejects = refl

append-ok_example :
    (old : List Event) × (journal (fixture held) held encode decode stored s ≡ ok old)
    × IsJournal s 0 old
    × AllSubmitted s more.events
    × (journal (fixture held) held encode decode grown s
        ≡ ok (old ++ numbered (length old) more.events))
    × (2 ≡ length old + length more.events)
    × ElsewhereSame (fixture held) held encode decode stored s grown
append-ok_example = append-ok (fixture held) held encode decode codec-RoundTrips more stored appends

append-domain_example : SameContents (contents stored) (contents stored)
append-domain_example =
    append-domain (fixture held) held encode decode numbered_already stored rejects

allowed : check_session held s ≡ ok tt
unfolding check_session session_resource identifier compare_text
allowed = refl

stored_journal : journal (fixture held) held encode decode stored s ≡ ok (event 1 ∷ [])
unfolding get compare_text decode put_event
stored_journal = refl

stored_revision : revision_of (contents stored s journal_key) < u64_max
unfolding get compare_text
stored_revision = omega arith

encodes :
    encode (event 1 ∷ numbered 1 more.events)
    ≡ ok (2 ∷ put_event (event 1) (put_event (event 2) []))
unfolding encode numbered
encodes = refl

append-done_example : (append (fixture held) held encode decode more stored).0 ≡ ok 2
append-done_example =
    append-done (fixture held) held encode decode more stored allowed allowed stored_journal
      ((record { number = refl; own = refl; has_run = refl }), tt) appended_facts.1 (omega arith)
      stored_revision encodes

append-read_page_example :
    (old : List Event) × (2 ≡ length old + 1)
    × (read_page
          (fixture held)
          held
          encode
          decode
          (record { session = s; offset = length old; limit = 5 })
          grown
        ≡ (ok (record { events = numbered (length old) more.events; next = 2 }), grown))
append-read_page_example =
    append-read_page (fixture held) held encode decode codec-RoundTrips more 5 stored allowed
      allowed (omega arith) (omega arith) (omega arith) appends

abbrev seen : ObserverCheckpoint
seen = record { session = s; observer = ascii "o"; offset = 1; revision = 0 }

abbrev saved : ObserverCheckpoint
saved = record { session = s; observer = ascii "o"; offset = 1; revision = 1 }

abbrev with_observer : Records
with_observer =
    ((s, journal_key), record { revision = 1; data_bytes = 1 ∷ put_event (event 1) [] })
    ∷ (
      (s, ascii "event-observer.v1.o"),
      record { revision = 1; data_bytes = 1 ∷ 1 ∷ 1 ∷ s ++ 1 ∷ ascii "o" },
    )
    ∷ []

saves :
    checkpoint_observer
      (fixture held)
      held
      encode
      decode
      encode_observer
      decode_observer
      seen
      stored
    ≡ (ok saved, with_observer)
unfolding checkpoint_observer load_observer load observer_key Fixture.read transact check_session
    session_resource identifier check_edits check_edit write_edits new_records get insert
    compare_text encode decode put_event encode_observer decode_observer validate_from checked_add
    transact_one checked_single_commit_ack matches_commit
saves = refl

checkpoint_observer-load_observer_example :
    (current : ObserverCheckpoint) × (tail : ℕ) × (load_observer
        (fixture held)
        held
        encode
        decode
        encode_observer
        decode_observer
        (request_of seen)
        stored
      ≡ ok (current, tail))
    × (current.offset ≤ 1)
    × (1 ≤ tail)
    × (◌≡◌ {A = ℕ} 1 1)
    × (load_observer
          (fixture held)
          held
          encode
          decode
          encode_observer
          decode_observer
          (request_of seen)
          with_observer
        ≡ ok (saved, tail))
checkpoint_observer-load_observer_example =
    checkpoint_observer-load_observer (fixture held) held encode decode encode_observer
      decode_observer observer_codec-RoundTrips seen stored allowed saves

fixture-IsStorage_example : IsStorage (Fixture.read held) (transact held) contents (Serves held)
fixture-IsStorage_example = fixture-IsStorage held
