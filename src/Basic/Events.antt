-- ===== src/Basic/Events.antt =====
-- crates/phenix-plugin-event-journal/src/lib.rs: the checks of a loaded journal, the numbering of
-- the
-- appended events, and the pages of the readers. `usize` has 64 bits.
pub mod Numbered
pub mod Paging
use phenix_ai.Prelude.{
  ℕ, zero, suc, ◌+◌, ◌-◌, Bool, true, false, not, ◌&&◌, Option, none, some, List, [], ◌∷◌, ◌++◌,
  ltb, leb, ◌==◌, if◌then◌else◌, length, take, drop, checked_add, u64_max,
}
use phenix_ai.Prelude.Order.{Text, text_ord, ◌=?◌}
use phenix_ai.Contract.Failure.{Result, ok, err, guard, ok_or, ◌>>=◌, ◌>>◌}
use phenix_ai.Compaction.Journal.{Event}
use phenix_ai.Basic.Errors.{
  BasicError, error, storage_failed, invalid_input, invalid_cursor, conflict,
}

-- `JournalAppend`, `JournalQuery` and `EventPage` of the basic contracts.
pub record JournalAppend : Type 0 where
  pub session : Text
  pub events : List Event

pub record JournalQuery : Type 0 where
  pub session : Text
  pub offset : ℕ
  pub limit : ℕ

pub record EventPage : Type 0 where
  pub events : List Event
  pub next : ℕ

abbrev pub storage_error : BasicError
storage_error = error storage_failed "invalid durable journal record"

-- `u64::try_from`, and the number of the event after `n` others.
abbrev pub to_u64 : ℕ → Option ℕ
to_u64 n = if leb n u64_max then some n else none

abbrev pub and_then : Option ℕ → (ℕ → Option ℕ) → Option ℕ
and_then none f = none
and_then (some n) f = f n

abbrev pub next_number : ℕ → Option ℕ
next_number n = and_then (to_u64 n) λ m. checked_add m 1

abbrev pub is_own : ℕ → Text → Event → Bool
is_own sequence session e =
    e.sequence == sequence && e.session =? session && not (length e.run == 0)

-- `validate`, from the index the loop has reached.
unfoldable pub validate_from : ℕ → List Event → Text → Result BasicError (Unit {0})
validate_from index [] session = ok tt
validate_from index (e ∷ events) session = do
  sequence ← ok_or (next_number index) storage_error
  guard (is_own sequence session e) storage_error
  validate_from (index + 1) events session

-- `validate`
abbrev pub validate : List Event → Text → Result BasicError (Unit {0})
validate events session = validate_from 0 events session

-- The loop of `append_checked`: the journal so far grows by an event.
unfoldable pub append_events : Text → List Event → List Event → Result BasicError (List Event)
append_events session [] updated = ok updated
append_events session (e ∷ events) updated = do
  guard (is_own 0 session e) (error invalid_input "invalid submitted journal event")
  sequence ← ok_or (next_number (length updated)) (error conflict "journal sequence overflow")
  append_events session events (updated ++ record e { sequence = sequence } ∷ [])

unfoldable pub append_checked : List Event → JournalAppend → Result BasicError (List Event)
append_checked existing request = do
  validate existing request.session
  append_events request.session request.events existing

abbrev pub min : ℕ → ℕ → ℕ
min a b = if leb a b then a else b

abbrev pub saturating_add : ℕ → ℕ → ℕ
saturating_add a b = min (a + b) u64_max

-- `events.get(i)`
abbrev pub get_elem? : List Event → ℕ → Option Event
get_elem? [] i = none
get_elem? (e ∷ events) zero = some e
get_elem? (e ∷ events) (suc i) = get_elem? events i

abbrev pub sequence_or : ℕ → Option Event → ℕ
sequence_or n none = n
sequence_or n (some e) = e.sequence

-- The page between two positions, and the cursor of the reader after it.
abbrev pub page_between : List Event → ℕ → ℕ → EventPage
page_between events start end = record {
  events = take (end - start) (drop start events);
  next = if ltb start end then sequence_or start (get_elem? events (end - 1)) else start;
}

unfoldable pub page_from : List Event → JournalQuery → Result BasicError EventPage
page_from events query = do
  validate events query.session
  guard (not (query.limit == 0)) (error invalid_input "page limit must be positive")
  tail ← ok_or (to_u64 (length events)) storage_error
  guard (leb query.offset tail) (error invalid_cursor "journal offset is beyond the committed tail")
  let end = min (saturating_add query.offset query.limit) (length events) in
      ok (page_between events query.offset end)
