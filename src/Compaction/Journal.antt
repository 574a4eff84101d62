-- ===== src/Compaction/Journal.antt =====
-- crates/phenix-p2-compaction-replay/src/lib.rs: the digest of a span of events, and the
-- verification
-- of a journal against a checkpoint; events are those of crates/phenix-basic-contracts/src/lib.rs.
-- SHA-256 and the canonical bytes of an event (`to_value().encode()`, which a macro derives) are
-- parameters.
pub mod Restore
use phenix_ai.Prelude.{
  ℕ, zero, suc, ◌+◌, ◌-◌, ◌*◌, ◌/◌, ◌%◌, ◌^◌, ◌≡◌, Bool, true, false, not, ◌&&◌, ◌||◌, Option, none,
  some, List, [], ◌∷◌, ◌++◌, ltb, leb, ◌==◌, if◌then◌else◌, length, take, drop, any,
}
use phenix_ai.Prelude.Order.{Text, text_ord, ◌=?◌, ascii}
use phenix_ai.Contract.Failure.{Result, ok, err, ◌>>=◌, ◌>>◌, guard, ok_or}
use phenix_ai.Contract.Wire.Bytes.{to_be_bytes}
use phenix_ai.Compaction.Checkpoint.{
  JournalSpan, CompactionCheckpoint, CompactionProblem, partitions, validate_checkpoint,
}

-- `EventKind` and `Event` of the basic contracts.
pub data EventKind : Type 0 where
  prompt_accepted model_started text_delta assistant_reply tool_started tool_finished answer failed
        cancelled :
      EventKind

pub record Event : Type 0 where
  pub sequence : ℕ
  pub session : Text
  pub run : Text
  pub kind : EventKind
  pub call_id : Text
  pub text : Text
  pub data_bytes : List ℕ

pub data ReplayProblem : Type 0 where
  invalid_checkpoint invalid_sequence incomplete_journal wrong_session digest_changed
        invalid_encoding capacity_exceeded :
      ReplayProblem

-- `HASH_DOMAIN`, `MAX_EVENTS_PER_SPAN`, `MAX_ENCODED_EVENT_BYTES`.
abbrev pub hash_domain : List ℕ
hash_domain = ascii "phenix.compaction.journal-span.v1" ++ 0 ∷ []

abbrev pub max_events_per_span : ℕ
max_events_per_span = 65_536

abbrev pub max_encoded_event_bytes : ℕ
max_encoded_event_bytes = 8 * 1024 * 1024

-- `format!("{:x}", …)` of a digest.
abbrev pub hex_char : ℕ → ℕ
hex_char n = if ltb n 10 then b'0' + n else b'a' + (n - 10)

unfoldable pub lower_hex : List ℕ → Text
lower_hex [] = []
lower_hex (b ∷ bytes) = hex_char (b / 16) ∷ hex_char (b % 16) ∷ lower_hex bytes

-- What the loop carries: the last sequence number, whether there was a gap, and the hashed bytes.
pub record Hashing : Type 0 where
  pub previous : ℕ
  pub has_gap : Bool
  pub hashed : List ℕ

-- `events.get(start..end)`
abbrev pub get_range : ℕ → ℕ → List Event → Option (List Event)
get_range start end events =
    if leb start end && leb end (length events)
    then some (take (end - start) (drop start events))
    else none

-- `map_err(|_| ReplayProblem::InvalidCheckpoint)`
abbrev pub mark_invalid : Result CompactionProblem (Unit {0}) → Result ReplayProblem (Unit {0})
mark_invalid (ok u) = ok u
mark_invalid (err e) = err invalid_checkpoint

module _ (sha256 : List ℕ → List ℕ) (event_bytes : Event → Option (List ℕ)) where
  -- The end of the loop's body, the same for the first event as for the others.
  unfoldable pub hash_event : Event → Bool → List ℕ → Result ReplayProblem Hashing
  hash_event event has_gap hashed = do
    bytes ← ok_or (event_bytes event) invalid_encoding
    guard (leb (length bytes) max_encoded_event_bytes) capacity_exceeded
    ok (record {
      previous = event.sequence;
      has_gap = has_gap;
      hashed = hashed ++ to_be_bytes 8 (length bytes) ++ bytes;
    })

  -- The loop after its first round; the numbers of a gap are found at the end.
  unfoldable pub hash_events : Text → List Event → Hashing → Result ReplayProblem Hashing
  hash_events session [] h = ok h
  hash_events session (event ∷ events) h = do
    guard (event.session =? session) wrong_session
    guard (ltb h.previous event.sequence) invalid_sequence
    h ← hash_event event (h.has_gap || not (h.previous + 1 == event.sequence)) h.hashed
    hash_events session events h

  -- `span_for_events`
  unfoldable pub span_for_events : List Event → Result ReplayProblem JournalSpan
  span_for_events [] = err incomplete_journal
  span_for_events (event ∷ events) = do
    guard (leb (length (event ∷ events)) max_events_per_span) capacity_exceeded
    guard (not (event.sequence == 0)) invalid_sequence
    h ← hash_event event false hash_domain
    h ← hash_events event.session events h
    guard (not h.has_gap) incomplete_journal
    ok (record {
      first_sequence = event.sequence;
      last_sequence = h.previous;
      digest_sha256 = lower_hex (sha256 h.hashed);
    })

  -- The loop over the partitions: each is hashed again. The ranges lie in the input, which the
  -- checkpoint's validation has found, so the differences do not wrap.
  unfoldable pub check_digests : ℕ → List JournalSpan → List Event → Result ReplayProblem (Unit {0})
  check_digests start [] events = ok tt
  check_digests start (expected ∷ spans) events = do
    actual ←
        ok_or
          (get_range (expected.first_sequence - start) (expected.last_sequence - start + 1) events)
          incomplete_journal
    span ← span_for_events actual
    guard (span.digest_sha256 =? expected.digest_sha256) digest_changed
    check_digests start spans events

  -- `restore_original_events`
  unfoldable pub restore_original_events :
      CompactionCheckpoint → List Event → Result ReplayProblem (List Event)
  restore_original_events c events = do
    mark_invalid (validate_checkpoint c)
    entire ← span_for_events events
    guard (not (any (λ event. not (event.session =? c.session)) events)) wrong_session
    guard
        (entire.first_sequence == c.input.first_sequence
          && entire.last_sequence == c.input.last_sequence)
        incomplete_journal
    guard (entire.digest_sha256 =? c.input.digest_sha256) digest_changed
    check_digests c.input.first_sequence (partitions c) events
    ok events
