-- ===== src/Compaction/Checkpoint.antt =====
-- crates/phenix-advanced-contracts/src/compaction.rs: checkpoints and their structural validation,
-- with the source references of lib.rs.
pub mod Sorting
pub mod Coverage
use phenix_ai.Prelude.{
  ℕ, ◌+◌, ◌≡◌, Bool, true, false, not, ◌&&◌, ◌||◌, Option, none, some, List, [], ◌∷◌, ◌++◌, map,
  ltb, leb, ◌==◌, if◌then◌else◌, length, all, is_some,
}
use phenix_ai.Prelude.Order.{Text, text_ord, ◌=?◌}
use phenix_ai.Prelude.Chars.{has_control, is_blank, none_or}
use phenix_ai.Contract.Failure.{Result, ok, err, ◌>>=◌, ◌>>◌, guard}

-- `valid_identity` and `valid_digest` of lib.rs.
unfoldable pub valid_identity : Text → Bool
valid_identity s = not (is_blank s) && leb (length s) 512 && not (has_control s)

unfoldable pub valid_digest : Text → Bool
valid_digest s =
    length s == 64 && all (λ b. (leb b'0' b && leb b b'9') || (leb b'a' b && leb b b'f')) s

pub data EvidenceScopeKind : Type 0 where
  session project user shared : EvidenceScopeKind

abbrev pub is_session : EvidenceScopeKind → Bool
is_session session = true
is_session _ = false

pub record EvidenceScope : Type 0 where
  pub kind : EvidenceScopeKind
  pub id : Text

pub record SourceRef : Type 0 where
  pub owner : Text
  pub resource : Text
  pub revision : Text
  pub digest_sha256 : Text
  pub range_start : ℕ
  pub range_end : ℕ
  pub scope : EvidenceScope

pub record JournalSpan : Type 0 where
  pub first_sequence : ℕ
  pub last_sequence : ℕ
  pub digest_sha256 : Text

pub record CompactionCheckpoint : Type 0 where
  pub id : Text
  pub session : Text
  pub revision : ℕ
  pub parent_checkpoint : Option Text
  pub input : JournalSpan
  pub summarized : List JournalSpan
  pub retained : List JournalSpan
  pub excluded : List JournalSpan
  pub summary : Text
  pub policy : Text
  pub policy_version : ℕ
  pub model : Option Text
  pub hydration_sources : List SourceRef

pub data CompactionProblem : Type 0 where
  invalid_identity invalid_lineage invalid_range invalid_digest missing_citation incomplete_coverage
        overlapping_ranges outside_input scope_denied :
      CompactionProblem

abbrev pub Checked : Type 0
Checked = Result CompactionProblem (Unit {0})

-- `validate_reference` of lib.rs, its problems as `validate_checkpoint` passes them on.
unfoldable pub validate_reference : SourceRef → Checked
validate_reference source = do
  guard
      (valid_identity source.owner
        && valid_identity source.resource
        && valid_identity source.revision
        && valid_identity source.scope.id)
      invalid_identity
  guard (valid_digest source.digest_sha256) invalid_digest
  guard (leb source.range_start source.range_end) invalid_range

unfoldable pub validate_span : JournalSpan → Checked
validate_span span = do
  guard (not (span.first_sequence == 0 || ltb span.last_sequence span.first_sequence)) invalid_range
  guard (valid_digest span.digest_sha256) invalid_digest

-- The loop over the spans: each is valid and inside the input.
unfoldable pub check_spans : JournalSpan → List JournalSpan → Checked
check_spans input [] = ok tt
check_spans input (span ∷ spans) = do
  validate_span span
  guard
      (not (
        ltb span.first_sequence input.first_sequence || ltb input.last_sequence span.last_sequence))
      outside_input
  check_spans input spans

-- `sort_unstable` of the pairs, by insertion.
abbrev pub before : ℕ × ℕ → ℕ × ℕ → Bool
before p q = ltb p.0 q.0 || (p.0 == q.0 && leb p.1 q.1)

unfoldable pub insert_range : ℕ × ℕ → List (ℕ × ℕ) → List (ℕ × ℕ)
insert_range p [] = p ∷ []
insert_range p (q ∷ qs) =
    let rest = insert_range p qs in if before p q then p ∷ q ∷ qs else q ∷ rest

unfoldable pub sort_ranges : List (ℕ × ℕ) → List (ℕ × ℕ)
sort_ranges [] = []
sort_ranges (p ∷ ps) = insert_range p (sort_ranges ps)

-- The loop over the sorted pairs; `u128` does not wrap here.
unfoldable pub scan : List (ℕ × ℕ) → ℕ → Result CompactionProblem ℕ
scan [] next = ok next
scan ((first, last) ∷ coverage) next = do
  guard (not (ltb first next)) overlapping_ranges
  guard (not (ltb next first)) incomplete_coverage
  scan coverage (last + 1)

abbrev pub range_of : JournalSpan → ℕ × ℕ
range_of span = (span.first_sequence, span.last_sequence)

abbrev pub partitions : CompactionCheckpoint → List JournalSpan
partitions c = c.summarized ++ c.retained ++ c.excluded

unfoldable pub check_sources : Text → List SourceRef → Checked
check_sources owner [] = ok tt
check_sources owner (source ∷ sources) = do
  guard (is_session source.scope.kind && source.scope.id =? owner) scope_denied
  validate_reference source
  check_sources owner sources

unfoldable pub validate_checkpoint : CompactionCheckpoint → Checked
validate_checkpoint c = do
  guard
      (valid_identity c.id
        && valid_identity c.session
        && valid_identity c.policy
        && none_or valid_identity c.model)
      invalid_identity
  guard
      (not (
        c.revision == 0
        || c.policy_version == 0
        || not (
            none_or (λ parent. valid_identity parent && not (parent =? c.id)) c.parent_checkpoint)))
      invalid_lineage
  guard (leb (length c.summary) 65_536) invalid_range
  guard (if is_blank c.summary then length c.summarized == 0 else not (length c.summarized == 0))
      missing_citation
  validate_span c.input
  guard
      (not (
        length (partitions c) == 0
        || not (leb (length (partitions c)) 1024)
        || not (leb (length c.hydration_sources) 256)))
      invalid_range
  check_spans c.input (partitions c)
  next ← scan (sort_ranges (map range_of (partitions c))) c.input.first_sequence
  guard (next == c.input.last_sequence + 1) incomplete_coverage
  check_sources c.session c.hydration_sources
