-- ===== src/Compaction/Checkpoint/Coverage.antt =====
-- A checkpoint that is validated assigns every event of its input to exactly one span.
use phenix_ai.Prelude.{
  ℕ, ◌+◌, ◌≤◌, ◌≡◌, sym, ◌∙◌, true, not, ◌&&◌, ◌||◌, List, [], ◌∷◌, map, ltb, leb, ◌==◌, ==_iff,
  arith, if◌then◌else◌, length, All,
}
use phenix_ai.Prelude.Order.{text_ord}
use phenix_ai.Prelude.Chars.{is_blank}
use phenix_ai.Contract.Failure.{ok, >>=-eq-ok, guard-eq-ok}
use phenix_ai.Compaction.Checkpoint.{
  JournalSpan, CompactionCheckpoint, validate_span, check_spans, sort_ranges, scan, range_of,
  partitions, validate_checkpoint, invalid_identity, invalid_lineage, invalid_range, outside_input,
  overlapping_ranges, incomplete_coverage, missing_citation,
}
use phenix_ai.Compaction.Checkpoint.Sorting.{
  holds, count, sort_ranges-count, IsRange, sort_ranges-All,
}

-- Ranges that the scan accepts follow each other without a gap or an overlap.
scan-count :
    (n : ℕ) (ps : List (ℕ × ℕ)) (next end : ℕ)
    → All IsRange ps
    → scan ps next ≡ ok end
    → (next ≤ end) × (count n ps ≡ (if leb next n && ltb n end then 1 else 0))
unfolding scan
scan-count n [] next end a h = (ground arith, ground arith)
scan-count n ((first, last) ∷ ps) next end a h =
    let (above, k) = guard-eq-ok (not (ltb first next)) overlapping_ranges _ h in
    let (below, j) = guard-eq-ok (not (ltb next first)) incomplete_coverage _ k in
    let rest = scan-count n ps (last + 1) end a.1 j in
    (ground (arith, rest.0, a.0), ground (arith, rest, a.0))

check_spans-All :
    (input : JournalSpan) (spans : List JournalSpan)
    → check_spans input spans ≡ ok tt
    → All IsRange (map range_of spans)
unfolding check_spans validate_span
check_spans-All input [] h = tt
check_spans-All input (span ∷ spans) h =
    let (_, valid, k) = >>=-eq-ok (validate_span span) _ h in
    let (ordered, _) =
      guard-eq-ok (not (span.first_sequence == 0 || ltb span.last_sequence span.first_sequence))
        invalid_range _ valid in
    let (_, rest) =
      guard-eq-ok
        (not (
          ltb span.first_sequence input.first_sequence
          || ltb input.last_sequence span.last_sequence))
        outside_input _ k in
    (ground (arith, ordered), check_spans-All input spans rest)

-- What the validation leaves to be known of the spans.
pub record Partitioned (c : CompactionCheckpoint) : Type 0 where
  pub end : ℕ
  pub positive :
      not (c.input.first_sequence == 0 || ltb c.input.last_sequence c.input.first_sequence) ≡ true
  pub spans : check_spans c.input (partitions c) ≡ ok tt
  pub scanned : scan (sort_ranges (map range_of (partitions c))) c.input.first_sequence ≡ ok end
  pub complete : (end == c.input.last_sequence + 1) ≡ true
  pub cited :
      (if is_blank c.summary then length c.summarized == 0 else not (length c.summarized == 0))
      ≡ true

pub validate_checkpoint-Partitioned :
    (c : CompactionCheckpoint) → validate_checkpoint c ≡ ok tt → Partitioned c
unfolding validate_checkpoint validate_span
validate_checkpoint-Partitioned c h =
    let (_, h1) = guard-eq-ok _ invalid_identity _ h in
    let (_, h2) = guard-eq-ok _ invalid_lineage _ h1 in
    let (_, h3) = guard-eq-ok _ invalid_range _ h2 in
    let (cited, h4) = guard-eq-ok _ missing_citation _ h3 in
    let (_, span, h5) = >>=-eq-ok (validate_span c.input) _ h4 in
    let (positive, _) = guard-eq-ok _ invalid_range _ span in
    let (_, h6) = guard-eq-ok _ invalid_range _ h5 in
    let (_, spans, h7) = >>=-eq-ok (check_spans c.input (partitions c)) _ h6 in
    let (end, scanned, h8) =
      >>=-eq-ok (scan (sort_ranges (map range_of (partitions c))) c.input.first_sequence) _ h7 in
    let (complete, _) = guard-eq-ok _ incomplete_coverage _ h8 in
    record {
      end = end;
      positive = positive;
      spans = spans;
      scanned = scanned;
      complete = complete;
      cited = cited;
    }

-- In a checkpoint that is validated, a sequence number is in exactly one of the summarized,
-- retained and excluded spans if the input holds it, and in none of them otherwise.
pub validate_checkpoint-count :
    (c : CompactionCheckpoint) (n : ℕ)
    → validate_checkpoint c ≡ ok tt
    → count n (map range_of (partitions c)) ≡ (if holds n (range_of c.input) then 1 else 0)
validate_checkpoint-count c n h =
    let p = validate_checkpoint-Partitioned c h in
    let ranges = map range_of (partitions c) in
    let whole =
      scan-count n (sort_ranges ranges) c.input.first_sequence p.end
        (sort_ranges-All ranges (check_spans-All c.input (partitions c) p.spans)) p.scanned in
    sym (sort_ranges-count n ranges)
    ∙ whole.1
    ∙ ground (arith, (==_iff p.end (c.input.last_sequence + 1)).0 p.complete)
