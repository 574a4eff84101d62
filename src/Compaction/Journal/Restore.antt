-- ===== src/Compaction/Journal/Restore.antt =====
-- A journal that is restored is whole: its events are numbered as the checkpoint's input says.
use phenix_ai.Prelude.{
  ℕ, ◌+◌, ◌≡◌, refl, sym, ap, subst, ◌∙◌, Bool, false, not, ◌&&◌, ◌||◌, Option, List, [], ◌∷◌, ltb,
  leb, ◌==◌, arith, length, any,
}
use phenix_ai.Prelude.Order.{Text, text_ord, ◌=?◌, =?_iff}
use phenix_ai.Contract.Failure.{ok, ok_or, >>=-eq-ok, guard-eq-ok, ok_injective}
use phenix_ai.Compaction.Checkpoint.{
  JournalSpan, CompactionCheckpoint, partitions, validate_checkpoint,
}
use phenix_ai.Compaction.Journal.{
  Event, invalid_sequence, incomplete_journal, wrong_session, invalid_encoding, capacity_exceeded,
  digest_changed, max_events_per_span, max_encoded_event_bytes, Hashing, hash_domain, hash_event,
  hash_events, span_for_events, restore_original_events, mark_invalid, check_digests,
}

-- The events belong to the session, and are numbered without a gap.
abbrev pub Numbered : Text → ℕ → List Event → Type 0
Numbered session next [] = Unit
Numbered session next (event ∷ events) =
    (event.session ≡ session) × (event.sequence ≡ next) × Numbered session (next + 1) events

module _ (sha256 : List ℕ → List ℕ) (event_bytes : Event → Option (List ℕ)) where
  hash_event-eq-ok :
      (event : Event) (has_gap : Bool) (hashed : List ℕ) (h : Hashing)
      → hash_event sha256 event_bytes event has_gap hashed ≡ ok h
      → (h.previous ≡ event.sequence) × (h.has_gap ≡ has_gap)
  unfolding hash_event
  hash_event-eq-ok event has_gap hashed h e =
      let (bytes, _, k) = >>=-eq-ok (ok_or (event_bytes event) invalid_encoding) _ e in
      let (_, j) = guard-eq-ok (leb (length bytes) max_encoded_event_bytes) capacity_exceeded _ k in
      (
        ap (λ (x : Hashing). x.previous) (sym (ok_injective j)),
        ap (λ (x : Hashing). x.has_gap) (sym (ok_injective j)),
      )

  -- A gap is never forgotten, so that no gap at the end means none anywhere.
  hash_events-Numbered :
      (session : Text) (events : List Event) (h end : Hashing)
      → hash_events sha256 event_bytes session events h ≡ ok end
      → end.has_gap ≡ false
      → (h.has_gap ≡ false)
        × Numbered session (h.previous + 1) events
        × (end.previous ≡ h.previous + length events)
  unfolding hash_events
  hash_events-Numbered session [] h end e g = (
    ap (λ (x : Hashing). x.has_gap) (ok_injective e) ∙ g,
    tt,
    omega (arith, ap (λ (x : Hashing). x.previous) (ok_injective e)),
  )
  hash_events-Numbered session (event ∷ events) h end e g =
      let (own, k) = guard-eq-ok (event.session =? session) wrong_session _ e in
      let (up, k2) = guard-eq-ok (ltb h.previous event.sequence) invalid_sequence _ k in
      let gap : Bool = h.has_gap || not (h.previous + 1 == event.sequence) in
      let (now, one, k3) = >>=-eq-ok (hash_event sha256 event_bytes event gap h.hashed) _ k2 in
      let (prev, kept) = hash_event-eq-ok event gap h.hashed now one in
      let (closed, rest, last) = hash_events-Numbered session events now end k3 g in
      let no_gap : (h.has_gap || not (h.previous + 1 == event.sequence)) ≡ false =
        sym kept ∙ closed in
      let next : event.sequence ≡ h.previous + 1 = ground (arith, no_gap) in
      (
        ground (arith, no_gap),
        (
          (=?_iff event.session session).0 own,
          next,
          subst (λ n. Numbered session (n + 1) events) (prev ∙ next) rest,
        ),
        omega (arith, last, prev, next),
      )

  pub span_for_events-Numbered :
      (events : List Event) (span : JournalSpan)
      → span_for_events sha256 event_bytes events ≡ ok span
      → (session : Text) × Numbered session span.first_sequence events
        × (span.first_sequence + length events ≡ span.last_sequence + 1)
        × ((expected : Text)
            → any (λ event. not (event.session =? expected)) events ≡ false
            → session ≡ expected)
  unfolding span_for_events
  span_for_events-Numbered [] span e = cc
  span_for_events-Numbered (event ∷ events) span e =
      let (_, k) =
        guard-eq-ok (leb (length (event ∷ events)) max_events_per_span) capacity_exceeded _ e in
      let (_, k2) = guard-eq-ok (not (event.sequence == 0)) invalid_sequence _ k in
      let (h, one, k3) = >>=-eq-ok (hash_event sha256 event_bytes event false hash_domain) _ k2 in
      let (end, more, k4) =
        >>=-eq-ok (hash_events sha256 event_bytes event.session events h) _ k3 in
      let (whole, k5) = guard-eq-ok (not end.has_gap) incomplete_journal _ k4 in
      let (prev, _) = hash_event-eq-ok event false hash_domain h one in
      let (_, rest, last) = hash_events-Numbered event.session events h end more (ground arith) in
      let first : event.sequence ≡ span.first_sequence =
        ap (λ (x : JournalSpan). x.first_sequence) (ok_injective k5) in
      let final : end.previous ≡ span.last_sequence =
        ap (λ (x : JournalSpan). x.last_sequence) (ok_injective k5) in
      (
        event.session,
        (refl, first, subst (λ n. Numbered event.session (n + 1) events) (prev ∙ first) rest),
        omega (arith, last, prev, first, final),
        λ expected none_other. (=?_iff event.session expected).0 (ground (arith, none_other)),
      )

  -- A journal that is restored under a checkpoint is returned as it was given, the checkpoint is
  -- valid, and the events are all of the checkpoint's session, with the sequence numbers of its
  -- input, each once and in order.
  pub restore_original_events-Numbered :
      (c : CompactionCheckpoint) (journal events : List Event)
      → restore_original_events sha256 event_bytes c journal ≡ ok events
      → (validate_checkpoint c ≡ ok tt)
        × (events ≡ journal)
        × Numbered c.session c.input.first_sequence events
        × (c.input.first_sequence + length events ≡ c.input.last_sequence + 1)
  unfolding restore_original_events
  restore_original_events-Numbered c journal events e =
      let (_, valid, k) = >>=-eq-ok (mark_invalid (validate_checkpoint c)) _ e in
      let (span, found, k2) = >>=-eq-ok (span_for_events sha256 event_bytes journal) _ k in
      let (own, k3) =
        guard-eq-ok (not (any (λ event. not (event.session =? c.session)) journal)) wrong_session _
          k2 in
      let (ends, k4) =
        guard-eq-ok
          (span.first_sequence == c.input.first_sequence
            && span.last_sequence == c.input.last_sequence)
          incomplete_journal _ k3 in
      let (_, k5) = guard-eq-ok (span.digest_sha256 =? c.input.digest_sha256) digest_changed _ k4 in
      let (_, _, k6) =
        >>=-eq-ok (check_digests sha256 event_bytes c.input.first_sequence (partitions c) journal) _
          k5 in
      let same : journal ≡ events = ok_injective k6 in
      let (session, numbered, whole, known) = span_for_events-Numbered journal span found in
      let s : session ≡ c.session = known c.session (ground (arith, own)) in
      let first : span.first_sequence ≡ c.input.first_sequence = ground (arith, ends) in
      let last : span.last_sequence ≡ c.input.last_sequence = ground (arith, ends) in
      (
        ground (arith, valid),
        sym same,
        subst (Numbered c.session c.input.first_sequence) same (
            subst (λ x. Numbered x c.input.first_sequence journal) s
              (subst (λ n. Numbered session n journal) first numbered)),
        subst (λ l. c.input.first_sequence + length l ≡ c.input.last_sequence + 1) same
            (omega (arith, whole, first, last)),
      )
