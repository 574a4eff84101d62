-- ===== src/Compaction/Tail/Extended.antt =====
-- An extended view: the tail continues the journal, and is counted against the same budget.
use phenix_ai.Prelude.{
  ℕ, ◌+◌, ◌≤◌, ◌≡◌, sym, ap, subst, ◌∙◌, not, Option, List, [], ◌∷◌, leb, ◌==◌, ==_iff, arith,
  length, checked_add, checked_add-eq-some, map,
}
use phenix_ai.Prelude.Order.{text_ord, ◌=?◌, =?_iff}
use phenix_ai.Contract.Failure.{
  Result, ok, err, ok_or, >>=-eq-ok, guard-eq-ok, ok_or-eq-ok, ok_injective,
}
use phenix_ai.Compaction.Checkpoint.{CompactionCheckpoint}
use phenix_ai.Compaction.Journal.{Event}
use phenix_ai.Compaction.Journal.Restore.{Numbered}
use phenix_ai.Compaction.View.{original, ContextProjection, ViewProblem, event_size, compacted_view}
use phenix_ai.Compaction.View.Budget.{total, part_size, event_size-eq-some}
use phenix_ai.Compaction.View.Shown.{compacted_view-parts}
use phenix_ai.Compaction.Tail.{
  ExtendedProjection, invalid_budget, over_budget, capacity_exceeded, invalid_sequence,
  wrong_session, unresolved_tool_call, tail_tool, Tracking, tail_event, tail_events, as_checkpoint,
  span_of_tail, extend_verified_view,
}

tail_event-eq-ok :
    (c : CompactionCheckpoint) (max_bytes : ℕ) (event : Event) (t t' : Tracking)
    → tail_event c max_bytes event t ≡ ok t'
    → (event.session ≡ c.session)
      × (event.sequence ≡ t.sequence + 1)
      × (t'.sequence ≡ t.sequence + 1)
      × (t'.bytes ≡ t.bytes + part_size (original event))
      × (t'.bytes ≤ max_bytes)
unfolding tail_event
tail_event-eq-ok c max_bytes event t t' h =
    let (sequence, s, k) = >>=-eq-ok (ok_or (checked_add t.sequence 1) invalid_sequence) _ h in
    let (next, k2) = guard-eq-ok (event.sequence == sequence) invalid_sequence _ k in
    let (own, k3) = guard-eq-ok (event.session =? c.session) wrong_session _ k2 in
    let (active, _, k4) = >>=-eq-ok (tail_tool event t.active) _ k3 in
    let (size, z, k5) = >>=-eq-ok (ok_or (event_size event) over_budget) _ k4 in
    let (bytes, b, k6) = >>=-eq-ok (ok_or (checked_add t.bytes size) over_budget) _ k5 in
    let (fits, k7) = guard-eq-ok (leb bytes max_bytes) over_budget _ k6 in
    let number =
      checked_add-eq-some t.sequence 1
        (ok_or-eq-ok (checked_add t.sequence 1) invalid_sequence s) in
    let known = event_size-eq-some event size (ok_or-eq-ok (event_size event) over_budget z) in
    let sum =
      checked_add-eq-some t.bytes size (ok_or-eq-ok (checked_add t.bytes size) over_budget b) in
    let st = ap (λ (x : Tracking). x.sequence) (ok_injective k7) in
    let bt = ap (λ (x : Tracking). x.bytes) (ok_injective k7) in
    (
      (=?_iff event.session c.session).0 own,
      (==_iff event.sequence sequence).0 next ∙ number,
      sym st ∙ number,
      omega (arith, bt, sum, known),
      ground (arith, bt, fits),
    )

tail_events-Numbered :
    (c : CompactionCheckpoint) (max_bytes : ℕ) (events : List Event) (t t' : Tracking)
    → t.bytes ≤ max_bytes
    → tail_events c max_bytes events t ≡ ok t'
    → Numbered c.session (t.sequence + 1) events
      × (t'.bytes ≡ t.bytes + total (map original events))
      × (t'.bytes ≤ max_bytes)
unfolding tail_events
tail_events-Numbered c max_bytes [] t t' l h =
    let same : t ≡ t' = ok_injective h in
    (
      tt,
      omega (arith, ap (λ (x : Tracking). x.bytes) same),
      omega (arith, ap (λ (x : Tracking). x.bytes) same),
    )
tail_events-Numbered c max_bytes (event ∷ events) t t' l h =
    let (u, one, k) = >>=-eq-ok (tail_event c max_bytes event t) _ h in
    let (own, next, after, bytes, fits) = tail_event-eq-ok c max_bytes event t u one in
    let (rest, sum, within) = tail_events-Numbered c max_bytes events u t' fits k in
    (
      (own, next, subst (λ n. Numbered c.session (n + 1) events) after rest),
      omega (arith, bytes, sum),
      within,
    )

as_checkpoint-eq-ok :
    (r : Result ViewProblem ContextProjection) {v : ContextProjection}
    → as_checkpoint r ≡ ok v
    → r ≡ ok v
as_checkpoint-eq-ok (ok a) h = ap ok (ok_injective h)
as_checkpoint-eq-ok (err e) h = cc

module _ (sha256 : List ℕ → List ℕ) (event_bytes : Event → Option (List ℕ)) where
  -- An extended view has the compacted view of the checkpoint's journal as its base and all the
  -- appended events behind it, which continue the numbers of the checkpoint's input in its session.
  -- The size that it states is that of the base's parts and of every appended event, and is within
  -- the budget.
  pub extend_verified_view-Numbered :
      (c : CompactionCheckpoint) (journal appended : List Event) (max_bytes : ℕ)
      (view : ExtendedProjection)
      → extend_verified_view sha256 event_bytes c journal appended max_bytes ≡ ok view
      → (compacted_view sha256 event_bytes c journal max_bytes ≡ ok view.base)
        × (view.trailing ≡ appended)
        × Numbered c.session (c.input.last_sequence + 1) appended
        × (view.visible_payload_bytes ≡ total view.base.parts + total (map original appended))
        × (view.visible_payload_bytes ≤ max_bytes)
  unfolding extend_verified_view
  extend_verified_view-Numbered c journal appended max_bytes view h =
      let (_, k) = guard-eq-ok (not (max_bytes == 0)) invalid_budget _ h in
      let (_, k2) = guard-eq-ok (leb (length appended) 8192) capacity_exceeded _ k in
      let (base, b, k3) =
        >>=-eq-ok (as_checkpoint (compacted_view sha256 event_bytes c journal max_bytes)) _ k2 in
      let start : Tracking = record {
        sequence = c.input.last_sequence;
        active = [];
        bytes = base.visible_payload_bytes;
      } in
      let (t, loop, k4) = >>=-eq-ok (tail_events c max_bytes appended start) _ k3 in
      let (_, k5) = guard-eq-ok (length t.active == 0) unresolved_tool_call _ k4 in
      let (_, _, k6) = >>=-eq-ok (span_of_tail sha256 event_bytes appended) _ k5 in
      let viewed = as_checkpoint-eq-ok (compacted_view sha256 event_bytes c journal max_bytes) b in
      let (_, cost, small) =
        compacted_view-parts sha256 event_bytes c journal max_bytes base viewed in
      let (numbered, sum, within) = tail_events-Numbered c max_bytes appended start t small loop in
      let same_base : base ≡ view.base =
        ap (λ (x : ExtendedProjection). x.base) (ok_injective k6) in
      let size : t.bytes ≡ view.visible_payload_bytes =
        ap (λ (x : ExtendedProjection). x.visible_payload_bytes) (ok_injective k6) in
      (
        viewed ∙ ap ok same_base,
        sym (ap (λ (x : ExtendedProjection). x.trailing) (ok_injective k6)),
        numbered,
        omega (arith, size, sum, cost, ap (λ (x : ContextProjection). total x.parts) same_base),
        omega (arith, size, within),
      )
