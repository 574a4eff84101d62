-- ===== src/Compaction/View/Shown.antt =====
-- The compacted view is the verified journal with its summarized prefix replaced, and within
-- budget.
use phenix_ai.Prelude.{
  ℕ, ◌≤◌, ◌≡◌, refl, sym, ap, ◌∙◌, Bool, true, false, not, Option, List, [], ◌∷◌, ◌++◌, map, arith,
  if◌then◌else◌, any, retain, ◌==◌,
}
use phenix_ai.Contract.Failure.{Result, ok, err, >>=-eq-ok, guard-eq-ok, ok_injective}
use phenix_ai.Compaction.Checkpoint.{CompactionCheckpoint}
use phenix_ai.Compaction.Journal.{Event, ReplayProblem, restore_original_events}
use phenix_ai.Compaction.Journal.Restore.{restore_original_events-Numbered}
use phenix_ai.Compaction.View.{
  ContextPart, original, ContextProjection, invalid_budget, Visibility, is_summarized, is_retained,
  is_excluded, same_visibility, visibility, prefix_step, check_prefix, check_tools, collect,
  nothing_collected, as_replay, compacted_view,
}
use phenix_ai.Compaction.View.Budget.{
  total, retained_here, summarized_here, originals, heading, round, rounds, collect-rounds,
}

round_emitted :
    (c : CompactionCheckpoint) (event : Event) (v : Visibility)
    → round c event v true ≡ (if same_visibility v is_retained then original event ∷ [] else [])
round_emitted c event is_summarized = refl
round_emitted c event is_retained = refl
round_emitted c event is_excluded = refl

cons_if :
    (b : Bool) (part : ContextPart) (event : Event) (events : List Event)
    → part ≡ original event
    → (if b then part ∷ [] else []) ++ map original events
      ≡ map original (if b then event ∷ events else events)
cons_if true part event events h = ap (λ p. p ∷ map original events) h
cons_if false part event events h = refl

rounds_emitted :
    (c : CompactionCheckpoint) (events : List Event) → rounds c events true ≡ originals c events
rounds_emitted c [] = refl
rounds_emitted c (event ∷ events) =
    rw (round_emitted c event (visibility c event.sequence), rounds_emitted c events)
      (cons_if (retained_here c event) (original event) event (retain (retained_here c) events)
        refl)

-- Once the prefix is left, nothing is summarized any more.
left-step :
    (c : CompactionCheckpoint) (event : Event) (v : Visibility) (left : Bool)
    → prefix_step v true ≡ ok left
    → (left ≡ true)
      × (same_visibility v is_summarized ≡ false)
      × (round c event v false ≡ round c event v true)
unfolding prefix_step
left-step c event is_summarized left h = cc
left-step c event is_retained left h = (sym (ok_injective h), refl, refl)
left-step c event is_excluded left h = (sym (ok_injective h), refl, refl)

rounds_left :
    (c : CompactionCheckpoint) (events : List Event)
    → check_prefix c events true ≡ ok tt
    → (rounds c events false ≡ originals c events) × (any (summarized_here c) events ≡ false)
unfolding check_prefix
rounds_left c [] h = (refl, refl)
rounds_left c (event ∷ events) h =
    let (left, one, k) = >>=-eq-ok (prefix_step (visibility c event.sequence) true) _ h in
    let (l, none, same) = left-step c event (visibility c event.sequence) left one in
    let (r, quiet) = rounds_left c events (rw l at k) in
    (
      rw (none, r, same, round_emitted c event (visibility c event.sequence))
          (cons_if (retained_here c event) (original event) event (retain (retained_here c) events)
            refl),
      rw (none, quiet),
    )

pub rounds-prefix :
    (c : CompactionCheckpoint) (events : List Event)
    → check_prefix c events false ≡ ok tt
    → rounds c events false ≡ heading c events ++ originals c events
unfolding check_prefix prefix_step
rounds-prefix c [] h = refl
rounds-prefix c (event ∷ events) h = go (visibility c event.sequence) refl
  where
    go :
        (v : Visibility)
        → visibility c event.sequence ≡ v
        → rounds c (event ∷ events) false
          ≡ heading c (event ∷ events) ++ originals c (event ∷ events)
    go is_summarized e = rw (e, rounds_emitted c events)
    go is_retained e = let (r, quiet) = rounds_left c events (rw e at h) in rw (e, r, quiet)
    go is_excluded e = let (r, quiet) = rounds_left c events (rw e at h) in rw (e, r, quiet)

as_replay-eq-ok :
    (r : Result ReplayProblem (List Event)) {events : List Event}
    → as_replay r ≡ ok events
    → r ≡ ok events
as_replay-eq-ok (ok a) h = ap ok (ok_injective h)
as_replay-eq-ok (err e) h = cc

module _ (sha256 : List ℕ → List ℕ) (event_bytes : Event → Option (List ℕ)) where
  -- A compacted view shows one summary in front, if any event of the journal is summarized, and
  -- then the journal's own retained events, unchanged and in order, and nothing else. What it shows
  -- has the size that it states, which is within the budget.
  pub compacted_view-parts :
      (c : CompactionCheckpoint) (journal : List Event) (max_bytes : ℕ) (view : ContextProjection)
      → compacted_view sha256 event_bytes c journal max_bytes ≡ ok view
      → (view.parts ≡ heading c journal ++ originals c journal)
        × (view.visible_payload_bytes ≡ total view.parts)
        × (view.visible_payload_bytes ≤ max_bytes)
  unfolding compacted_view
  compacted_view-parts c journal max_bytes view h =
      let (_, k) = guard-eq-ok (not (max_bytes == 0)) invalid_budget _ h in
      let (events, restored, k2) =
        >>=-eq-ok (as_replay (restore_original_events sha256 event_bytes c journal)) _ k in
      let (_, same, _, _) =
        restore_original_events-Numbered sha256 event_bytes c journal events
          (as_replay-eq-ok (restore_original_events sha256 event_bytes c journal) restored) in
      let (_, prefix, k3) = >>=-eq-ok (check_prefix c events false) _ k2 in
      let (_, _, k4) = >>=-eq-ok (check_tools c events []) _ k3 in
      let (all_of, collected, k5) = >>=-eq-ok (collect c max_bytes events nothing_collected) _ k4 in
      let (fits, bytes, parts) =
        collect-rounds c max_bytes events nothing_collected all_of (omega arith) collected in
      let seen : view.parts ≡ rounds c events false =
        sym (ap (λ (v : ContextProjection). v.parts) (ok_injective k5)) ∙ parts in
      let cost : all_of.bytes ≡ view.visible_payload_bytes =
        ap (λ (v : ContextProjection). v.visible_payload_bytes) (ok_injective k5) in
      (
        seen ∙ rounds-prefix c events prefix ∙ ap (λ es. heading c es ++ originals c es) same,
        omega (arith, cost, bytes, ap total seen),
        omega (arith, cost, fits),
      )
