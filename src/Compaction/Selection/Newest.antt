-- ===== src/Compaction/Selection/Newest.antt =====
-- Which checkpoint `select_model_view` selects
-- (crates/phenix-p2-compaction-replay/src/model.rs).
use phenix_ai.Prelude.{
  ℕ, ◌≤◌, ◌<◌, ◌≡◌, refl, sym, ap, subst, ◌∙◌, ◌||◌, ◌⊎◌, inl, inr, List, [], ◌∷◌, ◌++◌, leb, ◌==◌,
  arith, Bool-cases, Option,
}
use mathlib.Core.List.{append-nil, append_assoc}
use phenix_ai.Contract.Failure.{Result, ok, err, ok_injective}
use phenix_ai.Compaction.Checkpoint.{CompactionCheckpoint}
use phenix_ai.Compaction.Journal.{Event}
use phenix_ai.Compaction.View.{
  ContextProjection, ViewProblem, replay, invalid_budget, over_budget, invalid_tool_sequence,
  split_tool_call, unresolved_tool_call, non_prefix_summary, compacted_view,
}
use phenix_ai.Compaction.Selection.{
  SelectedModelView, ModelSelectionError, newest_first, fitting, measured, projected, try_views,
  select_model_view,
}

pub newest_first-append :
    (xs ys : List CompactionCheckpoint)
    → newest_first (xs ++ ys) ≡ newest_first ys ++ newest_first xs
unfolding newest_first
newest_first-append [] ys = sym (append-nil (newest_first ys))
newest_first-append (x ∷ xs) ys =
    ap (λ l. l ++ x ∷ []) (newest_first-append xs ys)
    ∙ append_assoc (newest_first ys) (newest_first xs) (x ∷ [])

newest_first_twice : (xs : List CompactionCheckpoint) → newest_first (newest_first xs) ≡ xs
unfolding newest_first
newest_first_twice [] = refl
newest_first_twice (x ∷ xs) =
    newest_first-append (newest_first xs) (x ∷ []) ∙ ap (λ l. x ∷ l) (newest_first_twice xs)

-- Where a checkpoint is found in the order tried, the list has the ones after it in front.
newest_first_split :
    (checkpoints tried : List CompactionCheckpoint) (c : CompactionCheckpoint)
    (rest : List CompactionCheckpoint)
    → newest_first checkpoints ≡ tried ++ c ∷ rest
    → checkpoints ≡ newest_first rest ++ c ∷ newest_first tried
unfolding newest_first
newest_first_split checkpoints tried c rest e =
    sym (newest_first_twice checkpoints)
    ∙ ap newest_first e
    ∙ newest_first-append tried (c ∷ rest)
    ∙ append_assoc (newest_first rest) (c ∷ []) (newest_first tried)

module _ (sha256 : List ℕ → List ℕ) (event_bytes : Event → Option (List ℕ)) {T E S : Type 0}
    (assemble_request : ContextProjection → S → Result E T × S)
    (measure_request_tokens : T → S → Result E ℕ × S) where
  abbrev Outcome : Type 0
  Outcome = Result (ModelSelectionError E) (SelectedModelView T) × S

  -- In the state `st` the request was made of the view and then measured, which left `end`.
  abbrev pub Measured : SelectedModelView T → S → S → Type 0
  Measured m st end =
      (next : S) × (assemble_request m.view st ≡ (ok m.request, next))
      × (measure_request_tokens m.request next ≡ (ok m.model_input_tokens, end))

  -- The checkpoint does not fit: its view is over the budget and nothing was called, or the request
  -- made of its view takes more tokens than the model has.
  abbrev pub PassedOver : List Event → ℕ → ℕ → CompactionCheckpoint → S → S → Type 0
  PassedOver journal max_bytes max_tokens c st end =
      ((compacted_view sha256 event_bytes c journal max_bytes ≡ err over_budget) × (st ≡ end))
      ⊎ ((m : SelectedModelView T) × (compacted_view sha256 event_bytes c journal max_bytes
            ≡ ok m.view)
          × Measured m st end
          × (max_tokens < m.model_input_tokens))

  -- Each of the checkpoints was passed over, from the last to the first.
  abbrev pub AllPassedOver : List Event → ℕ → ℕ → List CompactionCheckpoint → S → S → Type 0
  AllPassedOver journal max_bytes max_tokens [] st end = st ≡ end
  AllPassedOver journal max_bytes max_tokens (c ∷ newer) st end =
      (mid : S) × AllPassedOver journal max_bytes max_tokens newer st mid
      × PassedOver journal max_bytes max_tokens c mid end

  -- The request is made of the view of one of the checkpoints, given the oldest first, and fits;
  -- every checkpoint behind it in the list was passed over before.
  abbrev pub Found :
      List CompactionCheckpoint → List Event → ℕ → ℕ → SelectedModelView T → S → S → Type 0
  Found checkpoints journal max_bytes max_tokens m st end =
      (older : List CompactionCheckpoint) × (c : CompactionCheckpoint) × (newer : List
        CompactionCheckpoint)
      × (mid : S) × (checkpoints ≡ older ++ c ∷ newer)
      × AllPassedOver journal max_bytes max_tokens newer st mid
      × (compacted_view sha256 event_bytes c journal max_bytes ≡ ok m.view)
      × Measured m mid end
      × (m.model_input_tokens ≤ max_tokens)

  AllPassedOver-snoc :
      (journal : List Event) (max_bytes max_tokens : ℕ) (c : CompactionCheckpoint)
      (cs : List CompactionCheckpoint) {st mid : S} (end : S)
      → PassedOver journal max_bytes max_tokens c st mid
      → AllPassedOver journal max_bytes max_tokens cs mid end
      → AllPassedOver journal max_bytes max_tokens (cs ++ c ∷ []) st end
  AllPassedOver-snoc journal max_bytes max_tokens c [] {st = st} end p same =
      (st, refl, subst (PassedOver journal max_bytes max_tokens c st) same p)
  AllPassedOver-snoc journal max_bytes max_tokens c (d ∷ cs) end p (mid, passed, last) =
      (mid, AllPassedOver-snoc journal max_bytes max_tokens c cs mid p passed, last)

  -- The same of the list in the order tried, of which `tried` was tried before.
  abbrev FoundAfter :
      List CompactionCheckpoint → List Event → ℕ → ℕ → SelectedModelView T → S → S → Type 0
  FoundAfter order journal max_bytes max_tokens m st end =
      (tried : List CompactionCheckpoint) × (c : CompactionCheckpoint) × (rest : List
        CompactionCheckpoint)
      × (mid : S) × (order ≡ tried ++ c ∷ rest)
      × AllPassedOver journal max_bytes max_tokens (newest_first tried) st mid
      × (compacted_view sha256 event_bytes c journal max_bytes ≡ ok m.view)
      × Measured m mid end
      × (m.model_input_tokens ≤ max_tokens)

  keep_looking :
      (c : CompactionCheckpoint) (cs : List CompactionCheckpoint) (journal : List Event)
      (max_bytes max_tokens : ℕ) (m : SelectedModelView T) {st mid end : S}
      → PassedOver journal max_bytes max_tokens c st mid
      → FoundAfter cs journal max_bytes max_tokens m mid end
      → FoundAfter (c ∷ cs) journal max_bytes max_tokens m st end
  unfolding newest_first
  keep_looking c cs journal max_bytes max_tokens m p
        (tried, d, rest, at, e, passed, seen, measure, fits) =
      (
        c ∷ tried,
        d,
        rest,
        at,
        ap (λ l. c ∷ l) e,
        AllPassedOver-snoc journal max_bytes max_tokens c (newest_first tried) at p passed,
        seen,
        measure,
        fits,
      )

  found_here :
      (c : CompactionCheckpoint) (cs : List CompactionCheckpoint) (journal : List Event)
      (max_bytes max_tokens : ℕ) (m : SelectedModelView T) {st end : S}
      → compacted_view sha256 event_bytes c journal max_bytes ≡ ok m.view
      → Measured m st end
      → m.model_input_tokens ≤ max_tokens
      → FoundAfter (c ∷ cs) journal max_bytes max_tokens m st end
  unfolding newest_first
  found_here c cs journal max_bytes max_tokens m {st} seen measure fits =
      ([], c, cs, st, refl, refl, seen, measure, fits)

  -- One round of the loop: the checkpoint is passed over, or it is the one that is found.
  module _ (c : CompactionCheckpoint) (journal : List Event) (max_bytes max_tokens : ℕ) (st end : S)
      (m : SelectedModelView T) (rest : S → Outcome) where
    abbrev Round : Type 0
    Round =
        ((mid : S) × PassedOver journal max_bytes max_tokens c st mid × (rest mid ≡ (ok m, end)))
        ⊎ ((compacted_view sha256 event_bytes c journal max_bytes ≡ ok m.view)
            × Measured m st end
            × (m.model_input_tokens ≤ max_tokens))

    refusal : {x : ModelSelectionError E} {a b : S} → ◌≡◌ {A = Outcome} (err x, a) (ok m, b) → ⊥
    refusal g = cc (ap (λ (p : Outcome). p.0) g)

    from_count :
        (view : ContextProjection) (request : T) (next : S) (r : Result E ℕ × S)
        → compacted_view sha256 event_bytes c journal max_bytes ≡ ok view
        → assemble_request view st ≡ (ok request, next)
        → measure_request_tokens request next ≡ r
        → fitting sha256 event_bytes assemble_request measure_request_tokens max_tokens view request
            r rest
          ≡ (ok m, end)
        → Round
    from_count view request next (err e, s) v a t g = absurd (refusal g)
    from_count view request next (ok tokens, s) v a t g =
        let made : SelectedModelView T = record {
          request = request;
          view = view;
          model_input_tokens = tokens;
        } in
        elim (Bool-cases (leb tokens max_tokens)) [
          | inr over ↦ inl (s, inr (made, v, (next, a, t), ground (arith, over)), rw over at g)
          | inl fits ↦
              let left = ap (λ (p : Outcome). p.1) (rw fits at g) in
              let same = ok_injective (ap (λ (p : Outcome). p.0) (rw fits at g)) in
              let seen = v ∙ ap (λ (n : SelectedModelView T). ok n.view) same in
              let fewer = ap (λ (n : SelectedModelView T). n.model_input_tokens) same in
              inr (
                seen,
                subst (λ n. Measured n st end) same (subst (Measured made st) left (next, a, t)),
                ground (arith, fits, fewer),
              )
        ]

    from_request :
        (view : ContextProjection) (r : Result E T × S)
        → compacted_view sha256 event_bytes c journal max_bytes ≡ ok view
        → assemble_request view st ≡ r
        → measured sha256 event_bytes assemble_request measure_request_tokens max_tokens view r rest
          ≡ (ok m, end)
        → Round
    from_request view (err e, s) v a g = absurd (refusal g)
    from_request view (ok request, s) v a g =
        from_count view request s (measure_request_tokens request s) v a refl g

    from_view :
        (r : Result ViewProblem ContextProjection)
        → compacted_view sha256 event_bytes c journal max_bytes ≡ r
        → projected sha256 event_bytes assemble_request measure_request_tokens max_tokens r st rest
          ≡ (ok m, end)
        → Round
    from_view (ok view) v g = from_request view (assemble_request view st) v refl g
    from_view (err over_budget) v g = inl (st, inl (v, refl), g)
    from_view (err (replay e)) v g = absurd (refusal g)
    from_view (err invalid_budget) v g = absurd (refusal g)
    from_view (err invalid_tool_sequence) v g = absurd (refusal g)
    from_view (err split_tool_call) v g = absurd (refusal g)
    from_view (err unresolved_tool_call) v g = absurd (refusal g)
    from_view (err non_prefix_summary) v g = absurd (refusal g)

  try_views-FoundAfter :
      (cs : List CompactionCheckpoint) (journal : List Event) (max_bytes max_tokens : ℕ)
      (st end : S) (m : SelectedModelView T)
      → try_views sha256 event_bytes assemble_request measure_request_tokens cs journal max_bytes
          max_tokens st
        ≡ (ok m, end)
      → FoundAfter cs journal max_bytes max_tokens m st end
  unfolding try_views
  try_views-FoundAfter [] journal max_bytes max_tokens st end m h =
      absurd (cc (ap (λ (p : Outcome). p.0) h))
  try_views-FoundAfter (c ∷ cs) journal max_bytes max_tokens st end m h =
      elim (from_view c journal max_bytes max_tokens st end m
        (try_views sha256 event_bytes assemble_request measure_request_tokens cs journal max_bytes
          max_tokens)
        (compacted_view sha256 event_bytes c journal max_bytes) refl h) [
          | inl (mid, p, more) ↦
              keep_looking c cs journal max_bytes max_tokens m p
                (try_views-FoundAfter cs journal max_bytes max_tokens mid end m more)
          | inr (seen, measure, fits) ↦
              found_here c cs journal max_bytes max_tokens m seen measure fits
        ]

  -- A request that is selected was made by the callbacks of the verified view of one of the
  -- checkpoints, which are listed with the oldest first, and measured within the model's budget.
  -- Every checkpoint behind that one in the list was tried before, from the last of the list on,
  -- and did not fit: its view was over the budget of bytes, or the request made of its view was
  -- measured over the budget of tokens. The state passes through these calls alone.
  pub select_model_view-Found :
      (checkpoints : List CompactionCheckpoint) (journal : List Event) (max_bytes max_tokens : ℕ)
      (st end : S) (m : SelectedModelView T)
      → select_model_view sha256 event_bytes assemble_request measure_request_tokens checkpoints
          journal max_bytes max_tokens st
        ≡ (ok m, end)
      → Found checkpoints journal max_bytes max_tokens m st end
  unfolding select_model_view
  select_model_view-Found checkpoints journal max_bytes max_tokens st end m h =
      elim (Bool-cases (max_bytes == 0 || max_tokens == 0)) [
        | inl none_left ↦ absurd (cc (ap (λ (p : Outcome). p.0) (rw none_left at h)))
        | inr some_left ↦
            let (tried, c, rest, mid, e, passed, seen, measure, fits) =
              try_views-FoundAfter (newest_first checkpoints) journal max_bytes max_tokens st end m
                (rw some_left at h) in
            (
              newest_first rest,
              c,
              newest_first tried,
              mid,
              newest_first_split checkpoints tried c rest e,
              passed,
              seen,
              measure,
              fits,
            )
      ]
