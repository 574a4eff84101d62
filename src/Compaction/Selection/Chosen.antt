-- ===== src/Compaction/Selection/Chosen.antt =====
-- That `select_model_view` does select the newest checkpoint that fits
-- (crates/phenix-p2-compaction-replay/src/model.rs).
use phenix_ai.Prelude.{
  ℕ, ◌≤◌, ◌<◌, ◌≡◌, refl, ap, ◌∙◌, ◌==◌, ◌||◌, inl, inr, true, false, List, [], ◌∷◌, ◌++◌, leb,
  arith, Option,
}
use mathlib.Core.List.{append_assoc}
use phenix_ai.Contract.Failure.{Result, ok}
use phenix_ai.Compaction.Checkpoint.{CompactionCheckpoint}
use phenix_ai.Compaction.Journal.{Event}
use phenix_ai.Compaction.View.{ContextProjection, compacted_view}
use phenix_ai.Compaction.Selection.{
  SelectedModelView, ModelSelectionError, newest_first, try_views, select_model_view,
}
use phenix_ai.Compaction.Selection.Newest.{
  newest_first-append, Measured, PassedOver, AllPassedOver, Found,
}

module _ (sha256 : List ℕ → List ℕ) (event_bytes : Event → Option (List ℕ)) {T E S : Type 0}
    (assemble_request : ContextProjection → S → Result E T × S)
    (measure_request_tokens : T → S → Result E ℕ × S) (journal : List Event)
    (max_bytes max_tokens : ℕ) where
  abbrev tries :
      List CompactionCheckpoint → S → Result (ModelSelectionError E) (SelectedModelView T) × S
  tries cs =
      try_views sha256 event_bytes assemble_request measure_request_tokens cs journal max_bytes
        max_tokens

  try_views-passed :
      (c : CompactionCheckpoint) (cs : List CompactionCheckpoint) (st end : S)
      → PassedOver sha256 event_bytes assemble_request measure_request_tokens journal max_bytes
          max_tokens c st end
      → tries (c ∷ cs) st ≡ tries cs end
  unfolding try_views
  try_views-passed c cs st end (inl (v, same)) = rw (v, same) refl
  try_views-passed c cs st end (inr (m, v, (next, a, t), over)) =
      let larger : leb m.model_input_tokens max_tokens ≡ false = ground (arith, over) in
      rw (v, a, t, larger) refl

  try_views-Measured :
      (c : CompactionCheckpoint) (cs : List CompactionCheckpoint) (st end : S)
      (m : SelectedModelView T)
      → compacted_view sha256 event_bytes c journal max_bytes ≡ ok m.view
      → Measured sha256 event_bytes assemble_request measure_request_tokens m st end
      → m.model_input_tokens ≤ max_tokens
      → tries (c ∷ cs) st ≡ (ok m, end)
  unfolding try_views
  try_views-Measured c cs st end m v (next, a, t) fits =
      let within : leb m.model_input_tokens max_tokens ≡ true = ground (arith, fits) in
      rw (v, a, t, within) refl

  try_views-AllPassedOver :
      (newer rest : List CompactionCheckpoint) (st end : S)
      → AllPassedOver sha256 event_bytes assemble_request measure_request_tokens journal max_bytes
          max_tokens newer st end
      → tries (newest_first newer ++ rest) st ≡ tries rest end
  unfolding newest_first
  try_views-AllPassedOver [] rest st end same = ap (tries rest) same
  try_views-AllPassedOver (c ∷ newer) rest st end (mid, passed, last) =
      ap (λ l. tries l st) (append_assoc (newest_first newer) (c ∷ []) rest)
      ∙ try_views-AllPassedOver newer (c ∷ rest) st mid passed
      ∙ try_views-passed c rest mid end last

  -- Where, under budgets that are not zero, the request made of the verified view of a checkpoint
  -- is
  -- measured within the model's budget and every checkpoint behind it in the list, which has the
  -- oldest first, does not fit and is passed over before, that request is selected, after these
  -- calls alone.
  pub select_model_view-ok :
      (checkpoints : List CompactionCheckpoint) (st end : S) (m : SelectedModelView T)
      → 0 < max_bytes
      → 0 < max_tokens
      → Found sha256 event_bytes assemble_request measure_request_tokens checkpoints journal
          max_bytes max_tokens m st end
      → select_model_view sha256 event_bytes assemble_request measure_request_tokens checkpoints
          journal max_bytes max_tokens st
        ≡ (ok m, end)
  unfolding select_model_view newest_first
  select_model_view-ok checkpoints st end m bytes tokens
        (older, c, newer, mid, e, passed, seen, measure, fits) =
      let budgeted : (max_bytes == 0 || max_tokens == 0) ≡ false = ground (arith, bytes, tokens) in
      rw budgeted (
        ap (λ l. tries (newest_first l) st) e
        ∙ ap (λ l. tries l st)
            (newest_first-append older (c ∷ newer)
              ∙ append_assoc (newest_first newer) (c ∷ []) (newest_first older))
        ∙ try_views-AllPassedOver newer (c ∷ newest_first older) st mid passed
        ∙ try_views-Measured c (newest_first older) mid end m seen measure fits)
