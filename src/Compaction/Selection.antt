-- ===== src/Compaction/Selection.antt =====
-- crates/phenix-p2-compaction-replay/src/model.rs: the newest checkpoint whose request fits the
-- model.
-- The two callbacks are parameters that pass on a state of their own.
pub mod Newest
pub mod Chosen
use phenix_ai.Prelude.{ℕ, ◌||◌, List, [], ◌∷◌, ◌++◌, leb, ◌==◌, if◌then◌else◌, Option}
use phenix_ai.Contract.Failure.{Result, ok, err}
use phenix_ai.Compaction.Checkpoint.{CompactionCheckpoint}
use phenix_ai.Compaction.Journal.{Event}
use phenix_ai.Compaction.View.{ContextProjection, ViewProblem, over_budget, compacted_view}

pub record SelectedModelView (T : Type 0) : Type 0 where
  pub request : T
  pub view : ContextProjection
  pub model_input_tokens : ℕ

pub data ModelSelectionError (E : Type 0) : Type 0 where
  no_budget no_fitting_view : ModelSelectionError E
  projection : ViewProblem → ModelSelectionError E
  model : E → ModelSelectionError E

-- The order in which the checkpoints are tried.
unfoldable pub newest_first : List CompactionCheckpoint → List CompactionCheckpoint
newest_first [] = []
newest_first (c ∷ cs) = newest_first cs ++ c ∷ []

module _ (sha256 : List ℕ → List ℕ) (event_bytes : Event → Option (List ℕ)) {T E S : Type 0}
    (assemble_request : ContextProjection → S → Result E T × S)
    (measure_request_tokens : T → S → Result E ℕ × S) where
  abbrev pub Selected : Type 0
  Selected = Result (ModelSelectionError E) (SelectedModelView T)

  -- The measured request, or the rest of the loop.
  abbrev pub fitting :
      ℕ → ContextProjection → T → Result E ℕ × S → (S → Selected × S) → Selected × S
  fitting max_tokens view request (err e, st) rest = (err (model e), st)
  fitting max_tokens view request (ok tokens, st) rest =
      if leb tokens max_tokens
      then (ok (record { request = request; view = view; model_input_tokens = tokens }), st)
      else rest st

  abbrev pub measured : ℕ → ContextProjection → Result E T × S → (S → Selected × S) → Selected × S
  measured max_tokens view (err e, st) rest = (err (model e), st)
  measured max_tokens view (ok request, st) rest =
      fitting max_tokens view request (measure_request_tokens request st) rest

  abbrev pub projected :
      ℕ → Result ViewProblem ContextProjection → S → (S → Selected × S) → Selected × S
  projected max_tokens (err over_budget) st rest = rest st
  projected max_tokens (err problem) st rest = (err (projection problem), st)
  projected max_tokens (ok view) st rest = measured max_tokens view (assemble_request view st) rest

  -- The loop over the checkpoints, the newest in front.
  unfoldable pub try_views : List CompactionCheckpoint → List Event → ℕ → ℕ → S → Selected × S
  try_views [] journal max_bytes max_tokens st = (err no_fitting_view, st)
  try_views (c ∷ cs) journal max_bytes max_tokens st =
      projected max_tokens (compacted_view sha256 event_bytes c journal max_bytes) st
        (try_views cs journal max_bytes max_tokens)

  -- `select_model_view`
  unfoldable pub select_model_view :
      List CompactionCheckpoint → List Event → ℕ → ℕ → S → Selected × S
  select_model_view checkpoints journal max_bytes max_tokens st =
      if max_bytes == 0 || max_tokens == 0
      then (err no_budget, st)
      else try_views (newest_first checkpoints) journal max_bytes max_tokens st
