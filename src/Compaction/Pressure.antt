-- ===== src/Compaction/Pressure.antt =====
-- crates/phenix-p2-compaction-replay/src/budget.rs, with the measurement's verification in
-- crates/phenix-advanced-contracts/src/model_tokens.rs: when a request presses for a checkpoint.
-- The digest of the request, over its derived encoding, is a parameter.
use phenix_ai.Prelude.{
  ℕ, ◌+◌, ◌*◌, ◌≤◌, ◌<◌, ◌≡◌, ◌≢◌, refl, sym, ap, subst, ◌∙◌, Bool, true, not, ◌&&◌, ◌||◌, Option,
  none, some, leb, ltb, ◌==◌, arith, if◌then◌else◌, length, u64_max, checked_add,
}
use phenix_ai.Prelude.Order.{Text, text_ord, ◌=?◌, =?_iff}
use phenix_ai.Prelude.Chars.{is_blank}
use phenix_ai.Contract.Failure.{
  Result, ok, err, ◌>>=◌, ◌>>◌, guard, ok_or, >>=-eq-ok, guard-eq-ok, ok_or-eq-ok, guard-eq-err,
  ok_or-eq-err, ok_injective,
}
use phenix_ai.Compaction.Checkpoint.{valid_digest}

pub record ModelTokenMeasurement : Type 0 where
  pub model : Text
  pub tokenizer_revision : Text
  pub request_sha256 : Text
  pub input_tokens : ℕ
  pub context_window_tokens : ℕ

pub data ModelTokenProblem : Type 0 where
  unsupported invalid_measurement model_changed request_changed over_budget scope_denied
        provider_failed :
      ModelTokenProblem

pub data CheckpointPressure : Type 0 where
  enough_headroom at_threshold over_context_window : CheckpointPressure

pub data PressureProblem : Type 0 where
  invalid_threshold : PressureProblem
  measurement : ModelTokenProblem → PressureProblem

-- `is_none_or(|total| total > window)`
abbrev pub exceeds : ℕ → Option ℕ → Bool
exceeds window none = true
exceeds window (some total) = ltb window total

-- `limits.model_tokens.unwrap_or(0)`
abbrev pub reserve : Option ℕ → ℕ
reserve none = 0
reserve (some n) = n

-- The last check of `validate_model_token_measurement`.
abbrev pub within : ModelTokenMeasurement → ℕ → Result ModelTokenProblem (Unit {0})
within m reserved =
    guard
      (not (reserved == 0 || exceeds m.context_window_tokens (checked_add m.input_tokens reserved)))
      over_budget

-- The end of `checkpoint_pressure`, in `u128` arithmetic.
unfoldable pub pressed : ModelTokenMeasurement → ℕ → ℕ → CheckpointPressure
pressed m output_reserve percent =
    if leb (m.context_window_tokens * percent) ((m.input_tokens + output_reserve) * 100)
    then at_threshold
    else enough_headroom

unfoldable pub pressure_of :
    ModelTokenMeasurement
    → ℕ
    → ℕ
    → Result ModelTokenProblem (Unit {0})
    → Result PressureProblem CheckpointPressure
pressure_of m output_reserve percent (ok u) = ok (pressed m output_reserve percent)
pressure_of m output_reserve percent (err over_budget) =
    if not (output_reserve == 0)
    then (if leb m.context_window_tokens output_reserve
        then err (measurement over_budget)
        else ok over_context_window)
    else err (measurement over_budget)
pressure_of m output_reserve percent (err problem) = err (measurement problem)

module _ {Request : Type 0} (request_digest : Request → Option Text)
    (model_tokens : Request → Option ℕ) where
  -- `validate_model_token_measurement`
  unfoldable pub validate_measurement :
      Request → ModelTokenMeasurement → Text → ℕ → Result ModelTokenProblem (Unit {0})
  validate_measurement request m selected_model reserved = do
    guard
        (not (
          is_blank m.model
          || is_blank m.tokenizer_revision
          || m.input_tokens == 0
          || m.context_window_tokens == 0
          || not (valid_digest m.request_sha256)))
        invalid_measurement
    guard (not (length selected_model == 0) && m.model =? selected_model) model_changed
    digest ← ok_or (request_digest request) invalid_measurement
    guard (digest =? m.request_sha256) request_changed
    within m reserved

  -- `checkpoint_pressure`
  unfoldable pub checkpoint_pressure :
      Request → ModelTokenMeasurement → Text → ℕ → Result PressureProblem CheckpointPressure
  checkpoint_pressure request m selected_model percent = do
    guard (leb 1 percent && leb percent 100) invalid_threshold
    pressure_of m (reserve (model_tokens request)) percent
        (validate_measurement request m selected_model (reserve (model_tokens request)))

  -- The measurement is of this request and of the selected model.
  abbrev pub Authentic : Request → ModelTokenMeasurement → Text → Type 0
  Authentic request m selected_model =
      (request_digest request ≡ some m.request_sha256) × (m.model ≡ selected_model)

  validate_measurement-eq-ok :
      (request : Request) (m : ModelTokenMeasurement) (selected_model : Text) (reserved : ℕ)
      → validate_measurement request m selected_model reserved ≡ ok tt
      → Authentic request m selected_model × (m.input_tokens + reserved ≤ m.context_window_tokens)
  unfolding validate_measurement checked_add
  validate_measurement-eq-ok request m selected_model reserved h =
      let (_, k) = guard-eq-ok _ invalid_measurement _ h in
      let (same, k2) =
        guard-eq-ok (not (length selected_model == 0) && m.model =? selected_model) model_changed _
          k in
      let (digest, found, k3) =
        >>=-eq-ok (ok_or (request_digest request) invalid_measurement) _ k2 in
      let (eq, k4) =
        guard-eq-ok (digest =? m.request_sha256) request_changed (within m reserved) k3 in
      (
        (
          ok_or-eq-ok (request_digest request) invalid_measurement found
              ∙ ap some ((=?_iff digest m.request_sha256).0 eq),
          (=?_iff m.model selected_model).0 (ground (arith, same)),
        ),
        ground (arith, k4),
      )

  validate_measurement-over :
      (request : Request) (m : ModelTokenMeasurement) (selected_model : Text) (reserved : ℕ)
      → m.context_window_tokens ≤ u64_max
      → reserved ≢ 0
      → validate_measurement request m selected_model reserved ≡ err over_budget
      → Authentic request m selected_model × (m.context_window_tokens < m.input_tokens + reserved)
  unfolding validate_measurement checked_add
  validate_measurement-over request m selected_model reserved u n h =
      let (_, k) = guard-eq-err _ invalid_measurement _ (λ e. cc) h in
      let (same, k2) =
        guard-eq-err (not (length selected_model == 0) && m.model =? selected_model) model_changed _
          (λ e. cc) k in
      let (digest, found, k3) =
        ok_or-eq-err (request_digest request) invalid_measurement _ (λ e. cc) k2 in
      let (eq, k4) =
        guard-eq-err (digest =? m.request_sha256) request_changed (within m reserved) (λ e. cc)
          k3 in
      (
        (
          found ∙ ap some ((=?_iff digest m.request_sha256).0 eq),
          (=?_iff m.model selected_model).0 (ground (arith, same)),
        ),
        ground (arith, k4, u, n),
      )

-- What a pressure says of the tokens.
abbrev pub Says : CheckpointPressure → ModelTokenMeasurement → ℕ → ℕ → Type 0
Says enough_headroom m output_reserve percent =
    (m.input_tokens + output_reserve ≤ m.context_window_tokens)
    × ((m.input_tokens + output_reserve) * 100 < m.context_window_tokens * percent)
Says at_threshold m output_reserve percent =
    (m.input_tokens + output_reserve ≤ m.context_window_tokens)
    × (m.context_window_tokens * percent ≤ (m.input_tokens + output_reserve) * 100)
Says over_context_window m output_reserve percent =
    (m.context_window_tokens < m.input_tokens + output_reserve)
    × (output_reserve < m.context_window_tokens)

pressed-Says :
    (m : ModelTokenMeasurement) (output_reserve percent : ℕ) (pressure : CheckpointPressure)
    → m.input_tokens + output_reserve ≤ m.context_window_tokens
    → pressed m output_reserve percent ≡ pressure
    → Says pressure m output_reserve percent
unfolding pressed
pressed-Says m output_reserve percent enough_headroom f h = (f, ground (arith, h))
pressed-Says m output_reserve percent at_threshold f h = (f, ground (arith, h))
pressed-Says m output_reserve percent over_context_window f h = absurd (ground (arith, h))

over-Says :
    (m : ModelTokenMeasurement) (output_reserve percent : ℕ) (pressure : CheckpointPressure)
    → pressure_of m output_reserve percent (err over_budget) ≡ ok pressure
    → (output_reserve ≢ 0)
      × (output_reserve < m.context_window_tokens)
      × (pressure ≡ over_context_window)
unfolding pressure_of
over-Says m output_reserve percent pressure h =
    (ground (arith, h), ground (arith, h), ground (arith, h))

module _ {Request : Type 0} (request_digest : Request → Option Text)
    (model_tokens : Request → Option ℕ) where
  -- For a context window of 64 bits, a pressure that is reported rests on an authentic measurement
  -- of the request for the selected model, under a percentage from 1 to 100, and is right about the
  -- tokens: below the threshold, at or above it within the window, or beyond the window with an
  -- output reserve that alone is below it.
  pub checkpoint_pressure-Says :
      (request : Request) (m : ModelTokenMeasurement) (selected_model : Text) (percent : ℕ)
      (pressure : CheckpointPressure)
      → m.context_window_tokens ≤ u64_max
      → checkpoint_pressure request_digest model_tokens request m selected_model percent
        ≡ ok pressure
      → Authentic request_digest model_tokens request m selected_model
        × (1 ≤ percent)
        × (percent ≤ 100)
        × Says pressure m (reserve (model_tokens request)) percent
  unfolding checkpoint_pressure pressure_of
  checkpoint_pressure-Says request m selected_model percent pressure u h =
      let (range, k) = guard-eq-ok (leb 1 percent && leb percent 100) invalid_threshold _ h in
      let r = reserve (model_tokens request) in
      let (a, s) =
        pressure_of-Says
          (validate_measurement request_digest model_tokens request m selected_model r) refl k in
      (a, ground (arith, range), ground (arith, range), s)
    where
      pressure_of-Says :
          (v : Result ModelTokenProblem (Unit {0}))
          → validate_measurement request_digest model_tokens request m selected_model
              (reserve (model_tokens request))
            ≡ v
          → pressure_of m (reserve (model_tokens request)) percent v ≡ ok pressure
          → Authentic request_digest model_tokens request m selected_model
            × Says pressure m (reserve (model_tokens request)) percent
      pressure_of-Says (ok _) e k =
          let (a, fits) =
            validate_measurement-eq-ok request_digest model_tokens request m selected_model
              (reserve (model_tokens request)) e in
          (
            a,
            pressed-Says m (reserve (model_tokens request)) percent pressure fits (ok_injective k),
          )
      pressure_of-Says (err over_budget) e k =
          let (some_reserve, below, is) =
            over-Says m (reserve (model_tokens request)) percent pressure k in
          let (a, over) =
            validate_measurement-over request_digest model_tokens request m selected_model
              (reserve (model_tokens request)) u some_reserve e in
          (a, subst (λ p. Says p m (reserve (model_tokens request)) percent) (sym is) (over, below))
      pressure_of-Says (err unsupported) e k = cc
      pressure_of-Says (err invalid_measurement) e k = cc
      pressure_of-Says (err model_changed) e k = cc
      pressure_of-Says (err request_changed) e k = cc
      pressure_of-Says (err scope_denied) e k = cc
      pressure_of-Says (err provider_failed) e k = cc
