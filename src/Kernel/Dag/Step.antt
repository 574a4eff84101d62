-- ===== src/Kernel/Dag/Step.antt =====
-- One call of `visit`, by the way that it leaves the function.
use phenix_ai.Prelude.{
  ℕ, suc, ◌≡◌, inl, inr, true, false, none, some, List, [], ◌∷◌, ◌++◌, drop, is_some, position,
  Bool-cases, Option-cases,
}
use phenix_ai.Prelude.Order.{Text, text_ord, ◌=?◌}
use phenix_ai.Prelude.Map.{Map, get}
use phenix_ai.Kernel.Dag.{Visited, ok, cycle, panic, ◌>>=◌, visit_each, finish, visit}

module _ (predecessors : Map Text (List Text)) where
  abbrev pub Call : ℕ → List Text → Text → List Text → Visited → Type 0
  Call fuel path id ds s =
      visit predecessors (suc fuel) path id s
      ≡ (visit_each (visit predecessors fuel (path ++ id ∷ [])) ds s >>= λ s'. ok (finish id s'))

  pub data Exit (fuel : ℕ) (path : List Text) (id : Text) (s : Visited) : Type 0 where
    on_path :
        (at : ℕ)
        → position (λ node. node =? id) path ≡ some at
        → visit predecessors (suc fuel) path id s ≡ cycle (drop at path ++ id ∷ [])
        → Exit fuel path id s
    already :
        is_some (get id s.done) ≡ true
        → visit predecessors (suc fuel) path id s ≡ ok s
        → Exit fuel path id s
    unknown :
        get id predecessors ≡ none
        → visit predecessors (suc fuel) path id s ≡ panic
        → Exit fuel path id s
    searched :
        (ds : List Text)
        → position (λ node. node =? id) path ≡ none
        → is_some (get id s.done) ≡ false
        → get id predecessors ≡ some ds
        → Call fuel path id ds s
        → Exit fuel path id s

  pub visit-Exit : (fuel : ℕ) (path : List Text) (id : Text) (s : Visited) → Exit fuel path id s
  unfolding visit
  visit-Exit fuel path id s = elim (Option-cases (position (λ node. node =? id) path)) [
    | inr (at, e) ↦ on_path at e (rw (e, visit))
    | inl e ↦ elim (Bool-cases (is_some (get id s.done))) [
      | inl old ↦ already old (rw (e, visit, old))
      | inr new ↦ elim (Option-cases (get id predecessors)) [
        | inl missing ↦ unknown missing (rw (e, visit, new, missing))
        | inr (ds, there) ↦ searched ds e new there (rw (e, visit, new, there))
      ]
    ]
  ]
