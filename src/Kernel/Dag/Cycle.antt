-- ===== src/Kernel/Dag/Cycle.antt =====
-- A reported cycle is a closed walk along predecessors.
use phenix_ai.Prelude.{
  ℕ, zero, suc, ◌≡◌, sym, ap, ◌∙◌, subst, inl, inr, true, some, List, [], ◌∷◌, ◌++◌, arith, length,
  drop, position,
}
use phenix_ai.Prelude.Order.{Text, text_ord, ◌=?◌, =?_iff, =?_refl}
use phenix_ai.Prelude.Map.{Map, get, keys}
use phenix_ai.Kernel.Dag.{
  Visited, Outcome, ok, cycle, >>=-eq-cycle, elem, visit_each, finish, visit, start, order,
}
use phenix_ai.Kernel.Dag.Step.{visit-Exit, on_path, already, unknown, searched}
use phenix_ai.Kernel.Dag.Relation.{Chain, Chain-tail, Chain-snoc, IsCycle}

-- `path[at..]` begins with the node that was found at `at`.
drop-position :
    (id : Text) (path : List Text) (at : ℕ)
    → position (λ node. node =? id) path ≡ some at
    → (rest : List Text) × (drop at path ≡ id ∷ rest)
unfolding position
drop-position id [] at h = cc
drop-position id (x ∷ xs) zero h = (xs, ground (arith, (=?_iff x id).0))
drop-position id (x ∷ xs) (suc at) h = drop-position id xs at (ground arith)

module _ (predecessors : Map Text (List Text)) where
  Chain-drop :
      (at : ℕ) (path tail : List Text)
      → Chain predecessors (path ++ tail)
      → Chain predecessors (drop at path ++ tail)
  Chain-drop zero path tail c = c
  Chain-drop (suc at) [] tail c = c
  Chain-drop (suc at) (x ∷ path) tail c =
      Chain-drop at path tail (Chain-tail predecessors x (path ++ tail) c)

  -- The nodes `ids` may follow the path: each is a predecessor of its last node, if it has one.
  abbrev Follow : List Text → List Text → Type 0
  Follow path [] = Unit {0}
  Follow path (id ∷ ids) = Chain predecessors (path ++ id ∷ []) × Follow path ids

  Follow-dependencies :
      (path : List Text) (id : Text) (ds all_ds : List Text)
      → Chain predecessors (path ++ id ∷ [])
      → get id predecessors ≡ some all_ds
      → ((d : Text) → elem d ds ≡ true → elem d all_ds ≡ true)
      → Follow (path ++ id ∷ []) ds
  Follow-dependencies path id [] all_ds c e sub = tt
  Follow-dependencies path id (d ∷ ds) all_ds c e sub = (
    Chain-snoc predecessors path id d c (all_ds, e, sub d (ground (arith, =?_refl d))),
    Follow-dependencies path id ds all_ds c e (λ k h. sub k (ground arith)),
  )

  visit_each-IsCycle :
      (go : Text → Visited → Outcome Visited) (path : List Text)
      → ((id : Text) (s : Visited) (walk : List Text)
          → Chain predecessors (path ++ id ∷ [])
          → go id s ≡ cycle walk
          → IsCycle predecessors walk)
      → (ids : List Text) (s : Visited) (walk : List Text) → Follow path ids
      → visit_each go ids s ≡ cycle walk
      → IsCycle predecessors walk
  unfolding visit_each
  visit_each-IsCycle go path step [] s walk f h = cc
  visit_each-IsCycle go path step (id ∷ ids) s walk f h =
      elim (>>=-eq-cycle (go id s) (visit_each go ids) h) [
        | inl first ↦ step id s walk f.0 first
        | inr (s', _, rest) ↦ visit_each-IsCycle go path step ids s' walk f.1 rest
      ]

  visit-IsCycle :
      (fuel : ℕ) (path : List Text) (id : Text) (s : Visited) (walk : List Text)
      → Chain predecessors (path ++ id ∷ [])
      → visit predecessors fuel path id s ≡ cycle walk
      → IsCycle predecessors walk
  unfolding visit
  visit-IsCycle zero path id s walk c h = cc
  visit-IsCycle (suc fuel) path id s walk c h = elim (visit-Exit predecessors fuel path id s) [
    | on_path at e v ↦
        let (rest, d) = drop-position id path at e in
        let chain = Chain-drop at path (id ∷ []) c in
        subst (IsCycle predecessors) (cc) (id, rest, ap (λ p. p ++ id ∷ []) d, chain)
    | already old v ↦ cc
    | unknown e v ↦ cc
    | searched ds e new there v ↦ elim (>>=-eq-cycle _ (λ t. ok (finish id t)) (sym v ∙ h)) [
      | inl below ↦
          visit_each-IsCycle (visit predecessors fuel (path ++ id ∷ [])) (path ++ id ∷ [])
            (λ d t w. visit-IsCycle fuel (path ++ id ∷ []) d t w) ds s walk
            (Follow-dependencies path id ds ds c there (λ d m. m)) below
      | inr (t, _, last) ↦ cc
    ]
  ]

  Follow-start : (ids : List Text) → Follow [] ids
  Follow-start [] = tt
  Follow-start (id ∷ ids) = (tt, Follow-start ids)

  -- The path that a failed search reports is a cycle of the predecessor map: a walk from each node
  -- to one of its predecessors that ends where it began.
  pub order-IsCycle :
      (walk : List Text) → order predecessors ≡ cycle walk → IsCycle predecessors walk
  unfolding order
  order-IsCycle walk h =
      let fuel : ℕ = suc (length predecessors) in
      elim (>>=-eq-cycle _ (λ (t : Visited). ok t.result) h) [
        | inl failed ↦
            visit_each-IsCycle (visit predecessors fuel []) []
              (λ id t w. visit-IsCycle fuel [] id t w) (keys predecessors) start walk
              (Follow-start (keys predecessors)) failed
        | inr (s, _, last) ↦ cc
      ]
