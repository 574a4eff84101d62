-- ===== src/Kernel/Dag/Relation.antt =====
-- What an order and a cycle of the predecessor map are, apart from the search.
use mathlib.Core.List.{append-nil, append_assoc}
use phenix_ai.Prelude.{◌≡◌, sym, true, false, some, List, [], ◌∷◌, ◌++◌, All}
use phenix_ai.Prelude.Order.{Text, text_ord}
use phenix_ai.Prelude.Map.{Map, get}
use phenix_ai.Kernel.Dag.{elem}

module _ (predecessors : Map Text (List Text)) where
  -- `y` is among the predecessors of `x`.
  abbrev pub Edge : Text → Text → Type 0
  Edge x y = (ds : List Text) × (get x predecessors ≡ some ds) × (elem y ds ≡ true)

  -- `x` is a key all of whose predecessors are listed.
  abbrev pub Supported : Text → List Text → Type 0
  Supported x listed =
      (ds : List Text) × (get x predecessors ≡ some ds) × All (λ d. elem d listed ≡ true) ds

  -- Each node comes once, and after all of its predecessors.
  abbrev pub OrderedAfter : List Text → List Text → Type 0
  OrderedAfter listed [] = Unit {0}
  OrderedAfter listed (x ∷ xs) =
      (elem x listed ≡ false) × Supported x listed × OrderedAfter (listed ++ x ∷ []) xs

  abbrev pub Chain : List Text → Type 0
  Chain [] = Unit {0}
  Chain (x ∷ []) = Unit {0}
  Chain (x ∷ y ∷ rest) = Edge x y × Chain (y ∷ rest)

  -- A walk along predecessors that returns to where it began.
  abbrev pub IsCycle : List Text → Type 0
  IsCycle walk = (x : Text) × (middle : List Text) × (walk ≡ x ∷ (middle ++ x ∷ [])) × Chain walk

  pub Chain-tail : (x : Text) (xs : List Text) → Chain (x ∷ xs) → Chain xs
  Chain-tail x [] c = tt
  Chain-tail x (y ∷ ys) c = c.1

  pub Chain-snoc :
      (xs : List Text) (a b : Text)
      → Chain (xs ++ a ∷ [])
      → Edge a b
      → Chain ((xs ++ a ∷ []) ++ b ∷ [])
  Chain-snoc [] a b c e = (e, tt)
  Chain-snoc (x ∷ []) a b c e = (c.0, (e, tt))
  Chain-snoc (x ∷ y ∷ ys) a b c e = (c.0, Chain-snoc (y ∷ ys) a b c.1 e)

  pub OrderedAfter-snoc :
      (listed xs : List Text) (x : Text)
      → OrderedAfter listed xs
      → elem x (listed ++ xs) ≡ false
      → Supported x (listed ++ xs)
      → OrderedAfter listed (xs ++ x ∷ [])
  OrderedAfter-snoc listed [] x o f s = let e = append-nil listed in (rw e at f, rw e at s, tt)
  OrderedAfter-snoc listed (y ∷ ys) x o f s =
      let e = sym (append_assoc listed (y ∷ []) ys) in
      (o.0, o.1, OrderedAfter-snoc (listed ++ y ∷ []) ys x o.2 (rw e at f) (rw e at s))
