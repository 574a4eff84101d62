-- ===== src/Kernel/Dag.antt =====
-- crates/phenix-kernel/src/dag.rs: the deterministic dependency order, by depth-first search.
-- A predecessor set is the list that its iterator yields. Recursion takes fuel: one unit for each
-- level of the search, which the path bounds.
pub mod Relation
mod Step
pub mod Sound
pub mod Cycle
pub mod Total
mod Examples
use phenix_ai.Prelude.{
  ℕ, zero, suc, Bool, Option, none, some, List, [], ◌∷◌, ◌++◌, ◌≡◌, refl, ◌⊎◌, inl, inr, arith,
  if◌then◌else◌, length, drop, any, is_some, position,
}
use phenix_ai.Prelude.Order.{Text, text_ord, ◌=?◌}
use phenix_ai.Prelude.Map.{Map, get, insert, keys}

-- `Result<_, Vec<String>>`, with the panic of `predecessors[id]` and the model's own fuel.
pub data Outcome (A : Type 0) : Type 0 where
  ok : A → Outcome A
  cycle : List Text → Outcome A
  panic : Outcome A
  out_of_fuel : Outcome A

infixl 5 ◌>>=◌
abbrev pub ◌>>=◌ : {A B : Type 0} → Outcome A → (A → Outcome B) → Outcome B
ok a >>= f = f a
cycle c >>= f = cycle c
panic >>= f = panic
out_of_fuel >>= f = out_of_fuel

-- Inversion of a successful bind.
>>=-eq-ok :
    {A B : Type 0} (first : Outcome A) (rest : A → Outcome B) {last : B}
    → (first >>= rest) ≡ ok last
    → (between : A) × (first ≡ ok between) × (rest between ≡ ok last)
>>=-eq-ok (ok between) f h = (between, refl, h)
>>=-eq-ok (cycle c) f h = cc
>>=-eq-ok panic f h = cc
>>=-eq-ok out_of_fuel f h = cc

-- A bind reports the cycle of its first part, or that of its second.
>>=-eq-cycle :
    {A B : Type 0} (m : Outcome A) (f : A → Outcome B) {c : List Text}
    → (m >>= f) ≡ cycle c
    → (m ≡ cycle c) ⊎ ((a : A) × (m ≡ ok a) × (f a ≡ cycle c))
>>=-eq-cycle (ok a) f h = inr (a, refl, h)
>>=-eq-cycle (cycle c) f h = inl (ground arith)
>>=-eq-cycle panic f h = cc
>>=-eq-cycle out_of_fuel f h = cc

-- The two accumulators that `visit` borrows mutably.
pub record Visited : Type 0 where
  pub done : Map Text (Unit {0})
  pub result : List Text

abbrev pub elem : Text → List Text → Bool
elem x = any (λ y. y =? x)

-- `for dependency in … { visit(dependency, …)?; }`
unfoldable pub visit_each :
    (Text → Visited → Outcome Visited) → List Text → Visited → Outcome Visited
visit_each go [] s = ok s
visit_each go (id ∷ ids) s = go id s >>= λ s'. visit_each go ids s'

pub finish : Text → Visited → Visited
finish id s = record { done = insert id tt s.done; result = s.result ++ id ∷ [] }

unfoldable pub visit : Map Text (List Text) → ℕ → List Text → Text → Visited → Outcome Visited
unfolding finish
visit predecessors zero path id s = out_of_fuel
visit predecessors (suc fuel) path id s = elim (position (λ node. node =? id) path) [
  | some at ↦ cycle (drop at path ++ id ∷ [])
  | none ↦ if is_some (get id s.done) then ok s else elim (get id predecessors) [
    | none ↦ panic
    | some dependencies ↦
        visit_each (visit predecessors fuel (path ++ id ∷ [])) dependencies s >>= λ s'.
        ok (finish id s')
  ]
]

abbrev pub start : Visited
start = record { done = []; result = [] }

unfoldable pub order : Map Text (List Text) → Outcome (List Text)
order predecessors =
    visit_each (visit predecessors (suc (length predecessors)) []) (keys predecessors) start
    >>= λ s. ok s.result
