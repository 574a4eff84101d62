-- ===== src/Kernel/Dag/Examples.antt =====
-- Runs of the order on the graphs of the source's own tests, and the theorems at them.
use phenix_ai.Prelude.{◌≡◌, refl, ◌⊎◌, true, List, [], ◌∷◌, All, is_some, position}
use phenix_ai.Prelude.Order.{Text, text_ord, compare_text, ascii}
use phenix_ai.Prelude.Map.{Map, get, insert, keys, get-All}
use phenix_ai.Kernel.Dag.{ok, cycle, elem, visit_each, visit, order}
use phenix_ai.Kernel.Dag.Relation.{OrderedAfter, IsCycle}
use phenix_ai.Kernel.Dag.Sound.{order-OrderedAfter}
use phenix_ai.Kernel.Dag.Cycle.{order-IsCycle}
use phenix_ai.Kernel.Dag.Total.{IsClosed, order-total}

abbrev node_a : Text
node_a = ascii "a"

abbrev node_b : Text
node_b = ascii "b"

abbrev node_c : Text
node_c = ascii "c"

abbrev joined : Map Text (List Text)
joined = (node_a, []) ∷ (node_b, []) ∷ (node_c, node_a ∷ node_b ∷ []) ∷ []

abbrev cyclic : Map Text (List Text)
cyclic = (node_a, node_b ∷ []) ∷ (node_b, node_c ∷ []) ∷ (node_c, node_a ∷ []) ∷ []

order-joined : order joined ≡ ok (node_a ∷ node_b ∷ node_c ∷ [])
unfolding order visit visit_each get insert compare_text position
order-joined = refl

order-cyclic : order cyclic ≡ cycle (node_a ∷ node_b ∷ node_c ∷ node_a ∷ [])
unfolding order visit visit_each get insert compare_text position
order-cyclic = refl

order-OrderedAfter_example :
    OrderedAfter joined [] (node_a ∷ node_b ∷ node_c ∷ [])
    × All (λ id. elem id (node_a ∷ node_b ∷ node_c ∷ []) ≡ true) (keys joined)
order-OrderedAfter_example = order-OrderedAfter joined (node_a ∷ node_b ∷ node_c ∷ []) order-joined

order-IsCycle_example : IsCycle cyclic (node_a ∷ node_b ∷ node_c ∷ node_a ∷ [])
order-IsCycle_example = order-IsCycle cyclic (node_a ∷ node_b ∷ node_c ∷ node_a ∷ []) order-cyclic

abbrev closed_pair : Map Text (List Text)
closed_pair = (node_a, []) ∷ (node_b, node_a ∷ []) ∷ []

closed_pair-IsClosed : IsClosed closed_pair
unfolding get compare_text
closed_pair-IsClosed id ds e =
    get-All (λ ds. All (λ d. is_some (get d closed_pair) ≡ true) ds) id closed_pair
      (tt, ((refl, tt), tt)) e

order-total_example :
    ((listed : List Text) × (order closed_pair ≡ ok listed))
    ⊎ ((walk : List Text) × (order closed_pair ≡ cycle walk))
order-total_example = order-total closed_pair closed_pair-IsClosed
