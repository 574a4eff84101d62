-- ===== src/Kernel/Cells/Commit/Write.antt =====
-- The second loop of `commit`: what it writes under each key, and that it always finds its cells.
use phenix_ai.Prelude.{
  ℕ, ◌≡◌, refl, ap, ◌∙◌, inl, inr, true, false, Option, none, some, List, [], ◌∷◌, arith,
  if◌then◌else◌, All, is_some, Bool-cases, Option-cases,
}
use phenix_ai.Prelude.Order.{Text, text_ord, ◌=?◌, =?_iff}
use phenix_ai.Prelude.Map.{Map, get, insert, get-insert}
use phenix_ai.Contract.Value.{Value}
use phenix_ai.Kernel.Cells.State.{Cell}
use phenix_ai.Kernel.Cells.Commit.{CompareExchange, next_snapshot, prepend, write_edits}

-- What the edits of a batch make of the cell `id`, in order.
abbrev pub edit_cell : ℕ → Text → List CompareExchange → Cell → Cell
edit_cell epoch id [] c = c
edit_cell epoch id (edit ∷ edits) c = edit_cell epoch id edits (
    if id =? edit.location.cell
    then record c { snapshot = next_snapshot epoch edit.value c.snapshot }
    else c)

abbrev pub edit_found : ℕ → Text → List CompareExchange → Option Cell → Option Cell
edit_found epoch id edits none = none
edit_found epoch id edits (some c) = some (edit_cell epoch id edits c)

write_edits-cons :
    (epoch : ℕ) (edit : CompareExchange) (edits : List CompareExchange)
    (cells cells' : Map Text Cell) (vs : List Value)
    → write_edits epoch (edit ∷ edits) cells ≡ some (cells', vs)
    → (c : Cell) × (vs' : List Value) × (get edit.location.cell cells ≡ some c)
      × (write_edits epoch edits (
            insert edit.location.cell
              (record c { snapshot = next_snapshot epoch edit.value c.snapshot })
              cells)
          ≡ some (cells', vs'))
unfolding write_edits
write_edits-cons epoch edit edits cells cells' vs h =
    elim (Option-cases (get edit.location.cell cells)) [
      | inl e ↦ absurd (ground arith)
      | inr (c, e) ↦
          elim (Option-cases (
            write_edits epoch edits (
              insert edit.location.cell
                (record c { snapshot = next_snapshot epoch edit.value c.snapshot }) cells))) [
                  | inl f ↦ absurd (ground arith)
                  | inr ((cells'', vs'), f) ↦ (c, vs', e, ground arith)
                ]
    ]

edit_found-miss :
    (epoch : ℕ) (id : Text) (edit : CompareExchange) (edits : List CompareExchange)
    → (id =? edit.location.cell) ≡ false
    → (o : Option Cell) → edit_found epoch id edits o ≡ edit_found epoch id (edit ∷ edits) o
edit_found-miss epoch id edit edits miss none = refl
edit_found-miss epoch id edit edits miss (some c) = rw miss

is_some-prepend :
    (v : Value) (o : Option (Map Text Cell × List Value)) → is_some (prepend v o) ≡ is_some o
unfolding prepend
is_some-prepend v none = refl
is_some-prepend v (some r) = refl

pub write_edits-get :
    (epoch : ℕ) (edits : List CompareExchange) (cells cells' : Map Text Cell) (vs : List Value)
    → write_edits epoch edits cells ≡ some (cells', vs)
    → (id : Text) → get id cells' ≡ edit_found epoch id edits (get id cells)
unfolding write_edits
write_edits-get epoch [] cells cells' vs h id = ground arith
write_edits-get epoch (edit ∷ edits) cells cells' vs h id =
    let (c, vs', e, rest) = write_edits-cons epoch edit edits cells cells' vs h in
    let ih = write_edits-get epoch edits _ cells' vs' rest id in
    let c' : Cell = record c { snapshot = next_snapshot epoch edit.value c.snapshot } in
    elim (Bool-cases (id =? edit.location.cell)) [
      | inl hit ↦
          let same : id ≡ edit.location.cell = (=?_iff id edit.location.cell).0 hit in
          ih
          ∙ rw (get-insert edit.location.cell id c' cells, hit, ap (λ k. get k cells) same, e, hit)
      | inr miss ↦
          ih
          ∙ rw (get-insert edit.location.cell id c' cells, miss)
              (edit_found-miss epoch id edit edits miss (get id cells))
    ]

present-insert :
    (id : Text) (c : Cell) (cells : Map Text Cell) (edits : List CompareExchange)
    → All (λ edit. is_some (get edit.location.cell cells) ≡ true) edits
    → All (λ edit. is_some (get edit.location.cell (insert id c cells)) ≡ true) edits
present-insert id c cells [] a = tt
present-insert id c cells (edit ∷ edits) a = (
  ground (arith, get-insert id edit.location.cell c cells, a.0),
  present-insert id c cells edits a.1,
)

-- Every cell is there, so no `unwrap` fails.
pub write_edits-total :
    (epoch : ℕ) (edits : List CompareExchange) (cells : Map Text Cell)
    → All (λ edit. is_some (get edit.location.cell cells) ≡ true) edits
    → is_some (write_edits epoch edits cells) ≡ true
unfolding write_edits
write_edits-total epoch [] cells a = refl
write_edits-total epoch (edit ∷ edits) cells a =
    elim (Option-cases (get edit.location.cell cells)) [
      | inl e ↦ absurd (ground arith)
      | inr (c, e) ↦
          let c' : Cell = record c { snapshot = next_snapshot epoch edit.value c.snapshot } in
          rw (e, write_edits)
            (is_some-prepend _ _
              ∙ (write_edits-total epoch edits (insert edit.location.cell c' cells)
                  (present-insert edit.location.cell c' cells edits a.1)))
    ]
