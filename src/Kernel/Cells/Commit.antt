-- ===== src/Kernel/Cells/Commit.antt =====
-- `commit` and `compare_exchange`. Revisions wrap at 64 bits, as the unchecked sum of the source.
pub mod Write
pub mod Effect
pub mod Once
use phenix_ai.Prelude.{
  ℕ, suc, ◌+◌, ◌%◌, ◌^◌, ◌≡◌, Bool, true, false, Option, none, some, List, [], ◌∷◌, ◌++◌, ◌==◌,
  checked_add, is_some,
}
use phenix_ai.Prelude.Order.{Text, text_ord}
use phenix_ai.Prelude.Map.{Map, get, insert}
use phenix_ai.Contract.Failure.{Result, ok, err, ◌>>=◌, ◌>>◌, guard, ok_or}
use phenix_ai.Contract.Identity.{ValueLocation}
use phenix_ai.Contract.Value.{Value, u64, list}
use phenix_ai.Contract.Schema.{accepts}
use phenix_ai.Kernel.Cells.State.{
  AccessError, Access, conflict, schema_mismatch, revision_exhausted, epoch_exhausted, Snapshot,
  Cell, Cells, cell, read, list_of, snapshot_value,
}

-- `CompareExchange` of the contract crate.
pub record CompareExchange : Type 0 where
  pub location : ValueLocation
  pub expected : ℕ
  pub value : Value

-- What a batch ends with: an error of the protocol, or the panic of an `unwrap`.
pub data Ending (A : Type 0) : Type 0 where
  done : A → Ending A
  refused : AccessError → Ending A
  panicked : Ending A

-- The first loop of `commit`: one edit is checked.
unfoldable pub check_edit : Cells → CompareExchange → Access (Unit {0})
check_edit s edit = do
  c ← cell s edit.location
  guard (accepts c.property.schema edit.value) schema_mismatch
  guard (edit.expected == c.snapshot.revision) (conflict edit.expected c.snapshot.revision)
  guard (is_some (checked_add c.snapshot.revision 1)) revision_exhausted

unfoldable pub check_edits : Cells → List CompareExchange → Access (Unit {0})
check_edits s [] = ok tt
check_edits s (edit ∷ edits) = do check_edit s edit; check_edits s edits

abbrev pub next_snapshot : ℕ → Value → Snapshot → Snapshot
next_snapshot epoch value old = record {
  revision = (old.revision + 1) % 2 ^ 64;
  epoch = epoch;
  value = value;
}

prepend : Value → Option (Map Text Cell × List Value) → Option (Map Text Cell × List Value)
prepend v none = none
prepend v (some (cells, values)) = some (cells, v ∷ values)

-- The second loop: the cells are written in turn; `none` is the `unwrap` of a missing cell.
unfoldable pub write_edits :
    ℕ → List CompareExchange → Map Text Cell → Option (Map Text Cell × List Value)
unfolding prepend
write_edits epoch [] cells = some (cells, [])
write_edits epoch (edit ∷ edits) cells = elim (get edit.location.cell cells) [
  | none ↦ none
  | some c ↦
      let c' : Cell = record c { snapshot = next_snapshot epoch edit.value c.snapshot } in
      prepend (snapshot_value c'.snapshot)
        (write_edits epoch edits (insert edit.location.cell c' cells))
]

written : ℕ → Cells → Option (Map Text Cell × List Value) → Ending Value × Cells
written epoch s none = (panicked, s)
written epoch s (some (cells, values)) = (
  done (list (list_of (u64 epoch ∷ list (list_of values) ∷ []))),
  record s { cells = cells; epoch = epoch },
)

-- `Cells::commit`: the cells afterwards stand beside the result, whichever it is.
unfoldable pub commit : List CompareExchange → Cells → Ending Value × Cells
unfolding written check_edits
commit edits s =
    elim (ok_or (checked_add s.epoch 1) epoch_exhausted >>= λ epoch.
    check_edits s edits >>= λ _. ok epoch) [
      | err e ↦ (refused e, s)
      | ok epoch ↦ written epoch s (write_edits epoch edits s.cells)
    ]

read_back : ValueLocation → Ending Value × Cells → Ending Value × Cells
read_back r (done v, s) = elim (read s r) [ ok now ↦ (done now, s) | err e ↦ (refused e, s) ]
read_back r (refused e, s) = (refused e, s)
read_back r (panicked, s) = (panicked, s)

-- `Cells::compare_exchange`
unfoldable pub compare_exchange : CompareExchange → Cells → Ending Value × Cells
unfolding read_back
compare_exchange edit s = read_back edit.location (commit (edit ∷ []) s)
