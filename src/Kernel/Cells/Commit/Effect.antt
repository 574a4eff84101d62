-- ===== src/Kernel/Cells/Commit/Effect.antt =====
-- When a batch is committed, and what it does to each cell.
use phenix_ai.Prelude.{
  ℕ, ◌+◌, ◌<◌, ◌≡◌, refl, ◌↔◌, ◌⊎◌, inl, inr, true, some, List, [], ◌∷◌, ◌==◌, ==_iff, arith, All,
  u64_max, checked_add, checked_add-room, checked_add-lt, is_some, Option-cases,
}
use phenix_ai.Prelude.Order.{Text, text_ord}
use phenix_ai.Prelude.Map.{get}
use phenix_ai.Contract.Failure.{ok, guard, >>=-eq-ok, guard-eq-ok, Result-cases}
use phenix_ai.Contract.Identity.{ValueLocation}
use phenix_ai.Contract.Value.{Value, u64, list}
use phenix_ai.Contract.Schema.{accepts}
use phenix_ai.Kernel.Cells.State.{
  AccessError, revision_exhausted, epoch_exhausted, Cell, Cells, cell, list_of,
}
use phenix_ai.Kernel.Cells.Commit.Write.{edit_found, write_edits-get, write_edits-total}
use phenix_ai.Kernel.Cells.Commit.{
  CompareExchange, done, refused, check_edit, check_edits, write_edits, commit,
}

-- The edit would be accepted: its cell is live, takes the value, and has the expected revision.
abbrev pub Admissible : Cells → CompareExchange → Type 0
Admissible s edit =
    (c : Cell) × (cell s edit.location ≡ ok c)
    × (accepts c.property.schema edit.value ≡ true)
    × (edit.expected ≡ c.snapshot.revision)
    × (c.snapshot.revision < u64_max)

room : (n : ℕ) → guard (is_some (checked_add n 1)) revision_exhausted ≡ ok tt → n < u64_max
unfolding checked_add
room n h = ground arith

check_edit_iff :
    (s : Cells) (edit : CompareExchange) → (check_edit s edit ≡ ok tt) ↔ Admissible s edit
unfolding check_edit checked_add
check_edit_iff s edit = (
  (λ h.
      let (c, found, k1) = >>=-eq-ok (cell s edit.location) _ h in
      let (takes, k2) = guard-eq-ok (accepts c.property.schema edit.value) _ _ k1 in
      let (same, k3) = guard-eq-ok (edit.expected == c.snapshot.revision) _ _ k2 in
      (
        c,
        found,
        takes,
        (==_iff edit.expected c.snapshot.revision).0 same,
        room c.snapshot.revision k3,
      )),
  (λ a. rw (a.1, a.2, (==_iff edit.expected a.0.snapshot.revision).1 a.3) (ground arith)),
)

check_edits_iff :
    (s : Cells) (edits : List CompareExchange)
    → (check_edits s edits ≡ ok tt) ↔ All (Admissible s) edits
unfolding check_edits
check_edits_iff s [] = (λ h. tt, λ a. refl)
check_edits_iff s (edit ∷ edits) = (
  (λ h.
      let (_, first, rest) = >>=-eq-ok (check_edit s edit) _ h in
      ((check_edit_iff s edit).0 first, (check_edits_iff s edits).0 rest)),
  (λ a. rw ((check_edit_iff s edit).1 a.0) ((check_edits_iff s edits).1 a.1)),
)

pub cell-get :
    (s : Cells) (r : ValueLocation) {c : Cell} → cell s r ≡ ok c → get r.cell s.cells ≡ some c
unfolding cell
cell-get s r h = ground arith

All-present :
    (s : Cells) (edits : List CompareExchange)
    → All (Admissible s) edits
    → All (λ edit. is_some (get edit.location.cell s.cells) ≡ true) edits
All-present s [] a = tt
All-present s (edit ∷ edits) a = (rw (cell-get s edit.location a.0.1), All-present s edits a.1)

-- The state `s'` is `s` with the whole batch written, under one new epoch, and all else as it was.
pub record Committed (edits : List CompareExchange) (s s' : Cells) : Type 0 where
  pub below : s.epoch < u64_max
  pub admissible : All (Admissible s) edits
  pub epoch : s'.epoch ≡ s.epoch + 1
  pub found : (id : Text) → get id s'.cells ≡ edit_found (s.epoch + 1) id edits (get id s.cells)
  pub generation : s'.generation ≡ s.generation
  pub owners : s'.owners ≡ s.owners
  pub subscriptions : s'.subscriptions ≡ s.subscriptions
  pub next_cursor : s'.next_cursor ≡ s.next_cursor

commit-Committed :
    (edits : List CompareExchange) (s : Cells)
    → s.epoch < u64_max
    → All (Admissible s) edits
    → (v : Value) × (s' : Cells) × (commit edits s ≡ (done v, s')) × Committed edits s s'
unfolding commit
commit-Committed edits s h a = elim (Option-cases (write_edits (s.epoch + 1) edits s.cells)) [
  | inl none_left ↦
      absurd (ground (arith, write_edits-total (s.epoch + 1) edits s.cells (All-present s edits a)))
  | inr ((cells', vs), e) ↦ (
    list (list_of (u64 (s.epoch + 1) ∷ list (list_of vs) ∷ [])),
    record s { cells = cells'; epoch = s.epoch + 1 },
    rw (checked_add-room s.epoch h, commit, (check_edits_iff s edits).1 a, e),
    record {
      below = h;
      admissible = a;
      epoch = refl;
      found = write_edits-get (s.epoch + 1) edits s.cells cells' vs e;
      generation = refl;
      owners = refl;
      subscriptions = refl;
      next_cursor = refl;
    },
  )
]

-- Every batch is either committed, with the effect that Committed states, which includes that
-- epochs remained and each edit was admissible; or refused with the cells unchanged, and then it is
-- not so that epochs remained and each edit was admissible. No unwrap panics.
pub commit_total :
    (edits : List CompareExchange) (s : Cells)
    → ((v : Value) × (s' : Cells) × (commit edits s ≡ (done v, s')) × Committed edits s s')
      ⊎ ((e : AccessError) × (commit edits s ≡ (refused e, s))
          × ¬ ((s.epoch < u64_max) × All (Admissible s) edits))
unfolding commit
commit_total edits s = elim (Option-cases (checked_add s.epoch 1)) [
  | inl full ↦ inr (epoch_exhausted, rw (full, commit), (λ p. cc (checked_add-room s.epoch p.0)))
  | inr (epoch, e) ↦ elim (Result-cases (check_edits s edits)) [
    | inl (_, passed) ↦
        inl (
          commit-Committed edits s (checked_add-lt s.epoch e)
            ((check_edits_iff s edits).0 (passed)))
    | inr (why, failed) ↦
        inr (why, rw (e, commit, failed), λ p. cc ((check_edits_iff s edits).1 p.1))
  ]
]
