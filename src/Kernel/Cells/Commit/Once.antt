-- ===== src/Kernel/Cells/Commit/Once.antt =====
-- Optimistic concurrency: an edit takes effect once.
use phenix_ai.Prelude.{
  ◌+◌, ◌%◌, ◌^◌, ◌<◌, ◌≡◌, refl, sym, ap, subst, ◌∙◌, inl, inr, true, some, [], ◌∷◌, arith, any,
  u64_max, checked_add-room,
}
use phenix_ai.Prelude.Order.{text_ord, ◌=?◌, =?_refl}
use phenix_ai.Prelude.Map.{get, values}
use phenix_ai.Contract.Failure.{ok, ok_or, >>=-eq-ok, guard-eq-ok, ok_injective, Result-cases}
use phenix_ai.Contract.Identity.{ValueLocation}
use phenix_ai.Contract.Value.{Value}
use phenix_ai.Kernel.Cells.State.{
  AccessError, conflict, stale_reference, Cell, Cells, cell, read, snapshot_value,
}
use phenix_ai.Kernel.Cells.Commit.{
  CompareExchange, Ending, done, refused, check_edit, check_edits, next_snapshot, commit, read_back,
  compare_exchange,
}
use phenix_ai.Kernel.Cells.Commit.Effect.{Committed, commit_total, cell-get}

done_injective : {a b : Value} → ◌≡◌ {A = Ending Value} (done a) (done b) → a ≡ b
done_injective h = cc

refused-ne-done :
    {e : AccessError} {v : Value} {s s' : Cells}
    → ◌≡◌ {A = Ending Value × Cells} (refused e, s) (done v, s')
    → ⊥
refused-ne-done h = cc (ap (λ (p : Ending Value × Cells). p.0) h)

-- `cell` looks at the generation, the owners and the cell found; equal parts, equal answer.
cell_frame :
    (s s' : Cells) (r : ValueLocation) {c c' : Cell}
    → cell s r ≡ ok c
    → s'.generation ≡ s.generation
    → s'.owners ≡ s.owners
    → get r.cell s'.cells ≡ some c'
    → c'.location ≡ c.location
    → cell s' r ≡ ok c'
unfolding cell
cell_frame s s' r {c} {c'} h g o e l =
    let (g1, k1) = guard-eq-ok (r.generation =? s.generation) _ _ h in
    let (g2, k2) = guard-eq-ok (any (λ owner. owner =? r.owner) (values s.owners)) _ _ k1 in
    let (c0, _, k3) = >>=-eq-ok (ok_or (get r.cell s.cells) stale_reference) _ k2 in
    let (g3, k4) = guard-eq-ok (c0.location.owner =? r.owner) _ _ k3 in
    let (g4, k5) = guard-eq-ok (c0.location.schema =? r.schema) _ _ k4 in
    let same : c0.location ≡ c'.location =
      ap (λ (d : Cell). d.location) (ok_injective k5) ∙ sym l in
    let own : (c'.location.owner =? r.owner) ≡ true =
      subst (λ p. (p.owner =? r.owner) ≡ true) same g3 in
    let sch : (c'.location.schema =? r.schema) ≡ true =
      subst (λ p. (p.schema =? r.schema) ≡ true) same g4 in
    rw (g, g1, o, g2, e, own, sch)

-- A compare-exchange that succeeds has committed its edit, and returns what it then read.
compare_exchange-eq-done :
    (edit : CompareExchange) (s s' : Cells) (v : Value)
    → compare_exchange edit s ≡ (done v, s')
    → Committed (edit ∷ []) s s' × (read s' edit.location ≡ ok v)
unfolding compare_exchange
compare_exchange-eq-done edit s s' v h = elim (commit_total (edit ∷ []) s) [
  | inr (e, r, _) ↦
      let step : compare_exchange edit s ≡ (refused e, s) = rw (r, read_back) in
      absurd (refused-ne-done (sym step ∙ h))
  | inl (v', t, e, a) ↦ elim (Result-cases (read t edit.location)) [
    | inl (now, rd) ↦
        let step : compare_exchange edit s ≡ (done now, t) = rw (e, read_back, rd) in
        let k : ◌≡◌ {A = Ending Value × Cells} (done now, t) (done v, s') = sym step ∙ h in
        let st : t ≡ s' = ap (λ (p : Ending Value × Cells). p.1) k in
        (
          subst (Committed (edit ∷ []) s) st a,
          subst (λ u. read u edit.location ≡ ok v) st
              (rd ∙ ap ok (done_injective (ap (λ (p : Ending Value × Cells). p.0) k))),
        )
    | inr (why, rd) ↦
        let step : compare_exchange edit s ≡ (refused why, t) = rw (e, read_back, rd) in
        absurd (refused-ne-done (sym step ∙ h))
  ]
]

module _ (edit : CompareExchange) (s s' : Cells) (v : Value) where
  abbrev stored : Cell → Cell
  stored c = record c { snapshot = next_snapshot (s.epoch + 1) edit.value c.snapshot }

  Committed-cell :
      (a : Committed (edit ∷ []) s s') → cell s' edit.location ≡ ok (stored a.admissible.0.0)
  Committed-cell a =
      let c = a.admissible.0.0 in
      let found = a.admissible.0.1 in
      cell_frame s s' edit.location found a.generation a.owners
        (a.found edit.location.cell
          ∙ rw (cell-get s edit.location found, =?_refl edit.location.cell))
        refl

  next_revision :
      (a : Committed (edit ∷ []) s s')
      → (a.admissible.0.0.snapshot.revision + 1) % 2 ^ 64 ≡ edit.expected + 1
  next_revision a = omega (arith, a.admissible.0.3, a.admissible.0.4)

  -- The snapshot that a successful compare-exchange returns is the one that a read of the cell then
  -- returns, with the written value, the revision after the expected one and the next epoch.
  pub compare_exchange-read :
      compare_exchange edit s ≡ (done v, s')
      → (read s' edit.location ≡ ok v)
        × (v
            ≡ snapshot_value
                (record { revision = edit.expected + 1; epoch = s.epoch + 1; value = edit.value }))
  unfolding compare_exchange read
  compare_exchange-read h =
      let (a, rd) = compare_exchange-eq-done edit s s' v h in
      let c = a.admissible.0.0 in
      let now : read s' edit.location ≡ ok (snapshot_value (stored c).snapshot) =
        rw (Committed-cell a) in
      (
        rd,
        ok_injective (sym rd ∙ now)
            ∙ ap
                (λ n.
                  snapshot_value (record { revision = n; epoch = s.epoch + 1; value = edit.value }))
                (next_revision a),
      )

  -- If a compare-exchange succeeds and epochs remain, the same edit again is refused as a conflict
  -- with the revision that the first one made, and changes nothing.
  pub compare_exchange_once :
      compare_exchange edit s ≡ (done v, s')
      → s'.epoch < u64_max
      → compare_exchange edit s' ≡ (refused (conflict edit.expected (edit.expected + 1)), s')
  unfolding compare_exchange check_edit check_edits commit
  compare_exchange_once h room =
      let (a, rd) = compare_exchange-eq-done edit s s' v h in
      let refusal : commit (edit ∷ []) s'
          ≡ (refused (conflict edit.expected (edit.expected + 1)), s') =
        rw
          (
            checked_add-room s'.epoch room,
            commit,
            Committed-cell a,
            a.admissible.0.2,
            next_revision a,
          )
          (ground arith) in
      rw (refusal, read_back)
