-- ===== src/Kernel/Cells/Subscribe/Delivery.antt =====
-- What a subscriber is shown by `next`.
use phenix_ai.Prelude.{
  ℕ, ◌≡◌, sym, ap, subst, ◌∙◌, inl, inr, true, ◌&&◌, Option, some, ◌==◌, arith, Bool-cases,
}
use phenix_ai.Prelude.Order.{Text, text_ord, nat_ord, ◌=?◌}
use phenix_ai.Prelude.Map.{get, insert, get-insert_self}
use phenix_ai.Contract.Failure.{ok, ok_or, >>=-eq-ok, guard-eq-ok, ok_injective, ok_or-eq-ok}
use phenix_ai.Contract.Value.{Value, null}
use phenix_ai.Kernel.Cells.State.{stale_reference, Subscription, Cell, Cells, cell, snapshot_value}
use phenix_ai.Kernel.Cells.Subscribe.{same_ticket, cursor, deliver, next}

module _ (root : ℕ) (caller : Text) (ticket : Option ℕ) (id : ℕ) where
  -- The caller owns the entry: its root, its name and its ticket are those of the subscription.
  abbrev pub Owns : Subscription → Type 0
  Owns e = (e.root == root && e.caller =? caller && same_ticket e.ticket ticket) ≡ true

  -- A call that succeeds came from the owner of a live subscription to a live cell.
  pub record Delivered (s s' : Cells) (v : Value) : Type 0 where
    pub entry : Subscription
    pub cell_now : Cell
    pub subscribed : get id s.subscriptions ≡ some entry
    pub owns : Owns entry
    pub live : cell s entry.location ≡ ok cell_now
    pub outcome : deliver id entry s cell_now.snapshot ≡ (s', v)

  next-Delivered :
      (s s' : Cells) (v : Value) → next root caller ticket id s ≡ ok (s', v) → Delivered s s' v
  unfolding next cursor
  next-Delivered s s' v h =
      let (r, c1, k1) = >>=-eq-ok (cursor root caller ticket id s) _ h in
      let (e1, f1, j1) = >>=-eq-ok (ok_or (get id s.subscriptions) stale_reference) _ c1 in
      let (own, j2) = guard-eq-ok _ _ _ j1 in
      let (c, live, k2) = >>=-eq-ok (cell s r) _ k1 in
      let (e, f, k3) = >>=-eq-ok (ok_or (get id s.subscriptions) stale_reference) _ k2 in
      let same : e ≡ e1 = ok_injective (sym f ∙ f1) in
      let at : e1.location ≡ r = ok_injective j2 in
      record {
        entry = e1;
        cell_now = c;
        subscribed = ok_or-eq-ok _ _ f1;
        owns = own;
        live = ap (cell s) at ∙ live;
        outcome = subst (λ x. deliver id x s c.snapshot ≡ (s', v)) same (ok_injective k3);
      }

  next-eq-ok :
      (s : Cells) (e : Subscription) (c : Cell)
      → get id s.subscriptions ≡ some e
      → Owns e
      → cell s e.location ≡ ok c
      → next root caller ticket id s ≡ ok (deliver id e s c.snapshot)
  unfolding next cursor
  next-eq-ok s e c f o l = rw (f, o, l)

  -- The state in which the subscription has been shown the revision of its cell.
  abbrev shown : Subscription → Cells → Cell → Cells
  shown e s c = record s {
    subscriptions = insert id (record e { revision = c.snapshot.revision }) s.subscriptions;
  }

  next-shown :
      (s : Cells) (e : Subscription) (c : Cell)
      → Owns e
      → cell s e.location ≡ ok c
      → next root caller ticket id (shown e s c) ≡ ok (shown e s c, null)
  unfolding deliver cell
  next-shown s e c o l =
      next-eq-ok (shown e s c) (record e { revision = c.snapshot.revision }) c
        (get-insert_self id (record e { revision = c.snapshot.revision }) s.subscriptions) o l
      ∙ ground arith

  -- After a call of next that succeeds, the same call on the cells that it left succeeds, shows
  -- nothing and leaves those cells as they are.
  pub next_twice :
      (s s' : Cells) (v : Value)
      → next root caller ticket id s ≡ ok (s', v)
      → next root caller ticket id s' ≡ ok (s', null)
  unfolding deliver
  next_twice s s' v h =
      let d = next-Delivered s s' v h in
      elim (Bool-cases (d.cell_now.snapshot.revision == d.entry.revision)) [
        | inl same ↦
            let quiet : deliver id d.entry s d.cell_now.snapshot ≡ (s, null) = ground arith in
            subst (λ t. next root caller ticket id t ≡ ok (t, null))
              (ap (λ (p : Cells × Value). p.0) (sym quiet ∙ d.outcome))
              (next-eq-ok s d.entry d.cell_now d.subscribed d.owns d.live ∙ ap ok quiet)
        | inr other ↦
            let told : deliver id d.entry s d.cell_now.snapshot
                ≡ (shown d.entry s d.cell_now, snapshot_value d.cell_now.snapshot) =
              ground arith in
            subst (λ t. next root caller ticket id t ≡ ok (t, null))
              (ap (λ (p : Cells × Value). p.0) (sym told ∙ d.outcome))
              (next-shown s d.entry d.cell_now d.owns d.live)
      ]
