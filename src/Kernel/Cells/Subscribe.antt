-- ===== src/Kernel/Cells/Subscribe.antt =====
-- The subscriptions: `subscribe`, `cursor`, `next`, `unsubscribe`, `release_ticket`, `release_root`.
pub mod Delivery
use phenix_ai.Prelude.{
  ℕ, suc, ◌+◌, ◌≡◌, Bool, true, false, not, ◌&&◌, ◌||◌, Option, none, some, List, [], ◌∷◌, leb,
  ◌==◌, if◌then◌else◌, length, retain, checked_add,
}
use phenix_ai.Prelude.Order.{Text, text_ord, nat_ord, ◌=?◌}
use phenix_ai.Prelude.Map.{get, insert, remove}
use phenix_ai.Contract.Failure.{Result, ok, err, ◌>>=◌, ◌>>◌, guard, ok_or}
use phenix_ai.Contract.Identity.{ValueLocation}
use phenix_ai.Contract.Value.{Value, null, u64, list, max_count}
use phenix_ai.Kernel.Cells.State.{
  Access, denied, stale_reference, revision_exhausted, Snapshot, Subscription, Cells, cell, list_of,
  snapshot_value,
}

-- `Option<u64>::eq`
abbrev pub same_ticket : Option ℕ → Option ℕ → Bool
same_ticket none none = true
same_ticket (some a) (some b) = a == b
same_ticket _ _ = false

-- `Cells::subscribe`
unfoldable pub subscribe : ℕ → Text → Option ℕ → ValueLocation → Cells → Access (Cells × Value)
subscribe root caller ticket r s = do
  guard (not (leb max_count (length s.subscriptions))) denied
  c ← cell s r
  cursor ← ok_or (checked_add s.next_cursor 1) revision_exhausted
  let entry : Subscription = record {
    root = root;
    caller = caller;
    ticket = ticket;
    location = r;
    revision = c.snapshot.revision;
  }
  ok (
    record s { next_cursor = cursor; subscriptions = insert cursor entry s.subscriptions },
    list (list_of (u64 cursor ∷ snapshot_value c.snapshot ∷ [])),
  )

-- `Cells::cursor`
unfoldable pub cursor : ℕ → Text → Option ℕ → ℕ → Cells → Access ValueLocation
cursor root caller ticket id s = do
  e ← ok_or (get id s.subscriptions) stale_reference
  guard (e.root == root && e.caller =? caller && same_ticket e.ticket ticket) denied
  ok e.location

-- The new revision is remembered, and the snapshot returned, if it is another one.
unfoldable pub deliver : ℕ → Subscription → Cells → Snapshot → Cells × Value
deliver id e s now = if now.revision == e.revision then (s, null) else (
  record s { subscriptions = insert id (record e { revision = now.revision }) s.subscriptions },
  snapshot_value now,
)

-- `Cells::next`; the `unwrap` of the entry that `cursor` has found is the second lookup.
unfoldable pub next : ℕ → Text → Option ℕ → ℕ → Cells → Access (Cells × Value)
unfolding deliver
next root caller ticket id s = do
  r ← cursor root caller ticket id s
  c ← cell s r
  e ← ok_or (get id s.subscriptions) stale_reference
  ok (deliver id e s c.snapshot)

-- `Cells::unsubscribe`
unfoldable pub unsubscribe : ℕ → Text → Option ℕ → ℕ → Cells → Access (Cells × Value)
unsubscribe root caller ticket id s = do
  found ← cursor root caller ticket id s
  ok (record s { subscriptions = remove id s.subscriptions }, null)

-- `Cells::release_ticket`
unfoldable pub release_ticket : ℕ → Cells → Cells
release_ticket ticket s = record s {
  subscriptions = retain (λ e. not (same_ticket e.1.ticket (some ticket))) s.subscriptions;
}

-- `Cells::release_root`
unfoldable pub release_root : ℕ → Cells → Cells
release_root root s = record s {
  subscriptions = retain (λ e. not (e.1.root == root)) s.subscriptions;
}
