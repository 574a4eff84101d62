-- ===== src/Kernel/Cells/Examples.antt =====
-- One cell with a subscriber, and the theorems of the cells at it.
use phenix_ai.Prelude.{
  ℕ, ◌≡◌, refl, none, true, [], ◌∷◌, ◌+◌, ◌⊎◌, All, ◌<◌, u64_max, arith, checked_add,
}
use phenix_ai.Prelude.Order.{compare_text, ascii}
use phenix_ai.Prelude.Map.{get, insert}
use phenix_ai.Contract.Failure.{ok}
use phenix_ai.Contract.Identity.{ValueLocation}
use phenix_ai.Contract.Schema
use phenix_ai.Contract.Schema.{accepts}
use phenix_ai.Contract.Value.{Value, null, u64}
use phenix_ai.Kernel.Cells.State.{
  AccessError, conflict, Snapshot, Cell, Subscription, Cells, cell, read, snapshot_value,
}
use phenix_ai.Kernel.Cells.Commit.{
  CompareExchange, done, refused, check_edit, check_edits, write_edits, commit, compare_exchange,
}
use phenix_ai.Kernel.Cells.Commit.Effect.{Committed, Admissible, commit_total}
use phenix_ai.Kernel.Cells.Commit.Once.{compare_exchange-read, compare_exchange_once}
use phenix_ai.Kernel.Cells.Subscribe.{next, cursor, deliver}
use phenix_ai.Kernel.Cells.Subscribe.Delivery.{next_twice}

abbrev here : ValueLocation
here = record { generation = 7 ∷ []; owner = 1 ∷ []; cell = 2 ∷ []; schema = 3 ∷ [] }

abbrev counter_at : ℕ → ℕ → ℕ → Cell
counter_at revision epoch n = record {
  location = here;
  owner = ascii "clock";
  property = record {
    id = ascii "ticks";
    schema = Schema.u64;
    get = true;
    set = true;
    watch = true;
  };
  snapshot = record { revision = revision; epoch = epoch; value = u64 n };
}

abbrev watching : ℕ → Subscription
watching revision = record {
  root = 1;
  caller = ascii "ui";
  ticket = none;
  location = here;
  revision = revision;
}

abbrev cells_at : ℕ → ℕ → ℕ → ℕ → Cells
cells_at revision epoch n seen = record {
  generation = 7 ∷ [];
  owners = (ascii "clock", 1 ∷ []) ∷ [];
  cells = (2 ∷ [], counter_at revision epoch n) ∷ [];
  subscriptions = (1, watching seen) ∷ [];
  next_cursor = 1;
  epoch = epoch;
}

abbrev tick : CompareExchange
tick = record { location = here; expected = 4; value = u64 10 }

abbrev ticked : Snapshot
ticked = record { revision = 5; epoch = 9; value = u64 10 }

compare_exchange-ticked :
    compare_exchange tick (cells_at 4 8 9 4) ≡ (done (snapshot_value ticked), cells_at 5 9 10 4)
unfolding compare_exchange commit check_edits check_edit cell read get insert compare_text
    checked_add accepts write_edits snapshot_value
compare_exchange-ticked = refl

commit_total_example :
    ((v : Value) × (s' : Cells) × (commit (tick ∷ []) (cells_at 4 8 9 4) ≡ (done v, s'))
      × Committed (tick ∷ []) (cells_at 4 8 9 4) s')
    ⊎ ((e : AccessError) × (commit (tick ∷ []) (cells_at 4 8 9 4) ≡ (refused e, cells_at 4 8 9 4))
        × ¬ ((8 < u64_max) × All (Admissible (cells_at 4 8 9 4)) (tick ∷ [])))
commit_total_example = commit_total (tick ∷ []) (cells_at 4 8 9 4)

compare_exchange-read_example :
    (read (cells_at 5 9 10 4) here ≡ ok (snapshot_value ticked))
    × (snapshot_value ticked
        ≡ snapshot_value (record { revision = 4 + 1; epoch = 8 + 1; value = u64 10 }))
compare_exchange-read_example =
    compare_exchange-read tick (cells_at 4 8 9 4) (cells_at 5 9 10 4) (snapshot_value ticked)
      compare_exchange-ticked

compare_exchange_once_example :
    compare_exchange tick (cells_at 5 9 10 4) ≡ (refused (conflict 4 5), cells_at 5 9 10 4)
compare_exchange_once_example =
    compare_exchange_once tick (cells_at 4 8 9 4) (cells_at 5 9 10 4) (snapshot_value ticked)
      compare_exchange-ticked (omega arith)

next_ticked :
    next 1 (ascii "ui") none 1 (cells_at 5 9 10 4) ≡ ok (cells_at 5 9 10 5, snapshot_value ticked)
unfolding next cursor deliver cell get insert compare_text snapshot_value
next_ticked = refl

next_twice_example : next 1 (ascii "ui") none 1 (cells_at 5 9 10 5) ≡ ok (cells_at 5 9 10 5, null)
next_twice_example =
    next_twice 1 (ascii "ui") none 1 (cells_at 5 9 10 4) (cells_at 5 9 10 5) (snapshot_value ticked)
      next_ticked
