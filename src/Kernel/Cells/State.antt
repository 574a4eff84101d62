-- ===== src/Kernel/Cells/State.antt =====
-- The cells, their snapshots and subscriptions, and the operations that only look at them.
use phenix_ai.Prelude.{
  ℕ, Bool, ◌&&◌, Option, none, some, List, [], ◌∷◌, ◌++◌, map, if◌then◌else◌, ltb, ◌==◌, length,
  any, find?, retain,
}
use phenix_ai.Prelude.Order.{Text, text_ord, nat_ord, ◌=?◌, less}
use phenix_ai.Prelude.Map.{Map, get, values}
use phenix_ai.Contract.Failure.{Result, ok, ◌>>=◌, ◌>>◌, guard, ok_or}
use phenix_ai.Contract.Identity.{ValueLocation}
use phenix_ai.Contract.Value.{Value, Values, u64, list, nil, cons}
use phenix_ai.Contract.Schema.{Schema}

-- `ValueAccessError` of the contract crate.
pub data AccessError : Type 0 where
  conflict : ℕ → ℕ → AccessError
  owner_gone stale_reference schema_mismatch denied revision_exhausted epoch_exhausted : AccessError

abbrev pub Access : Type 0 → Type 0
Access A = Result AccessError A

-- `PropertyDefinition` of descriptor/metadata.rs.
pub record Property : Type 0 where
  pub id : Text
  pub schema : Schema
  pub get : Bool
  pub set : Bool
  pub watch : Bool

pub record Snapshot : Type 0 where
  pub revision : ℕ
  pub epoch : ℕ
  pub value : Value

pub record Cell : Type 0 where
  pub location : ValueLocation
  pub owner : Text
  pub property : Property
  pub snapshot : Snapshot

pub record Subscription : Type 0 where
  pub root : ℕ
  pub caller : Text
  pub ticket : Option ℕ
  pub location : ValueLocation
  pub revision : ℕ

pub record Cells : Type 0 where
  pub generation : List ℕ
  pub owners : Map Text (List ℕ)
  pub cells : Map (List ℕ) Cell
  pub subscriptions : Map ℕ Subscription
  pub next_cursor : ℕ
  pub epoch : ℕ

-- `Value::List(vec![…])`
abbrev pub list_of : List Value → Values
list_of [] = nil
list_of (v ∷ vs) = cons v (list_of vs)

-- `Snapshot::value`
unfoldable pub snapshot_value : Snapshot → Value
snapshot_value s = list (list_of (u64 s.revision ∷ u64 s.epoch ∷ s.value ∷ []))

-- `Cells::cell`
unfoldable pub cell : Cells → ValueLocation → Access Cell
cell s r = do
  guard (r.generation =? s.generation) stale_reference
  guard (any (λ owner. owner =? r.owner) (values s.owners)) owner_gone
  c ← ok_or (get r.cell s.cells) stale_reference
  guard (c.location.owner =? r.owner) stale_reference
  guard (c.location.schema =? r.schema) schema_mismatch
  ok c

-- `Cells::identity`
unfoldable pub identity : Cells → ValueLocation → Access (Text × Property)
identity s r = do c ← cell s r; ok (c.owner, c.property)

-- `Cells::location`
unfoldable pub location : Cells → Text → Text → Option ValueLocation
location s owner property =
    elim (find? (λ c. c.owner =? owner && c.property.id =? property) (values s.cells)) [
      | none ↦ none
      | some c ↦ some c.location
    ]

-- `Cells::read`
unfoldable pub read : Cells → ValueLocation → Access Value
read s r = do c ← cell s r; ok (snapshot_value c.snapshot)

read_each : Cells → List ValueLocation → Access (List Value)
read_each s [] = ok []
read_each s (r ∷ rs) = do v ← read s r; vs ← read_each s rs; ok (v ∷ vs)

-- `Cells::snapshot`
unfoldable pub snapshot : Cells → List ValueLocation → Access Value
unfolding read_each
snapshot s locations = do
  vs ← read_each s locations
  ok (list (list_of (u64 s.epoch ∷ list (list_of vs) ∷ [])))

-- `Cells::initialized`
unfoldable pub initialized : Cells → Text → ℕ → Bool
initialized s owner count = length (retain (λ c. c.owner =? owner) (values s.cells)) == count

-- `sort` of strings, by insertion.
unfoldable pub insert_sorted : Text → List Text → List Text
insert_sorted x [] = x ∷ []
insert_sorted x (y ∷ ys) =
    let rest = insert_sorted x ys in if less y x then y ∷ rest else x ∷ y ∷ ys

unfoldable pub sort : List Text → List Text
unfolding insert_sorted
sort [] = []
sort (x ∷ xs) = insert_sorted x (sort xs)

-- `format!("{}/{}", cell.owner, cell.property.id)`
abbrev pub change_name : Cell → Text
change_name c = c.owner ++ b'/' ∷ c.property.id

abbrev pub changed : ℕ → Cell → Bool
changed after c = c.property.watch && ltb after c.snapshot.epoch

-- `Cells::watched_changes_since`
unfoldable pub watched_changes_since : Cells → ℕ → ℕ × List Text
watched_changes_since s after =
    (s.epoch, sort (map change_name (retain (changed after) (values s.cells))))
