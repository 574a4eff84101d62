-- ===== src/Kernel/Cells/Register.antt =====
-- `new`, `register_owner`, `create` and `clear`. The hash (SHA-256 in lowercase hexadecimal), the
-- process nonce and the process id are parameters.
use phenix_ai.Prelude.{
  ℕ, ◌+◌, ◌-◌, ◌*◌, not, ◌&&◌, ◌||◌, List, [], ◌∷◌, ◌++◌, if◌then◌else◌, leb, length, any, take,
  checked_add, is_some,
}
use phenix_ai.Prelude.Order.{Text, text_ord, nat_ord, ◌=?◌}
use phenix_ai.Prelude.Map.{get, insert, values}
use phenix_ai.Contract.Failure.{
  Failure, Result, ok, err, ◌>>=◌, ◌>>◌, guard, ok_or, failure, infrastructure_failure,
  schema_rejected,
}
use phenix_ai.Contract.Identity.{ValueLocation, from_bytes}
use phenix_ai.Contract.Value.{Value, bytes, u64, string, list, max_count}
use phenix_ai.Contract.Wire.{encode}
use phenix_ai.Contract.Schema
use phenix_ai.Contract.Schema.{Schema, accepts}
use phenix_ai.Kernel.Cells.State.{Cells, Cell, Property, list_of}

-- The digit of `digest_bytes`.
unfoldable pub hex_digit : ℕ → ℕ
hex_digit b = if leb b b'9' then b - b'0' else b - b'a' + 10

-- `digest_bytes`: an odd last digit is dropped.
unfoldable pub digest_bytes : Text → List ℕ
unfolding hex_digit
digest_bytes [] = []
digest_bytes (h ∷ []) = []
digest_bytes (h ∷ l ∷ rest) = (hex_digit h * 16 + hex_digit l) ∷ digest_bytes rest

-- `Cells::new`
unfoldable pub new : List ℕ → Result Failure Cells
new digest = do
  generation ← from_bytes 32 digest
  ok (record {
    generation = generation;
    owners = [];
    cells = [];
    subscriptions = [];
    next_cursor = 0;
    epoch = 0;
  })

-- What `register_owner` and `create` may fail with: a failure, or the panic of `owners[plugin]`.
pub data Fault : Type 0 where
  failed : Failure → Fault
  panicked : Fault

abbrev pub lift {ℓ} : {A : Type ℓ} → Result Failure A → Result Fault A
lift (ok a) = ok a
lift (err e) = err (failed e)

module _ (digest : List ℕ → Text) (nonce : Result Failure (List ℕ)) (process : ℕ) where
  unfoldable pub hash_bytes : List ℕ → List ℕ
  unfolding digest_bytes
  hash_bytes message = digest_bytes (digest message)

  -- `Cells::register_owner`; the counter of incarnations is the process's, and a lost race for it
  -- is another round with a later count.
  unfoldable pub register_owner : ℕ → Text → Cells → Result Failure (Cells × ℕ)
  unfolding hash_bytes
  register_owner incarnation plugin s = do
    next ←
        ok_or (checked_add incarnation 1)
          (failure infrastructure_failure "owner incarnation exhausted")
    random ← nonce
    message ← encode (
        list (
          list_of (
            bytes random
            ∷ u64 process
            ∷ bytes s.generation
            ∷ string plugin
            ∷ u64 incarnation
            ∷ [])))
    owner ← from_bytes 32 (hash_bytes message)
    ok (record s { owners = insert plugin owner s.owners }, next)

  -- `Cells::create`
  unfoldable pub create : Text → Property → Value → Cells → Result Fault (Cells × ValueLocation)
  unfolding hash_bytes
  create plugin property initial s = do
    guard
        (not (
          leb max_count (length s.cells)
          || any (λ c. c.owner =? plugin && c.property.id =? property.id) (values s.cells)
          || not (accepts property.schema initial)))
        (failed (failure schema_rejected "duplicate property or invalid initial schema"))
    lift (encode initial >>= λ _. ok tt)
    owner ← ok_or (get plugin s.owners) panicked
    id ← lift (from_bytes 16 (take 16 (hash_bytes (owner ++ property.id))))
    guard (not (is_some (get id s.cells)))
        (failed (failure infrastructure_failure "cell identity collision"))
    schema ← lift (Schema.id (λ message. digest_bytes (digest message)) property.schema)
    let place : ValueLocation = record {
      generation = s.generation;
      owner = owner;
      cell = id;
      schema = schema;
    }
    let fresh : Cell = record {
      location = place;
      owner = plugin;
      property = property;
      snapshot = record { revision = 0; epoch = 0; value = initial };
    }
    ok (record s { cells = insert id fresh s.cells }, place)

-- `Cells::clear`
unfoldable pub clear : Cells → Cells
clear s = record s { cells = []; owners = []; subscriptions = [] }
