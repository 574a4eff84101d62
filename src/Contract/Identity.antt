-- ===== src/Contract/Identity.antt =====
-- crates/phenix-contract/src/reference.rs: the four identities, each a fixed number of bytes that
-- are not all zero, and the location of a value.
use phenix_ai.Prelude.{ℕ, ◌≡◌, false, not, List, arith, if◌then◌else◌, ◌==◌, length, all, All, ◌<◌}
use phenix_ai.Prelude.Order.{text_ord}
use phenix_ai.Contract.Failure.{Failure, Result, ok, err, invalid}

-- The macro `identity!($name, $size)`: `$name::from_bytes`.
unfoldable pub from_bytes : ℕ → List ℕ → Result Failure (List ℕ)
from_bytes size bytes =
    if not (length bytes == size)
    then err (invalid "identity width mismatch")
    else if all (λ byte. byte == 0) bytes
    then err (invalid "reserved zero identity")
    else ok bytes

-- The types that the macro makes are the byte lists that `from_bytes` accepts.
abbrev pub IsIdentity : ℕ → List ℕ → Type 0
IsIdentity size bytes =
    (length bytes ≡ size) × (all (λ byte. byte == 0) bytes ≡ false) × All (λ b. b < 256) bytes

pub record ValueLocation : Type 0 where
  pub generation : List ℕ
  pub owner : List ℕ
  pub cell : List ℕ
  pub schema : List ℕ

pub record IsLocation (r : ValueLocation) : Type 0 where
  pub generation : IsIdentity 32 r.generation
  pub owner : IsIdentity 32 r.owner
  pub cell : IsIdentity 16 r.cell
  pub schema : IsIdentity 32 r.schema

pub from_bytes-IsIdentity :
    (size : ℕ) (bytes : List ℕ) → IsIdentity size bytes → from_bytes size bytes ≡ ok bytes
unfolding from_bytes
from_bytes-IsIdentity size bytes h = ground (arith, h.0, h.1)

pub from_bytes-eq-ok :
    (size : ℕ) (bytes : List ℕ) {id : List ℕ}
    → from_bytes size bytes ≡ ok id
    → All (λ b. b < 256) bytes
    → (id ≡ bytes) × IsIdentity size bytes
unfolding from_bytes
from_bytes-eq-ok size bytes h b = (ground arith, (ground arith, ground arith, b))
