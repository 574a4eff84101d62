-- ===== src/Contract/Wire.antt =====
-- crates/phenix-contract/src/value.rs: `encode_schema`, `encode`, `decode_schema` and `decode`.
-- A reader is the bytes that lie ahead of `at`; `at + n` cannot overflow, with `at` at most 2^20
-- and `n` below 2^32. The decoder counts the levels that are left, `MAX_DEPTH + 1 - depth`.
pub mod Bytes
pub mod Spec
mod Put
mod Read
pub mod RoundTrip
mod Examples
use phenix_ai.Prelude.{
  ℕ, zero, suc, ◌+◌, ◌-◌, ◌*◌, ◌/◌, ◌%◌, ◌^◌, Bool, true, false, not, ◌&&◌, ◌||◌, Option, none,
  some, List, [], ◌∷◌, ◌++◌, if◌then◌else◌, leb, ltb, ◌==◌, length, take, drop,
}
use phenix_ai.Prelude.Order.{Text, text_ord, compare_text, less, ◌=?◌}
use phenix_ai.Contract.Failure.{Failure, Result, ok, err, ◌>>=◌, ◌>>◌, guard, invalid}
use phenix_ai.Contract.Identity.{ValueLocation, from_bytes}
use phenix_ai.Contract.Value.{
  Value, Values, Entries, null, ref, bool, i64, u64, string, bytes, list, map, nil, cons, end,
  entry, max_bytes, max_depth, max_count, length_values, length_entries, is_utf8,
}
use Bytes.{to_be_bytes, from_be_bytes}

abbrev pub v2_prefix : List ℕ
v2_prefix = 0x50 ∷ 0x56 ∷ 2 ∷ 0 ∷ []

-- `len` of the encoder: a length as four bytes.
unfoldable pub put_length : List ℕ → ℕ → Result Failure (List ℕ)
put_length out n = do
  guard (ltb n (2 ^ 32)) (invalid "length overflow")
  ok (out ++ to_be_bytes 4 n)

-- The check at the end of `put`.
unfoldable pub bounded : List ℕ → Result Failure (List ℕ)
bounded out = do guard (leb (length out) max_bytes) (invalid "payload limit"); ok out

abbrev pub put_location : List ℕ → ValueLocation → List ℕ
put_location out r = out ++ 9 ∷ (r.generation ++ (r.owner ++ (r.cell ++ r.schema)))

-- The check at the start of `put`.
unfoldable pub enter : ℕ → Result Failure (Unit {0})
enter depth = guard (leb depth max_depth) (invalid "depth limit")

unfoldable mutual
  unfolding put_length bounded enter

  pub put : Value → List ℕ → ℕ → Result Failure (List ℕ)
  put null out depth = do enter depth; bounded (out ++ 0 ∷ [])
  put (ref r) out depth = do enter depth; bounded (put_location out r)
  put (bool false) out depth = do enter depth; bounded (out ++ 1 ∷ [])
  put (bool true) out depth = do enter depth; bounded (out ++ 2 ∷ [])
  put (i64 x) out depth = do enter depth; bounded (out ++ 3 ∷ to_be_bytes 8 x)
  put (u64 x) out depth = do enter depth; bounded (out ++ 4 ∷ to_be_bytes 8 x)
  put (string x) out depth = do
    enter depth
    sized ← put_length (out ++ 5 ∷ []) (length x)
    bounded (sized ++ x)
  put (bytes x) out depth = do
    enter depth
    sized ← put_length (out ++ 6 ∷ []) (length x)
    bounded (sized ++ x)
  put (list vs) out depth = do
    enter depth
    guard (leb (length_values vs) max_count) (invalid "count limit")
    sized ← put_length (out ++ 7 ∷ []) (length_values vs)
    filled ← put_values vs sized (depth + 1)
    bounded filled
  put (map es) out depth = do
    enter depth
    guard (leb (length_entries es) max_count) (invalid "count limit")
    sized ← put_length (out ++ 8 ∷ []) (length_entries es)
    filled ← put_entries es sized (depth + 1)
    bounded filled

  pub put_values : Values → List ℕ → ℕ → Result Failure (List ℕ)
  put_values nil out depth = ok out
  put_values (cons v vs) out depth = do out' ← put v out depth; put_values vs out' depth

  pub put_entries : Entries → List ℕ → ℕ → Result Failure (List ℕ)
  put_entries end out depth = ok out
  put_entries (entry k v es) out depth = do
    sized ← put_length out (length k)
    out' ← put v (sized ++ k) depth
    put_entries es out' depth

unfoldable pub encode_schema : Value → Result Failure (List ℕ)
encode_schema v = put v [] 0

unfoldable pub encode : Value → Result Failure (List ℕ)
encode v = do
  payload ← encode_schema v
  guard (leb (length (v2_prefix ++ payload)) max_bytes) (invalid "payload limit")
  ok (v2_prefix ++ payload)

-- A method of `Reader`: its result and the bytes that are left.
abbrev pub Read : Type 0 → Type 0
Read A = List ℕ → Result Failure (A × List ℕ)

unfoldable pub read_bytes : ℕ → Read (List ℕ)
read_bytes n r =
    if leb n (length r) then ok (take n r, drop n r) else err (invalid "truncated value")

unfoldable pub read_length : Read ℕ
read_length r = do (word, r') ← read_bytes 4 r; ok (from_be_bytes word, r')

unfoldable pub read_word : Read ℕ
read_word r = do (word, r') ← read_bytes 8 r; ok (from_be_bytes word, r')

unfoldable pub read_text : Read Text
read_text r = do
  (n, r1) ← read_length r
  (text, r2) ← read_bytes n r1
  guard (is_utf8 text) (invalid "invalid UTF-8")
  ok (text, r2)

unfoldable pub read_identity : ℕ → Read (List ℕ)
read_identity size r = do (word, r') ← read_bytes size r; id ← from_bytes size word; ok (id, r')

unfoldable pub read_location : Read ValueLocation
read_location r = do
  (generation, r1) ← read_identity 32 r
  (owner, r2) ← read_identity 32 r1
  (cell, r3) ← read_identity 16 r2
  (schema, r4) ← read_identity 32 r3
  ok (record { generation = generation; owner = owner; cell = cell; schema = schema }, r4)

-- `for _ in 0..n { x.push(self.value(depth + 1)?) }`
unfoldable pub read_values : Read Value → ℕ → Read Values
read_values go zero r = ok (nil, r)
read_values go (suc n) r = do (v, r1) ← go r; (vs, r2) ← read_values go n r1; ok (cons v vs, r2)

-- `previous.as_ref().is_some_and(|p| p >= &k)`
abbrev pub ascends : Option Text → Text → Bool
ascends none k = true
ascends (some p) k = less p k

-- Keys must ascend, so an insertion into the map is at its end.
unfoldable pub read_entries : Read Value → ℕ → Option Text → Read Entries
read_entries go zero previous r = ok (end, r)
read_entries go (suc n) previous r = do
  (k, r1) ← read_text r
  guard (ascends previous k) (invalid "unordered or duplicate map key")
  (v, r2) ← go r1
  (es, r3) ← read_entries go n (some k) r2
  ok (entry k v es, r3)

-- The arms of the match on the tag; `go` reads a value one level down.
unfoldable pub read_tagged : Read Value → ℕ → Read Value
read_tagged go tag r =
    if tag == 0
    then ok (null, r)
    else if tag == 1
    then ok (bool false, r)
    else if tag == 2
    then ok (bool true, r)
    else if tag == 3
    then (do (x, r1) ← read_word r; ok (i64 x, r1))
    else if tag == 4
    then (do (x, r1) ← read_word r; ok (u64 x, r1))
    else if tag == 5
    then (do (x, r1) ← read_text r; ok (string x, r1))
    else if tag == 6
    then (do (n, r1) ← read_length r; (x, r2) ← read_bytes n r1; ok (bytes x, r2))
    else if tag == 7
    then (do
      (n, r1) ← read_length r
      guard (leb n max_count) (invalid "count limit")
      (x, r2) ← read_values go n r1
      ok (list x, r2))
    else if tag == 8
    then (do
      (n, r1) ← read_length r
      guard (leb n max_count) (invalid "count limit")
      (x, r2) ← read_entries go n none r1
      ok (map x, r2))
    else if tag == 9
    then (do (x, r1) ← read_location r; ok (ref x, r1))
    else err (invalid "unknown tag")

unfoldable pub first_byte : List ℕ → ℕ
first_byte [] = 0
first_byte (b ∷ bs) = b

unfoldable pub read_value : ℕ → Read Value
unfolding first_byte
read_value zero r = err (invalid "depth limit")
read_value (suc left) r = do
  (word, r1) ← read_bytes 1 r
  read_tagged (read_value left) (first_byte word) r1

unfoldable pub decode_schema : List ℕ → Result Failure Value
decode_schema input = do
  guard (leb (length input) max_bytes) (invalid "payload limit")
  (v, rest) ← read_value (max_depth + 1) input
  guard (length rest == 0) (invalid "trailing bytes")
  ok v

unfoldable pub decode : List ℕ → Result Failure Value
decode input = do
  guard (leb (length input) max_bytes && (take 4 input =? v2_prefix))
      (invalid "invalid value prefix or payload limit")
  decode_schema (drop 4 input)
