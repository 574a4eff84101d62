-- ===== src/Contract/Scope.antt =====
-- crates/phenix-contract/src/scope.rs: the authority of a scoped host call, with `operation_key` of
-- descriptor/mod.rs. A `BTreeSet` is the list of its elements in order.
pub mod Attenuation
pub mod Round
mod Examples
use phenix_ai.Prelude.{
  ℕ, zero, suc, ◌+◌, ◌-◌, ◌*◌, ◌/◌, ◌%◌, ◌^◌, Bool, true, false, not, ◌&&◌, ◌||◌, Option, none,
  some, List, [], ◌∷◌, ◌++◌, ltb, leb, ◌==◌, if◌then◌else◌, length, all, any, retain,
}
use phenix_ai.Prelude.Order.{Ord, Text, text_ord, ◌=?◌, less, ascii}
use phenix_ai.Contract.Failure.{
  Failure, Result, ok, err, guard, ◌>>=◌, ◌>>◌, failure, schema_rejected,
}
use phenix_ai.Contract.Schema.{identifier}
use phenix_ai.Contract.Value
use phenix_ai.Contract.Value.{Values, Entries}

-- `split_once`, and `rsplit_once` for the last separator.
unfoldable pub split_once : ℕ → Text → Option (Text × Text)
split_once c [] = none
split_once c (b ∷ t) =
    if b == c
    then some ([], t)
    else elim (split_once c t) [ none ↦ none | some p ↦ some (b ∷ p.0, p.1) ]

unfoldable pub rsplit_once : ℕ → Text → Option (Text × Text)
rsplit_once c [] = none
rsplit_once c (b ∷ t) = elim (rsplit_once c t) [
  | some p ↦ some (b ∷ p.0, p.1)
  | none ↦ if b == c then some ([], t) else none
]

-- `parse::<u32>`: digits, perhaps behind a plus sign, below 2^32.
unfoldable pub parse_digits : ℕ → Text → Option ℕ
parse_digits n [] = some n
parse_digits n (b ∷ t) =
    if leb b'0' b && leb b b'9' && ltb (n * 10 + (b - b'0')) (2 ^ 32)
    then parse_digits (n * 10 + (b - b'0')) t
    else none

unfoldable pub parse_u32 : Text → Option ℕ
parse_u32 [] = none
parse_u32 (b ∷ t) =
    if b == b'+' then (if length t == 0 then none else parse_digits 0 t) else parse_digits 0 (b ∷ t)

-- `to_string` of a `u32`, which has at most ten digits.
unfoldable pub decimal : ℕ → ℕ → Text
decimal zero n = []
decimal (suc fuel) n =
    let front = decimal fuel (n / 10) in
    if ltb n 10 then (b'0' + n) ∷ [] else front ++ (b'0' + n % 10) ∷ []

abbrev pub is_major : Option ℕ → Text → Bool
is_major none major = false
is_major (some m) major = ltb 0 m && major =? decimal 10 m

abbrev pub is_interface : Option (Text × Text) → Text → Bool
is_interface none operation = false
is_interface (some (name, major)) operation =
    identifier name && identifier operation && is_major (parse_u32 major) major

abbrev pub is_operation : Option (Text × Text) → Bool
is_operation none = false
is_operation (some (interface, operation)) = is_interface (rsplit_once b'@' interface) operation

unfoldable pub operation_key : Text → Bool
operation_key key = is_operation (split_once b'/' key)

pub record Authority : Type 0 where
  pub operations : List Text
  pub resources : List Text

unfoldable pub valid : Authority → Bool
valid a = all operation_key a.operations && all identifier a.resources

abbrev pub member : Text → List Text → Bool
member x set = any (λ y. x =? y) set

-- `intersection`, collected again.
abbrev pub intersection : List Text → List Text → List Text
intersection xs ys = retain (λ x. member x ys) xs

unfoldable pub intersect : Authority → Authority → Authority
intersect a b = record {
  operations = intersection a.operations b.operations;
  resources = intersection a.resources b.resources;
}

abbrev pub strings_value : List Text → Values
strings_value [] = Value.nil
strings_value (x ∷ xs) = Value.cons (Value.string x) (strings_value xs)

unfoldable pub to_value : Authority → Value.Value
to_value a = Value.map (
    Value.entry (ascii "operations") (Value.list (strings_value a.operations))
      (Value.entry (ascii "resources") (Value.list (strings_value a.resources)) Value.end))

abbrev pub invalid_scope : Failure
invalid_scope = failure schema_rejected "invalid host scope request"

-- `BTreeSet::insert`
unfoldable pub insert_text : Text → List Text → List Text
insert_text t [] = t ∷ []
insert_text t (x ∷ xs) =
    let rest = insert_text t xs in
    if less t x then t ∷ x ∷ xs else if t =? x then x ∷ xs else x ∷ rest

abbrev pub text_of : Value.Value → Option Text
text_of (Value.string t) = some t
text_of _ = none

-- A text above the one before it; `text <= previous` is refused.
abbrev pub above : Text → Option Text → Result Failure Text
above previous none = err invalid_scope
above previous (some t) = do guard (less previous t) invalid_scope; ok t

-- The loop of `strings`.
unfoldable pub strings_from : Text → List Text → Values → Result Failure (List Text)
strings_from previous result Value.nil = ok result
strings_from previous result (Value.cons v vs) = do
  t ← above previous (text_of v)
  strings_from t (insert_text t result) vs

abbrev pub strings : Option Value.Value → Result Failure (List Text)
strings (some (Value.list vs)) = strings_from [] [] vs
strings _ = err invalid_scope

-- `BTreeMap::remove` on the fields of a value.
abbrev pub take_field : Text → Entries → Option Value.Value × Entries
take_field k Value.end = (none, Value.end)
take_field k (Value.entry j v es) =
    let (found, rest) = take_field k es in
    if k =? j then (some v, es) else (found, Value.entry j v rest)

abbrev pub is_end : Entries → Bool
is_end Value.end = true
is_end _ = false

abbrev pub from_fields : Entries → Result Failure Authority
from_fields fields = do
  operations ← strings (take_field (ascii "operations") fields).0
  resources ← strings (take_field (ascii "resources") (take_field (ascii "operations") fields).1).0
  guard
      (is_end (take_field (ascii "resources") (take_field (ascii "operations") fields).1).1
        && valid (record { operations = operations; resources = resources }))
      invalid_scope
  ok (record { operations = operations; resources = resources })

unfoldable pub from_value : Value.Value → Result Failure Authority
from_value (Value.map fields) = from_fields fields
from_value _ = err invalid_scope
