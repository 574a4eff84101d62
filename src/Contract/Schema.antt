-- ===== src/Contract/Schema.antt =====
-- crates/phenix-contract/src/reference.rs and descriptor/mod.rs: value schemas, what they accept,
-- and their descriptors. The digest is SHA-256, a parameter.
use phenix_ai.Prelude.{
  ℕ, suc, ◌+◌, Bool, true, false, not, ◌&&◌, ◌||◌, Option, none, some, List, [], ◌∷◌, ◌++◌, leb,
  ◌==◌, length, any, all,
}
use phenix_ai.Prelude.Order.{Text, text_ord, ◌=?◌, less, ascii}
use phenix_ai.Contract.Failure.{Failure, Result, ok, ◌>>=◌, ◌>>◌, guard, invalid}
use phenix_ai.Contract.Identity.{from_bytes}
use phenix_ai.Contract.Value
use phenix_ai.Contract.Value.{Value, Values, Entries, max_depth, length_values, length_entries}
use phenix_ai.Contract.Wire.{encode_schema}

-- `identifier` of descriptor/mod.rs.
unfoldable pub identifier : Text → Bool
identifier id =
    not (length id == 0)
    && leb (length id) 256
    && all
        (λ c.
          (leb b'0' c && leb c b'9')
          || (leb b'a' c && leb c b'z')
          || (leb b'A' c && leb c b'Z')
          || any (λ d. c == d) (ascii "._-"))
        id

mutual
  pub data Schema : Type 0 where
    bool i64 u64 string bytes : Schema
    list option : Schema → Schema
    struct : Fields → Schema
    variants : List Text → Schema
    tagged : Variants → Schema
    ref : List ℕ → Schema

  -- `BTreeMap<String, ValueSchema>`
  pub data Fields : Type 0 where
    end : Fields
    field : Text → Schema → Fields → Fields

  -- `BTreeMap<String, Option<ValueSchema>>`
  pub data Variants : Type 0 where
    close : Variants
    unit : Text → Variants → Variants
    payload : Text → Schema → Variants → Variants

-- `names.windows(2).any(|pair| pair[0] >= pair[1])`
unfoldable pub unordered : List Text → Bool
unordered [] = false
unordered (x ∷ []) = false
unordered (x ∷ y ∷ rest) = not (less x y) || unordered (y ∷ rest)

abbrev pub deep : ℕ → Result Failure (Unit {0})
deep depth = guard (leb depth max_depth) (invalid "schema depth limit")

abbrev pub is_close : Variants → Bool
is_close close = true
is_close _ = false

unfoldable mutual
  unfolding unordered

  pub validate : Schema → ℕ → Result Failure (Unit {0})
  validate bool depth = deep depth
  validate i64 depth = deep depth
  validate u64 depth = deep depth
  validate string depth = deep depth
  validate bytes depth = deep depth
  validate (list inner) depth = do deep depth; validate inner (depth + 1)
  validate (option inner) depth = do deep depth; validate inner (depth + 1)
  validate (struct fields) depth = do deep depth; validate_fields fields depth
  validate (variants names) depth = do
    deep depth
    guard (not (length names == 0 || any (λ name. not (identifier name)) names || unordered names))
        (invalid "invalid schema variants")
  validate (tagged vs) depth = do
    deep depth
    guard (not (is_close vs)) (invalid "empty tagged variants")
    validate_variants vs depth
  validate (ref id) depth = deep depth

  pub validate_fields : Fields → ℕ → Result Failure (Unit {0})
  validate_fields end depth = ok tt
  validate_fields (field name s rest) depth = do
    guard (identifier name) (invalid "invalid schema field name")
    validate s (depth + 1)
    validate_fields rest depth

  pub validate_variants : Variants → ℕ → Result Failure (Unit {0})
  validate_variants close depth = ok tt
  validate_variants (unit name rest) depth = do
    guard (identifier name) (invalid "invalid tagged variant name")
    validate_variants rest depth
  validate_variants (payload name s rest) depth = do
    guard (identifier name) (invalid "invalid tagged variant name")
    validate s (depth + 1)
    validate_variants rest depth

abbrev pub pair : Text → Value → Value
pair name inner = Value.list (Value.cons (Value.string name) (Value.cons inner Value.nil))

abbrev pub names_value : List Text → Values
names_value [] = Value.nil
names_value (x ∷ xs) = Value.cons (Value.string x) (names_value xs)

unfoldable mutual
  pub descriptor : Schema → Value
  descriptor bool = Value.string (ascii "Bool")
  descriptor i64 = Value.string (ascii "I64")
  descriptor u64 = Value.string (ascii "U64")
  descriptor string = Value.string (ascii "String")
  descriptor bytes = Value.string (ascii "Bytes")
  descriptor (list inner) = pair (ascii "List") (descriptor inner)
  descriptor (option inner) = pair (ascii "Option") (descriptor inner)
  descriptor (struct fields) = pair (ascii "Struct") (Value.map (descriptor_fields fields))
  descriptor (variants names) = pair (ascii "Variants") (Value.list (names_value names))
  descriptor (tagged vs) = pair (ascii "Tagged") (Value.map (descriptor_variants vs))
  descriptor (ref id) = pair (ascii "Ref") (Value.bytes id)

  pub descriptor_fields : Fields → Entries
  descriptor_fields end = Value.end
  descriptor_fields (field name s rest) = Value.entry name (descriptor s) (descriptor_fields rest)

  pub descriptor_variants : Variants → Entries
  descriptor_variants close = Value.end
  descriptor_variants (unit name rest) = Value.entry name Value.null (descriptor_variants rest)
  descriptor_variants (payload name s rest) =
      Value.entry name (descriptor s) (descriptor_variants rest)

-- `ValueSchema::encode`
unfoldable pub encode : Schema → Result Failure (List ℕ)
encode s = do validate s 0; encode_schema (descriptor s)

-- `ValueSchema::id`, over the hash of a message.
unfoldable pub id : (List ℕ → List ℕ) → Schema → Result Failure (List ℕ)
id sha256 s = do
  encoded ← encode s
  from_bytes 32 (sha256 ((ascii "phenix.schema.v2" ++ 0 ∷ []) ++ encoded))

abbrev pub all_values : (Value → Bool) → Values → Bool
all_values p Value.nil = true
all_values p (Value.cons v vs) = p v && all_values p vs

-- `values.get(k)`
abbrev pub get_entry : Text → Entries → Option Value
get_entry k Value.end = none
get_entry k (Value.entry j v es) = elim (k =? j) [ true ↦ some v | false ↦ get_entry k es ]

abbrev pub length_fields : Fields → ℕ
length_fields end = 0
length_fields (field k s rest) = suc (length_fields rest)

abbrev pub some_and : Option Value → (Value → Bool) → Bool
some_and none p = false
some_and (some v) p = p v

abbrev pub is_null : Value → Bool
is_null Value.null = true
is_null _ = false

-- A list of one item that passes the test.
abbrev pub singleton_and : Values → (Value → Bool) → Bool
singleton_and (Value.cons v Value.nil) p = p v
singleton_and _ p = false

-- A map of one entry that passes the test.
abbrev pub one_entry_and : Entries → (Text → Value → Bool) → Bool
one_entry_and (Value.entry k v Value.end) p = p k v
one_entry_and _ p = false

-- The arms of the outer match that look at the value; the tests are the recursive calls.
abbrev pub accepts_list : Value → (Value → Bool) → Bool
accepts_list (Value.list items) p = all_values p items
accepts_list _ p = false

abbrev pub accepts_option : Value → (Value → Bool) → Bool
accepts_option Value.null p = true
accepts_option (Value.list items) p = singleton_and items p
accepts_option _ p = false

abbrev pub accepts_map : Value → (Entries → Bool) → Bool
accepts_map (Value.map es) p = p es
accepts_map _ p = false

unfoldable mutual
  pub accepts : Schema → Value → Bool
  accepts bool v = elim v [ Value.bool b ↦ true | _ ↦ false ]
  accepts i64 v = elim v [ Value.i64 x ↦ true | _ ↦ false ]
  accepts u64 v = elim v [ Value.u64 x ↦ true | _ ↦ false ]
  accepts string v = elim v [ Value.string x ↦ true | _ ↦ false ]
  accepts bytes v = elim v [ Value.bytes x ↦ true | _ ↦ false ]
  accepts (list inner) v = accepts_list v (accepts inner)
  accepts (option inner) v = accepts_option v (accepts inner)
  accepts (struct fields) v =
      accepts_map v λ es. length_fields fields == length_entries es && accepts_fields fields es
  accepts (variants names) v = elim v [ Value.string name ↦ any (λ n. n =? name) names | _ ↦ false ]
  accepts (tagged vs) v =
      accepts_map v λ es. one_entry_and es λ name payload. accepts_variants vs name payload
  accepts (ref schema) v = elim v [ Value.ref location ↦ schema =? location.schema | _ ↦ false ]

  pub accepts_fields : Fields → Entries → Bool
  accepts_fields end es = true
  accepts_fields (field k s rest) es =
      some_and (get_entry k es) (accepts s) && accepts_fields rest es

  pub accepts_variants : Variants → Text → Value → Bool
  accepts_variants close name v = false
  accepts_variants (unit k rest) name v = elim (name =? k) [
    | true ↦ is_null v
    | false ↦ accepts_variants rest name v
  ]
  accepts_variants (payload k s rest) name v = elim (name =? k) [
    | true ↦ accepts s v
    | false ↦ accepts_variants rest name v
  ]
