-- ===== src/Contract/Wire/Spec.antt =====
-- The wire form of a value apart from the encoder's checks, the limits of the format, and what the
-- types of the source guarantee of a value.
use Prim.Native.Nat.Ordering.{lt}
use phenix_ai.Prelude.{
  ℕ, ◌+◌, ◌^◌, ◌≤◌, ◌<◌, ◌≡◌, true, false, Option, none, some, List, [], ◌∷◌, ◌++◌, length, All,
}
use phenix_ai.Prelude.Order.{Text, compare_text}
use phenix_ai.Contract.Identity.{ValueLocation, IsLocation}
use phenix_ai.Contract.Value.{
  Value, Values, Entries, null, ref, bool, i64, u64, string, bytes, list, map, nil, cons, end,
  entry, max_depth, max_count, length_values, length_entries, is_utf8,
}
use phenix_ai.Contract.Wire.Bytes.{to_be_bytes}

abbrev pub wire_location : ValueLocation → List ℕ
wire_location r = r.generation ++ (r.owner ++ (r.cell ++ r.schema))

unfoldable mutual
  pub wire : Value → List ℕ
  wire null = 0 ∷ []
  wire (ref r) = 9 ∷ wire_location r
  wire (bool false) = 1 ∷ []
  wire (bool true) = 2 ∷ []
  wire (i64 x) = 3 ∷ to_be_bytes 8 x
  wire (u64 x) = 4 ∷ to_be_bytes 8 x
  wire (string x) = 5 ∷ (to_be_bytes 4 (length x) ++ x)
  wire (bytes x) = 6 ∷ (to_be_bytes 4 (length x) ++ x)
  wire (list vs) = 7 ∷ (to_be_bytes 4 (length_values vs) ++ wire_values vs)
  wire (map es) = 8 ∷ (to_be_bytes 4 (length_entries es) ++ wire_entries es)

  pub wire_values : Values → List ℕ
  wire_values nil = []
  wire_values (cons v vs) = wire v ++ wire_values vs

  pub wire_entries : Entries → List ℕ
  wire_entries end = []
  wire_entries (entry k v es) = to_be_bytes 4 (length k) ++ (k ++ (wire v ++ wire_entries es))

-- At this depth the value is not too deep, nor a text, list or map in it too long.
unfoldable mutual
  pub Fits : Value → ℕ → Type 0
  Fits null depth = depth ≤ max_depth
  Fits (ref r) depth = depth ≤ max_depth
  Fits (bool b) depth = depth ≤ max_depth
  Fits (i64 x) depth = depth ≤ max_depth
  Fits (u64 x) depth = depth ≤ max_depth
  Fits (string x) depth = (depth ≤ max_depth) × (length x < 2 ^ 32)
  Fits (bytes x) depth = (depth ≤ max_depth) × (length x < 2 ^ 32)
  Fits (list vs) depth =
      (depth ≤ max_depth) × (length_values vs ≤ max_count) × FitsValues vs (depth + 1)
  Fits (map es) depth =
      (depth ≤ max_depth) × (length_entries es ≤ max_count) × FitsEntries es (depth + 1)

  pub FitsValues : Values → ℕ → Type 0
  FitsValues nil depth = Unit {0}
  FitsValues (cons v vs) depth = Fits v depth × FitsValues vs depth

  pub FitsEntries : Entries → ℕ → Type 0
  FitsEntries end depth = Unit {0}
  FitsEntries (entry k v es) depth = (length k < 2 ^ 32) × Fits v depth × FitsEntries es depth

abbrev pub IsBytes : List ℕ → Type 0
IsBytes = All (λ b. b < 256)

abbrev pub IsText : Text → Type 0
IsText x = IsBytes x × (is_utf8 x ≡ true)

-- The key is above the one before it, if there is one.
abbrev pub IsAfter : Option Text → Text → Type 0
IsAfter none k = Unit {0}
IsAfter (some p) k = compare_text p k ≡ lt

-- What the types of the source guarantee: words and bytes in range, texts in UTF-8, identities of
-- their widths, keys in order.
unfoldable mutual
  pub IsValue : Value → Type 0
  IsValue null = Unit {0}
  IsValue (ref r) = IsLocation r
  IsValue (bool b) = Unit {0}
  IsValue (i64 x) = x < 2 ^ 64
  IsValue (u64 x) = x < 2 ^ 64
  IsValue (string x) = IsText x
  IsValue (bytes x) = IsBytes x
  IsValue (list vs) = IsValues vs
  IsValue (map es) = IsEntries es none

  pub IsValues : Values → Type 0
  IsValues nil = Unit {0}
  IsValues (cons v vs) = IsValue v × IsValues vs

  pub IsEntries : Entries → Option Text → Type 0
  IsEntries end previous = Unit {0}
  IsEntries (entry k v es) previous =
      IsAfter previous k × IsText k × IsValue v × IsEntries es (some k)
