-- ===== src/Contract/Wire/Read/Back.antt =====
-- The decoder gives back every value within the limits from its wire form.
use mathlib.Core.List.{append_assoc}
use phenix_ai.Prelude.{
  ℕ, zero, suc, ◌+◌, ◌≤◌, ◌≡◌, refl, true, false, Option, none, some, List, [], ◌∷◌, ◌++◌, length,
  leb, arith,
}
use phenix_ai.Prelude.Order.{Text}
use phenix_ai.Contract.Failure.{Failure, ok, guard}
use phenix_ai.Contract.Value.{
  Value, Values, Entries, null, ref, bool, i64, u64, string, bytes, list, map, nil, cons, end,
  entry, max_depth, max_count, length_values, length_entries,
}
use phenix_ai.Contract.Wire.{Read, read_values, read_entries, read_tagged, read_value}
use phenix_ai.Contract.Wire.Bytes.{to_be_bytes}
use phenix_ai.Contract.Wire.Spec.{
  wire, wire_values, wire_entries, Fits, FitsValues, FitsEntries, IsValue, IsValues, IsEntries,
}
use phenix_ai.Contract.Wire.Read.Leaf.{
  Returns, read_bytes-Returns, read_length-Returns, read_word-Returns, read_text-Returns,
  read_location-Returns, IsAfter-ascends,
}

Fits-depth : (v : Value) (depth : ℕ) → Fits v depth → depth ≤ max_depth
unfolding Fits
Fits-depth null depth f = f
Fits-depth (string x) depth f = f.0
Fits-depth (bytes x) depth f = f.0
Fits-depth (list vs) depth f = f.0
Fits-depth (map es) depth f = f.0
Fits-depth _ depth f = f

module _ (go : Read Value) (depth : ℕ)
    (step : (v : Value) → Fits v depth → IsValue v → Returns go (wire v) v) where
  read_values-wire :
      (vs : Values)
      → FitsValues vs depth
      → IsValues vs
      → Returns (read_values go (length_values vs)) (wire_values vs) vs
  unfolding read_values wire Fits IsValue
  read_values-wire nil f i r = refl
  read_values-wire (cons v vs) f i r = rw (
    append_assoc (wire v) (wire_values vs) r,
    step v f.0 i.0 (wire_values vs ++ r),
    read_values-wire vs f.1 i.1 r,
  )

  read_entries-wire :
      (es : Entries) (previous : Option Text)
      → FitsEntries es depth
      → IsEntries es previous
      → Returns (read_entries go (length_entries es) previous) (wire_entries es) es
  unfolding read_entries wire Fits IsValue
  read_entries-wire end previous f i r = refl
  read_entries-wire (entry k v es) previous f i r =
      let shape : (to_be_bytes 4 (length k) ++ (k ++ (wire v ++ wire_entries es))) ++ r
          ≡ (to_be_bytes 4 (length k) ++ k) ++ (wire v ++ (wire_entries es ++ r)) =
        simp append_assoc in
      rw (
        shape,
        read_text-Returns k f.0 i.1 (wire v ++ (wire_entries es ++ r)),
        IsAfter-ascends previous k i.0,
        step v f.1 i.2 (wire_entries es ++ r),
        read_entries-wire es (some k) f.2 i.3 r,
      )

guard-le : (n m : ℕ) (e : Failure) → n ≤ m → guard (leb n m) e ≡ ok tt
guard-le n m e h = ground arith

-- A tag, and what its arm reads.
tagged :
    (left tag : ℕ) (w : List ℕ) (v : Value)
    → Returns (read_tagged (read_value left) tag) w v
    → Returns (read_value (suc left)) (tag ∷ w) v
unfolding read_value
tagged left tag w v h r = rw (read_bytes-Returns 1 (tag ∷ []) refl (w ++ r)) (h r)

pub read_value-wire :
    (left : ℕ) (v : Value) (depth : ℕ)
    → depth + left ≡ max_depth + 1
    → Fits v depth
    → IsValue v
    → Returns (read_value left) (wire v) v
unfolding wire Fits IsValue read_tagged
read_value-wire zero v depth d f i = absurd (omega (arith, Fits-depth v depth f))
read_value-wire (suc left) null depth d f i = tagged left 0 [] null (λ r. refl)
read_value-wire (suc left) (ref l) depth d f i =
    tagged left 9 _ (ref l) (λ r. rw (read_location-Returns l i r))
read_value-wire (suc left) (bool false) depth d f i = tagged left 1 [] (bool false) (λ r. refl)
read_value-wire (suc left) (bool true) depth d f i = tagged left 2 [] (bool true) (λ r. refl)
read_value-wire (suc left) (i64 x) depth d f i =
    tagged left 3 _ (i64 x) (λ r. rw (read_word-Returns x i r))
read_value-wire (suc left) (u64 x) depth d f i =
    tagged left 4 _ (u64 x) (λ r. rw (read_word-Returns x i r))
read_value-wire (suc left) (string x) depth d f i =
    tagged left 5 _ (string x) (λ r. rw (read_text-Returns x f.1 i r))
read_value-wire (suc left) (bytes x) depth d f i = tagged left 6 _ (bytes x) λ r. rw (
  append_assoc (to_be_bytes 4 (length x)) x r,
  read_length-Returns (length x) f.1 (x ++ r),
  read_bytes-Returns (length x) x refl r,
)
read_value-wire (suc left) (list vs) depth d f i = tagged left 7 _ (list vs) λ r. rw (
  append_assoc (to_be_bytes 4 (length_values vs)) (wire_values vs) r,
  read_length-Returns (length_values vs) (omega arith) (wire_values vs ++ r),
  guard-le (length_values vs) max_count _ f.1,
  read_values-wire (read_value left) (depth + 1)
      (λ v. read_value-wire left v (depth + 1) (omega arith)) vs f.2 i r,
)
read_value-wire (suc left) (map es) depth d f i = tagged left 8 _ (map es) λ r. rw (
  append_assoc (to_be_bytes 4 (length_entries es)) (wire_entries es) r,
  read_length-Returns (length_entries es) (omega arith) (wire_entries es ++ r),
  guard-le (length_entries es) max_count _ f.1,
  read_entries-wire (read_value left) (depth + 1)
      (λ v. read_value-wire left v (depth + 1) (omega arith)) es none f.2 i r,
)
