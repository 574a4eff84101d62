-- ===== src/Contract/Value.antt =====
-- crates/phenix-contract/src/value.rs: the portable values. A text is its UTF-8 bytes, an `i64` is
-- its 64-bit two's-complement word, and a map is its entries in the order of their keys.
use phenix_ai.Prelude.{
  ℕ, zero, suc, ◌^◌, Bool, true, false, ◌&&◌, Option, none, some, List, [], ◌∷◌, if◌then◌else◌, leb,
  ◌==◌,
}
use phenix_ai.Prelude.Order.{Text}
use phenix_ai.Contract.Identity.{ValueLocation}

abbrev pub max_bytes : ℕ
max_bytes = 2 ^ 20

abbrev pub max_depth : ℕ
max_depth = 32

abbrev pub max_count : ℕ
max_count = 65_536

mutual
  pub data Value : Type 0 where
    null : Value
    ref : ValueLocation → Value
    bool : Bool → Value
    i64 : ℕ → Value
    u64 : ℕ → Value
    string : Text → Value
    bytes : List ℕ → Value
    list : Values → Value
    map : Entries → Value

  pub data Values : Type 0 where
    nil : Values
    cons : Value → Values → Values

  pub data Entries : Type 0 where
    end : Entries
    entry : Text → Value → Entries → Entries

abbrev pub length_values : Values → ℕ
length_values nil = 0
length_values (cons v vs) = suc (length_values vs)

abbrev pub length_entries : Entries → ℕ
length_entries end = 0
length_entries (entry k v es) = suc (length_entries es)

-- A lead byte: how many continuation bytes follow, and the range of the first.
unfoldable pub utf8_lead : ℕ → Option (ℕ × ℕ × ℕ)
utf8_lead b =
    if leb b 0x7f
    then some (0, 0x80, 0xbf)
    else if leb b 0xc1
    then none
    else if leb b 0xdf
    then some (1, 0x80, 0xbf)
    else if b == 0xe0
    then some (2, 0xa0, 0xbf)
    else if b == 0xed
    then some (2, 0x80, 0x9f)
    else if leb b 0xef
    then some (2, 0x80, 0xbf)
    else if b == 0xf0
    then some (3, 0x90, 0xbf)
    else if leb b 0xf3
    then some (3, 0x80, 0xbf)
    else if b == 0xf4
    then some (3, 0x80, 0x8f)
    else none

-- `more` continuation bytes are awaited, the next of them between `lo` and `hi`.
unfoldable pub utf8_from : ℕ → ℕ → ℕ → List ℕ → Bool
unfolding utf8_lead
utf8_from zero lo hi [] = true
utf8_from (suc more) lo hi [] = false
utf8_from (suc more) lo hi (b ∷ bs) = leb lo b && leb b hi && utf8_from more 0x80 0xbf bs
utf8_from zero lo hi (b ∷ bs) = elim (utf8_lead b) [
  | none ↦ false
  | some (more, lo', hi') ↦ utf8_from more lo' hi' bs
]

-- `String::from_utf8` accepts the bytes.
abbrev pub is_utf8 : List ℕ → Bool
is_utf8 = utf8_from 0 0x80 0xbf
