-- ===== src/Prelude/Chars.antt =====
-- Tests of the characters of a text, on its UTF-8 bytes: `char::is_control` and `str::trim`.
use phenix_ai.Prelude.{
  ℕ, Bool, true, false, ◌&&◌, ◌||◌, Option, none, some, [], ◌∷◌, ltb, leb, ◌==◌, if◌then◌else◌,
}
use phenix_ai.Prelude.Order.{Text}

-- `char::is_control` of some character: U+0000 to U+001F, U+007F, U+0080 to U+009F in two bytes.
abbrev pub starts_c1 : Text → Bool
starts_c1 [] = false
starts_c1 (b ∷ t) = leb 0x80 b && leb b 0x9F

unfoldable pub has_control : Text → Bool
has_control [] = false
has_control (b ∷ t) = ltb b 0x20 || b == 0x7F || (b == 0xC2 && starts_c1 t) || has_control t

abbrev pub two_byte_space : ℕ → ℕ → Bool
two_byte_space a b = a == 0xC2 && (b == 0x85 || b == 0xA0)

abbrev pub three_byte_space : ℕ → ℕ → ℕ → Bool
three_byte_space a b c =
    (a == 0xE1 && b == 0x9A && c == 0x80)
    || (a == 0xE2
        && b == 0x80
        && ((leb 0x80 c && leb c 0x8A) || c == 0xA8 || c == 0xA9 || c == 0xAF))
    || (a == 0xE2 && b == 0x81 && c == 0x9F)
    || (a == 0xE3 && b == 0x80 && c == 0x80)

abbrev pub one_byte_space : ℕ → Bool
one_byte_space a = (leb 9 a && leb a 13) || a == 32

-- `text.trim().is_empty()`: every character is white space, in one, two or three bytes.
unfoldable pub is_blank : Text → Bool
is_blank [] = true
is_blank (a ∷ []) = one_byte_space a
is_blank (a ∷ b ∷ []) = (one_byte_space a && one_byte_space b) || two_byte_space a b
is_blank (a ∷ b ∷ c ∷ t) =
    let one = is_blank (b ∷ c ∷ t) in
    let two = is_blank (c ∷ t) in
    let three = is_blank t in
    if one_byte_space a
    then one
    else if two_byte_space a b
    then two
    else three_byte_space a b c && three

abbrev pub none_or {ℓ} : {A : Type ℓ} → (A → Bool) → Option A → Bool
none_or p none = true
none_or p (some a) = p a
