-- ===== src/Contract/Wire/RoundTrip.antt =====
-- The wire form is canonical: what is encoded decodes to itself, and what decodes was encoded so.
use phenix_ai.Prelude.{
  ℕ, ◌+◌, ◌≤◌, ◌≡◌, refl, sym, ap, subst, ◌∙◌, Bool, true, ◌&&◌, List, [], ◌∷◌, ◌++◌, length, take,
  drop, leb, ◌==◌, ==_iff, arith,
}
use mathlib.Core.List.{append-nil}
use phenix_ai.Prelude.Order.{text_ord, ◌=?◌, =?_iff, =?_refl}
use phenix_ai.Contract.Failure.{ok, >>=-eq-ok, guard-eq-ok, ok_injective}
use phenix_ai.Contract.Value.{Value, max_bytes, max_depth}
use phenix_ai.Contract.Wire.{
  put, encode_schema, encode, read_value, decode_schema, decode, v2_prefix,
}
use phenix_ai.Contract.Wire.Spec.{IsBytes, wire, Fits, IsValue}
use phenix_ai.Contract.Wire.Put.{put-eq-wire}
use phenix_ai.Contract.Wire.Put.Inverse.{put-Fits}
use phenix_ai.Contract.Wire.Read.{read_value-wire, read_value-eq-ok, take-drop, IsBytes-split}

leb-le : (n m : ℕ) → leb n m ≡ true → n ≤ m
leb-le n m h = ground arith

le-leb : (n m : ℕ) → n ≤ m → leb n m ≡ true
le-leb n m h = ground arith

and-split : (a b : Bool) → (a && b) ≡ true → (a ≡ true) × (b ≡ true)
and-split a b h = ground arith

nil_of_length : (r : List ℕ) → (length r == 0) ≡ true → r ≡ []
nil_of_length [] h = refl
nil_of_length (x ∷ r) h = absurd (omega (arith, (==_iff (length (x ∷ r)) 0).0 h))

encode-eq-ok :
    (v : Value) (sent : List ℕ)
    → encode v ≡ ok sent
    → Fits v 0 × (sent ≡ v2_prefix ++ wire v) × (length (v2_prefix ++ wire v) ≤ max_bytes)
unfolding encode encode_schema
encode-eq-ok v sent h =
    let (payload, h1, k) = >>=-eq-ok (put v [] 0) _ h in
    let (f, w) = put-Fits v [] 0 payload h1 in
    let (g, k2) = guard-eq-ok (leb (length (v2_prefix ++ payload)) max_bytes) _ _ k in
    (
      f,
      sym (ok_injective k2) ∙ ap (λ p. v2_prefix ++ p) w.0,
      rw (← w.0) (leb-le (length (v2_prefix ++ payload)) max_bytes g),
    )

decode_schema-wire :
    (v : Value) → Fits v 0 → IsValue v → length (wire v) ≤ max_bytes → decode_schema (wire v) ≡ ok v
unfolding decode_schema
decode_schema-wire v f i l =
    let read : read_value (max_depth + 1) (wire v) ≡ ok (v, []) =
      rw (append-nil (wire v)) at (read_value-wire (max_depth + 1) v 0 refl f i []) in
    rw (le-leb (length (wire v)) max_bytes l, read)

-- A value of the program (IsValue: its numbers are 64-bit words, its texts UTF-8, its maps in key
-- order, its locations of identities) that encodes at all is what decoding its bytes gives.
pub decode-encode :
    (v : Value) (sent : List ℕ) → IsValue v → encode v ≡ ok sent → decode sent ≡ ok v
unfolding decode
decode-encode v sent i h =
    let (f, e, l) = encode-eq-ok v sent h in
    rw (
      e,
      le-leb (length (v2_prefix ++ wire v)) max_bytes l,
      =?_refl v2_prefix,
      decode_schema-wire v f i (omega arith),
    )

decode-eq-ok :
    (sent : List ℕ) (v : Value)
    → IsBytes sent
    → decode sent ≡ ok v
    → Fits v 0 × (sent ≡ v2_prefix ++ wire v) × (length sent ≤ max_bytes) × IsValue v
unfolding decode decode_schema
decode-eq-ok sent v b h =
    let (g, k) = guard-eq-ok (leb (length sent) max_bytes && (take 4 sent =? v2_prefix)) _ _ h in
    let (small, prefix) = and-split (leb (length sent) max_bytes) (take 4 sent =? v2_prefix) g in
    let (_, k2) = guard-eq-ok (leb (length (drop 4 sent)) max_bytes) _ _ k in
    let (p, r, k3) = >>=-eq-ok (read_value (max_depth + 1) (drop 4 sent)) _ k2 in
    let (empty, k4) = guard-eq-ok (length p.1 == 0) _ _ k3 in
    let halves = IsBytes-split (take 4 sent) (drop 4 sent) (rw (← take-drop 4 sent) b) in
    let (w, _, good) = read_value-eq-ok (max_depth + 1) 0 refl (drop 4 sent) p halves.1 r in
    let same : p.0 ≡ v = ok_injective k4 in
    (
      subst (λ u. Fits u 0) same good.0,
      take-drop 4 sent
          ∙ ap (λ t. t ++ drop 4 sent) ((=?_iff (take 4 sent) v2_prefix).0 prefix)
          ∙ ap (λ t. v2_prefix ++ t)
              (w
                ∙ ap (λ t. wire p.0 ++ t) (nil_of_length p.1 empty)
                ∙ append-nil (wire p.0)
                ∙ ap wire same),
      leb-le (length sent) max_bytes small,
      subst IsValue same good.1,
    )

-- Bytes (numbers below 256) that decode at all are the encoding of the value that they give,
-- which is a value of the program (IsValue), its maps in key order. No value has two encodings.
pub encode-decode :
    (sent : List ℕ) (v : Value)
    → IsBytes sent
    → decode sent ≡ ok v
    → (encode v ≡ ok sent) × IsValue v
unfolding decode decode_schema encode encode_schema
encode-decode sent v b h =
    let (f, e, l, i) = decode-eq-ok sent v b h in
    let bound : length (v2_prefix ++ wire v) ≤ max_bytes = subst (λ t. length t ≤ max_bytes) e l in
    let back : encode v ≡ ok sent = rw (
      put-eq-wire v [] 0 f (omega arith),
      le-leb (length (v2_prefix ++ wire v)) max_bytes bound,
      e,
    ) in
    (back, i)
