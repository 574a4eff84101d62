-- ===== src/Contract/Wire/Put/Inverse.antt =====
-- The encoder writes nothing but the wire form of values within the limits.
use mathlib.Core.List.{append_assoc, append-nil}
use phenix_ai.Prelude.{
  ℕ, ◌+◌, ◌^◌, ◌≤◌, ◌<◌, ◌≡◌, ap, ◌∙◌, true, false, List, [], ◌∷◌, ◌++◌, length, leb, arith,
}
use phenix_ai.Contract.Failure.{Failure, Result, ok, ◌>>=◌, guard, invalid, >>=-eq-ok}
use phenix_ai.Contract.Value.{
  Value, Values, Entries, null, ref, bool, i64, u64, string, bytes, list, map, nil, cons, end,
  entry, max_bytes, max_depth, max_count, length_values, length_entries,
}
use phenix_ai.Contract.Wire.{put, put_values, put_entries, put_length, bounded, enter}
use phenix_ai.Contract.Wire.Bytes.{to_be_bytes}
use phenix_ai.Contract.Wire.Put.{frame}
use phenix_ai.Contract.Wire.Spec.{wire, wire_values, wire_entries, Fits, FitsValues, FitsEntries}

guard-eq-ok : (n m : ℕ) (e : Failure) → guard (leb n m) e ≡ ok tt → n ≤ m
guard-eq-ok n m e h = ground arith

-- What a successful call has checked, and what it has written.
abbrev pub Wrote : List ℕ → List ℕ → List ℕ → Type 0
Wrote out w b = (b ≡ out ++ w) × (length b ≤ max_bytes)

bounded-eq-ok :
    (out : List ℕ) {b : List ℕ} → bounded out ≡ ok b → (b ≡ out) × (length b ≤ max_bytes)
unfolding bounded
bounded-eq-ok out h = (ground arith, ground arith)

enter-eq-ok :
    {A : Type 0} (depth : ℕ) (k : Result Failure A) {a : A}
    → (enter depth >>= λ _. k) ≡ ok a
    → (depth ≤ max_depth) × (k ≡ ok a)
unfolding enter
enter-eq-ok depth k h = (ground arith, ground arith)

put_length-eq-ok :
    (out : List ℕ) (n : ℕ) {b : List ℕ}
    → put_length out n ≡ ok b
    → (n < 2 ^ 32) × (b ≡ out ++ to_be_bytes 4 n)
unfolding put_length
put_length-eq-ok out n h = (ground arith, ground arith)

-- An arm that only writes.
leaf-eq-ok :
    (out w : List ℕ) (depth : ℕ) {b : List ℕ}
    → (enter depth >>= λ _. bounded (out ++ w)) ≡ ok b
    → (depth ≤ max_depth) × Wrote out w b
leaf-eq-ok out w depth h =
    let (d, k) = enter-eq-ok depth (bounded (out ++ w)) h in (d, bounded-eq-ok (out ++ w) k)

-- An arm that writes a length and bytes.
run-eq-ok :
    (out x : List ℕ) (t depth : ℕ) {b : List ℕ}
    → (enter depth >>= λ _. put_length (out ++ t ∷ []) (length x) >>= λ sized. bounded (sized ++ x))
      ≡ ok b
    → ((depth ≤ max_depth) × (length x < 2 ^ 32))
      × Wrote out (t ∷ (to_be_bytes 4 (length x) ++ x)) b
run-eq-ok out x t depth h =
    let (d, k) = enter-eq-ok depth _ h in
    let (sized, l, rest) = >>=-eq-ok (put_length (out ++ t ∷ []) (length x)) _ k in
    let (small, e) = put_length-eq-ok (out ++ t ∷ []) (length x) l in
    let (same, le) = bounded-eq-ok (sized ++ x) rest in
    ((d, small), (same ∙ ap (λ s. s ++ x) e ∙ frame out (to_be_bytes 4 (length x)) x t, le))

-- An arm that writes a count and then elements.
many-eq-ok :
    (out w : List ℕ) (t n depth : ℕ) (fill : List ℕ → Result Failure (List ℕ)) {P : Type 0}
    {b : List ℕ}
    → ((sized filled : List ℕ) → fill sized ≡ ok filled → P × (filled ≡ sized ++ w))
    → (enter depth >>= λ _. guard (leb n max_count) (invalid "count limit") >>= λ _.
        put_length (out ++ t ∷ []) n >>= λ sized. fill sized >>= λ filled. bounded filled)
      ≡ ok b
    → ((depth ≤ max_depth) × (n ≤ max_count) × P) × Wrote out (t ∷ (to_be_bytes 4 n ++ w)) b
many-eq-ok out w t n depth fill inner h =
    let (d, k) = enter-eq-ok depth _ h in
    let (_, g, k1) = >>=-eq-ok (guard (leb n max_count) (invalid "count limit")) _ k in
    let (sized, l, k2) = >>=-eq-ok (put_length (out ++ t ∷ []) n) _ k1 in
    let (filled, f, k3) = >>=-eq-ok (fill sized) _ k2 in
    let (p, e) = inner sized filled f in
    let (same, le) = bounded-eq-ok filled k3 in
    (
      (d, guard-eq-ok n max_count _ g, p),
      (
        same
            ∙ e
            ∙ ap (λ s. s ++ w) ((put_length-eq-ok (out ++ t ∷ []) n l).1)
            ∙ frame out (to_be_bytes 4 n) w t,
        le,
      ),
    )

mutual
  unfolding put wire Fits

  pub put-Fits :
      (v : Value) (out : List ℕ) (depth : ℕ) (b : List ℕ)
      → put v out depth ≡ ok b
      → Fits v depth × Wrote out (wire v) b
  put-Fits null out depth b h = leaf-eq-ok out (0 ∷ []) depth h
  put-Fits (ref r) out depth b h = leaf-eq-ok out (wire (ref r)) depth h
  put-Fits (bool false) out depth b h = leaf-eq-ok out (1 ∷ []) depth h
  put-Fits (bool true) out depth b h = leaf-eq-ok out (2 ∷ []) depth h
  put-Fits (i64 x) out depth b h = leaf-eq-ok out (wire (i64 x)) depth h
  put-Fits (u64 x) out depth b h = leaf-eq-ok out (wire (u64 x)) depth h
  put-Fits (string x) out depth b h = run-eq-ok out x 5 depth h
  put-Fits (bytes x) out depth b h = run-eq-ok out x 6 depth h
  put-Fits (list vs) out depth b h =
      many-eq-ok out (wire_values vs) 7 (length_values vs) depth
        (λ sized. put_values vs sized (depth + 1))
        (λ sized filled. put_values-Fits vs sized (depth + 1) filled) h
  put-Fits (map es) out depth b h =
      many-eq-ok out (wire_entries es) 8 (length_entries es) depth
        (λ sized. put_entries es sized (depth + 1))
        (λ sized filled. put_entries-Fits es sized (depth + 1) filled) h

  put_values-Fits :
      (vs : Values) (out : List ℕ) (depth : ℕ) (b : List ℕ)
      → put_values vs out depth ≡ ok b
      → FitsValues vs depth × (b ≡ out ++ wire_values vs)
  put_values-Fits nil out depth b h = (tt, rw append-nil (cc))
  put_values-Fits (cons v vs) out depth b h =
      let (out', first, rest) = >>=-eq-ok (put v out depth) _ h in
      let (fits, wrote) = put-Fits v out depth out' first in
      let (fits_rest, e') = put_values-Fits vs out' depth b rest in
      (
        (fits, fits_rest),
        e' ∙ ap (λ o. o ++ wire_values vs) wrote.0 ∙ append_assoc out (wire v) (wire_values vs),
      )

  put_entries-Fits :
      (es : Entries) (out : List ℕ) (depth : ℕ) (b : List ℕ)
      → put_entries es out depth ≡ ok b
      → FitsEntries es depth × (b ≡ out ++ wire_entries es)
  put_entries-Fits end out depth b h = (tt, rw append-nil (cc))
  put_entries-Fits (entry k v es) out depth b h =
      let (sized, l, k1) = >>=-eq-ok (put_length out (length k)) _ h in
      let (small, e0) = put_length-eq-ok out (length k) l in
      let (out', first, rest) = >>=-eq-ok (put v (sized ++ k) depth) _ k1 in
      let (fits, wrote) = put-Fits v (sized ++ k) depth out' first in
      let (fits_rest, e') = put_entries-Fits es out' depth b rest in
      (
        (small, fits, fits_rest),
        e'
            ∙ ap (λ o. o ++ wire_entries es) (wrote.0 ∙ ap (λ s. (s ++ k) ++ wire v) e0)
            ∙ simp append_assoc,
      )
