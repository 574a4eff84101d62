-- ===== src/Contract/Wire/Read/Leaf.antt =====
-- The readers of bytes, words, texts and locations: each takes back what was written, and takes
-- nothing else.
use mathlib.Core.List.{append_assoc}
use phenix_ai.Prelude.{
  ℕ, zero, suc, ◌^◌, ◌≤◌, ◌<◌, ◌≡◌, refl, ap, subst, ◌∙◌, true, Option, none, some, List, [], ◌∷◌,
  ◌++◌, length, take, drop, arith, length-append,
}
use phenix_ai.Prelude.Order.{Text}
use phenix_ai.Contract.Failure.{ok, ◌>>=◌, >>=-eq-ok, guard-eq-ok, ok_injective}
use phenix_ai.Contract.Identity.{
  ValueLocation, IsLocation, IsIdentity, from_bytes, from_bytes-IsIdentity, from_bytes-eq-ok,
}
use phenix_ai.Contract.Value.{is_utf8}
use phenix_ai.Contract.Wire.{
  Read, ascends, read_bytes, read_length, read_word, read_text, read_identity, read_location,
}
use phenix_ai.Contract.Wire.Bytes.{
  to_be_bytes, from_be_bytes, length-to_be_bytes, from_be_bytes-to_be_bytes,
  to_be_bytes-from_be_bytes, from_be_bytes-lt,
}
use phenix_ai.Contract.Wire.Spec.{IsBytes, IsText, IsAfter, wire_location}

pub IsBytes-append : (xs ys : List ℕ) → IsBytes xs → IsBytes ys → IsBytes (xs ++ ys)
IsBytes-append [] ys a b = b
IsBytes-append (x ∷ xs) ys a b = (a.0, IsBytes-append xs ys a.1 b)

pub IsBytes-split : (xs ys : List ℕ) → IsBytes (xs ++ ys) → IsBytes xs × IsBytes ys
IsBytes-split [] ys a = (tt, a)
IsBytes-split (x ∷ xs) ys a = let (b, c) = IsBytes-split xs ys a.1 in ((a.0, b), c)

take-append : (xs r : List ℕ) → take (length xs) (xs ++ r) ≡ xs
take-append [] r = refl
take-append (x ∷ xs) r = ap (λ t. x ∷ t) (take-append xs r)

drop-append : (xs r : List ℕ) → drop (length xs) (xs ++ r) ≡ r
drop-append [] r = refl
drop-append (x ∷ xs) r = drop-append xs r

pub take-drop : (n : ℕ) (r : List ℕ) → r ≡ take n r ++ drop n r
take-drop zero r = refl
take-drop (suc n) [] = refl
take-drop (suc n) (x ∷ r) = ap (λ t. x ∷ t) (take-drop n r)

length-take_le : (n : ℕ) (r : List ℕ) → n ≤ length r → length (take n r) ≡ n
length-take_le zero r h = refl
length-take_le (suc n) [] h = omega arith
length-take_le (suc n) (x ∷ r) h = ap suc (length-take_le n r (omega arith))

-- A reader gives back `a` where `w` was written.
abbrev pub Returns : {A : Type 0} → Read A → List ℕ → A → Type 0
Returns m w a = (r : List ℕ) → m (w ++ r) ≡ ok (a, r)

-- What a reader takes is the wire form of its result, and the result is one of `P`.
abbrev pub Took : {A : Type 0} → (A → List ℕ) → (A → Type 0) → List ℕ → A × List ℕ → Type 0
Took w P r p = (r ≡ w p.0 ++ p.1) × IsBytes p.1 × P p.0

abbrev pub Takes : {A : Type 0} → Read A → (A → List ℕ) → (A → Type 0) → Type 0
Takes {A} m w P = (r : List ℕ) (p : A × List ℕ) → IsBytes r → m r ≡ ok p → Took w P r p

pub read_bytes-Returns : (n : ℕ) (xs : List ℕ) → length xs ≡ n → Returns (read_bytes n) xs xs
unfolding read_bytes
read_bytes-Returns n xs h r =
    rw (← h) (ground (arith, length-append xs r, take-append xs r, drop-append xs r))

read_bytes-eq-ok :
    (n : ℕ) (r : List ℕ) (p : List ℕ × List ℕ)
    → read_bytes n r ≡ ok p
    → (n ≤ length r) × ((take n r, drop n r) ≡ p)
unfolding read_bytes
read_bytes-eq-ok n r p h = ground arith

pub read_bytes-Takes : (n : ℕ) → Takes (read_bytes n) (λ x. x) (λ x. (length x ≡ n) × IsBytes x)
unfolding read_bytes
read_bytes-Takes n r p b h =
    let (front, back) = IsBytes-split (take n r) (drop n r) (rw (← take-drop n r) b) in
    subst (Took (λ x. x) (λ x. (length x ≡ n) × IsBytes x) r) (read_bytes-eq-ok n r p h).1
      (take-drop n r, back, (length-take_le n r (read_bytes-eq-ok n r p h).0, front))

word : (k : ℕ) → Read ℕ
word k r = read_bytes k r >>= λ p. ok (from_be_bytes p.0, p.1)

word-Returns : (k n : ℕ) → n < 256 ^ k → Returns (word k) (to_be_bytes k n) n
unfolding word
word-Returns k n h r = rw (
  read_bytes-Returns k (to_be_bytes k n) (length-to_be_bytes k n) r,
  from_be_bytes-to_be_bytes k n h,
)

word-Takes : (k : ℕ) → Takes (word k) (to_be_bytes k) (λ n. n < 256 ^ k)
unfolding word
word-Takes k r p b h =
    let (q, h1, h2) = >>=-eq-ok (read_bytes k r) _ h in
    let (e, b1, (l, small)) = read_bytes-Takes k r q b h1 in
    subst (Took (to_be_bytes k) (λ n. n < 256 ^ k) r) (ok_injective h2)
      (rw (to_be_bytes-from_be_bytes k q.0 l small) e, b1, from_be_bytes-lt k q.0 l small)

pub read_length-Returns : (n : ℕ) → n < 2 ^ 32 → Returns read_length (to_be_bytes 4 n) n
unfolding read_length word
read_length-Returns n h = word-Returns 4 n h

pub read_length-Takes : Takes read_length (to_be_bytes 4) (λ n. n < 2 ^ 32)
unfolding read_length word
read_length-Takes = word-Takes 4

pub read_word-Returns : (n : ℕ) → n < 2 ^ 64 → Returns read_word (to_be_bytes 8 n) n
unfolding read_word word
read_word-Returns n h = word-Returns 8 n h

pub read_word-Takes : Takes read_word (to_be_bytes 8) (λ n. n < 2 ^ 64)
unfolding read_word word
read_word-Takes = word-Takes 8

abbrev pub wire_text : List ℕ → List ℕ
wire_text x = to_be_bytes 4 (length x) ++ x

pub read_text-Returns :
    (x : Text) → length x < 2 ^ 32 → IsText x → Returns read_text (wire_text x) x
unfolding read_text
read_text-Returns x small t r = rw (
  append_assoc (to_be_bytes 4 (length x)) x r,
  read_length-Returns (length x) small (x ++ r),
  read_bytes-Returns (length x) x refl r,
  t.1,
)

pub read_text-Takes : Takes read_text wire_text (λ x. (length x < 2 ^ 32) × IsText x)
unfolding read_text
read_text-Takes r p b h =
    let (q, h1, h2) = >>=-eq-ok (read_length r) _ h in
    let (e1, b1, n) = read_length-Takes r q b h1 in
    let (s, h3, h4) = >>=-eq-ok (read_bytes q.0 q.1) _ h2 in
    let (e2, b2, (l, small)) = read_bytes-Takes q.0 q.1 s b1 h3 in
    let (u, h5) = guard-eq-ok (is_utf8 s.0) _ _ h4 in
    let e : r ≡ wire_text s.0 ++ s.1 =
      rw (l, append_assoc (to_be_bytes 4 q.0) s.0 s.1) (e1 ∙ ap (λ t. to_be_bytes 4 q.0 ++ t) e2) in
    subst (Took wire_text (λ x. (length x < 2 ^ 32) × IsText x) r) (ok_injective h5)
      (e, b2, (rw l n, (small, u)))

read_identity-Returns :
    (size : ℕ) (id : List ℕ) → IsIdentity size id → Returns (read_identity size) id id
unfolding read_identity
read_identity-Returns size id i r =
    rw (read_bytes-Returns size id i.0 r, from_bytes-IsIdentity size id i)

read_identity-Takes : (size : ℕ) → Takes (read_identity size) (λ x. x) (IsIdentity size)
unfolding read_identity
read_identity-Takes size r p b h =
    let (q, h1, h2) = >>=-eq-ok (read_bytes size r) _ h in
    let (e, b1, (l, small)) = read_bytes-Takes size r q b h1 in
    let (id, h3, h4) = >>=-eq-ok (from_bytes size q.0) _ h2 in
    let (same, i) = from_bytes-eq-ok size q.0 h3 small in
    subst (Took (λ x. x) (IsIdentity size) r) (ok_injective h4) (rw same e, b1, rw same i)

pub read_location-Returns :
    (l : ValueLocation) → IsLocation l → Returns read_location (wire_location l) l
unfolding read_location
read_location-Returns l i r = simp (append_assoc) (
    rw (
      read_identity-Returns 32 l.generation i.generation (l.owner ++ (l.cell ++ (l.schema ++ r))),
      read_identity-Returns 32 l.owner i.owner (l.cell ++ (l.schema ++ r)),
      read_identity-Returns 16 l.cell i.cell (l.schema ++ r),
      read_identity-Returns 32 l.schema i.schema r,
    ))

pub read_location-Takes : Takes read_location wire_location IsLocation
unfolding read_location
read_location-Takes r p b h =
    let (p1, h1, k1) = >>=-eq-ok (read_identity 32 r) _ h in
    let (p2, h2, k2) = >>=-eq-ok (read_identity 32 p1.1) _ k1 in
    let (p3, h3, k3) = >>=-eq-ok (read_identity 16 p2.1) _ k2 in
    let (p4, h4, k4) = >>=-eq-ok (read_identity 32 p3.1) _ k3 in
    let (e1, b1, i1) = read_identity-Takes 32 r p1 b h1 in
    let (e2, b2, i2) = read_identity-Takes 32 p1.1 p2 b1 h2 in
    let (e3, b3, i3) = read_identity-Takes 16 p2.1 p3 b2 h3 in
    let (e4, b4, i4) = read_identity-Takes 32 p3.1 p4 b3 h4 in
    subst (Took wire_location IsLocation r) (ok_injective k4) (
      e1
          ∙ ap (λ t. p1.0 ++ t) (e2 ∙ ap (λ t. p2.0 ++ t) (e3 ∙ ap (λ t. p3.0 ++ t) e4))
          ∙ simp append_assoc,
      b4,
      record { generation = i1; owner = i2; cell = i3; schema = i4 },
    )

-- The test of the decoder is the order of the keys.
pub ascends-IsAfter :
    (previous : Option Text) (k : Text) → ascends previous k ≡ true → IsAfter previous k
ascends-IsAfter none k h = tt
ascends-IsAfter (some p) k h = ground (arith, h)

pub IsAfter-ascends :
    (previous : Option Text) (k : Text) → IsAfter previous k → ascends previous k ≡ true
IsAfter-ascends none k h = refl
IsAfter-ascends (some p) k h = ground (arith, h)
