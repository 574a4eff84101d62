-- ===== src/Contract/Wire/Read/Forth.antt =====
-- What the decoder accepts is the wire form of its result, a value within the limits.
use mathlib.Core.List.{append_assoc}
use phenix_ai.Prelude.{
  ℕ, zero, suc, ◌+◌, ◌≤◌, ◌≡◌, refl, sym, ap, subst, if◌then◌else◌, ◌∙◌, inl, inr, Bool, true,
  false, Option, none, some, List, [], ◌∷◌, ◌++◌, length, leb, ◌==◌, ==_iff, arith, Bool-cases,
}
use phenix_ai.Prelude.Order.{Text}
use phenix_ai.Contract.Failure.{
  Failure, Result, ok, ◌>>=◌, guard, invalid, >>=-eq-ok, guard-eq-ok, ok_injective,
}
use phenix_ai.Contract.Value.{
  Value, null, ref, bool, i64, u64, string, bytes, list, map, max_depth, max_count, length_values,
  length_entries,
}
use phenix_ai.Contract.Wire.{
  Read, ascends, first_byte, read_bytes, read_length, read_word, read_text, read_location,
  read_values, read_entries, read_tagged, read_value,
}
use phenix_ai.Contract.Wire.Bytes.{to_be_bytes}
use phenix_ai.Contract.Wire.Spec.{
  IsBytes, wire, wire_values, wire_entries, Fits, FitsValues, FitsEntries, IsValue, IsValues,
  IsEntries,
}
use phenix_ai.Contract.Wire.Read.Leaf.{
  Took, Takes, read_bytes-Takes, read_length-Takes, read_word-Takes, read_text-Takes,
  read_location-Takes, ascends-IsAfter,
}

leb-le : (n m : ℕ) → leb n m ≡ true → n ≤ m
leb-le n m h = ground arith

module _ (go : Read Value) (depth : ℕ) (step : Takes go wire (λ v. Fits v depth × IsValue v)) where
  read_values-eq-ok :
      (n : ℕ)
      → Takes
          (read_values go n)
          wire_values
          (λ vs. (length_values vs ≡ n) × FitsValues vs depth × IsValues vs)
  unfolding read_values wire Fits IsValue
  read_values-eq-ok zero r p b h =
      subst (Took wire_values (λ vs. (length_values vs ≡ 0) × FitsValues vs depth × IsValues vs) r)
        (ok_injective h) (refl, b, (refl, tt, tt))
  read_values-eq-ok (suc n) r p b h =
      let (q, h1, k1) = >>=-eq-ok (go r) _ h in
      let (s, h2, k2) = >>=-eq-ok (read_values go n q.1) _ k1 in
      let (e1, b1, (f1, i1)) = step r q b h1 in
      let (e2, b2, (l2, f2, i2)) = read_values-eq-ok n q.1 s b1 h2 in
      subst
        (Took wire_values (λ vs. (length_values vs ≡ suc n) × FitsValues vs depth × IsValues vs) r)
        (ok_injective k2)
        (
          e1 ∙ ap (λ t. wire q.0 ++ t) e2 ∙ sym (append_assoc (wire q.0) (wire_values s.0) s.1),
          b2,
          (ap suc l2, (f1, f2), (i1, i2)),
        )

  read_entries-eq-ok :
      (n : ℕ) (previous : Option Text)
      → Takes
          (read_entries go n previous)
          wire_entries
          (λ es. (length_entries es ≡ n) × FitsEntries es depth × IsEntries es previous)
  unfolding read_entries wire Fits IsValue
  read_entries-eq-ok zero previous r p b h =
      subst
        (Took wire_entries
          (λ es. (length_entries es ≡ 0) × FitsEntries es depth × IsEntries es previous) r)
        (ok_injective h) (refl, b, (refl, tt, tt))
  read_entries-eq-ok (suc n) previous r p b h =
      let (k, h1, k1) = >>=-eq-ok (read_text r) _ h in
      let (asc, k2) = guard-eq-ok (ascends previous k.0) _ _ k1 in
      let (q, h2, k3) = >>=-eq-ok (go k.1) _ k2 in
      let (s, h3, k4) = >>=-eq-ok (read_entries go n (some k.0) q.1) _ k3 in
      let (e1, b1, (small, text)) = read_text-Takes r k b h1 in
      let (e2, b2, (f2, i2)) = step k.1 q b1 h2 in
      let (e3, b3, (l3, f3, i3)) = read_entries-eq-ok n (some k.0) q.1 s b2 h3 in
      subst
        (Took wire_entries
          (λ es. (length_entries es ≡ suc n) × FitsEntries es depth × IsEntries es previous) r)
        (ok_injective k4)
        (
          e1
              ∙ ap (λ t. (to_be_bytes 4 (length k.0) ++ k.0) ++ t) (e2 ∙ ap (λ t. wire q.0 ++ t) e3)
              ∙ simp append_assoc,
          b3,
          (ap suc l3, (small, f2, f3), (ascends-IsAfter previous k.0 asc, text, i2, i3)),
        )

abbrev Reply : Type 0
Reply = Result Failure (Value × List ℕ)

-- What an arm of the match on the tag must show.
abbrev Arm : ℕ → ℕ → List ℕ → Value × List ℕ → Type 0
Arm depth tag r p = (tag ∷ r ≡ wire p.0 ++ p.1) × IsBytes p.1 × (Fits p.0 depth × IsValue p.0)

module _ (go : Read Value) (depth : ℕ) (d : depth ≤ max_depth)
    (step : Takes go wire (λ v. Fits v (depth + 1) × IsValue v)) (r : List ℕ) (p : Value × List ℕ)
    (b : IsBytes r) where
  Arm-null : ◌≡◌ {A = Reply} (ok (null, r)) (ok p) → Arm depth 0 r p
  unfolding wire Fits IsValue
  Arm-null h = subst (Arm depth 0 r) (ok_injective h) (refl, b, (d, tt))

  Arm-bool :
      (x : Bool) (tag : ℕ)
      → wire (bool x) ≡ tag ∷ []
      → ◌≡◌ {A = Reply} (ok (bool x, r)) (ok p)
      → Arm depth tag r p
  unfolding Fits IsValue
  Arm-bool x tag e h =
      subst (Arm depth tag r) (ok_injective h) (ap (λ w. w ++ r) (sym e), b, (d, tt))

  Arm-i64 : (read_word r >>= λ q. ok (i64 q.0, q.1)) ≡ ok p → Arm depth 3 r p
  unfolding wire Fits IsValue
  Arm-i64 h =
      let (q, h1, k) = >>=-eq-ok (read_word r) _ h in
      let (e, b1, i) = read_word-Takes r q b h1 in
      subst (Arm depth 3 r) (ok_injective k) (ap (λ t. 3 ∷ t) e, b1, (d, i))

  Arm-u64 : (read_word r >>= λ q. ok (u64 q.0, q.1)) ≡ ok p → Arm depth 4 r p
  unfolding wire Fits IsValue
  Arm-u64 h =
      let (q, h1, k) = >>=-eq-ok (read_word r) _ h in
      let (e, b1, i) = read_word-Takes r q b h1 in
      subst (Arm depth 4 r) (ok_injective k) (ap (λ t. 4 ∷ t) e, b1, (d, i))

  Arm-string : (read_text r >>= λ q. ok (string q.0, q.1)) ≡ ok p → Arm depth 5 r p
  unfolding wire Fits IsValue
  Arm-string h =
      let (q, h1, k) = >>=-eq-ok (read_text r) _ h in
      let (e, b1, (small, i)) = read_text-Takes r q b h1 in
      subst (Arm depth 5 r) (ok_injective k) (ap (λ t. 5 ∷ t) e, b1, ((d, small), i))

  Arm-bytes :
      (read_length r >>= λ n. read_bytes n.0 n.1 >>= λ q. ok (bytes q.0, q.1)) ≡ ok p
      → Arm depth 6 r p
  unfolding wire Fits IsValue
  Arm-bytes h =
      let (n, h1, k1) = >>=-eq-ok (read_length r) _ h in
      let (q, h2, k2) = >>=-eq-ok (read_bytes n.0 n.1) _ k1 in
      let (e1, b1, small) = read_length-Takes r n b h1 in
      let (e2, b2, (l, i)) = read_bytes-Takes n.0 n.1 q b1 h2 in
      let e : r ≡ (to_be_bytes 4 (length q.0) ++ q.0) ++ q.1 =
        rw (l, append_assoc (to_be_bytes 4 n.0) q.0 q.1)
          (e1 ∙ ap (λ t. to_be_bytes 4 n.0 ++ t) e2) in
      subst (Arm depth 6 r) (ok_injective k2) (ap (λ t. 6 ∷ t) e, b2, ((d, rw l small), i))

  Arm-list :
      (read_length r >>= λ n. guard (leb n.0 max_count) (invalid "count limit") >>= λ _.
      read_values go n.0 n.1 >>= λ q. ok (list q.0, q.1))
        ≡ ok p
      → Arm depth 7 r p
  unfolding wire Fits IsValue
  Arm-list h =
      let (n, h1, k1) = >>=-eq-ok (read_length r) _ h in
      let (g, k2) = guard-eq-ok (leb n.0 max_count) _ _ k1 in
      let (q, h2, k3) = >>=-eq-ok (read_values go n.0 n.1) _ k2 in
      let (e1, b1, small) = read_length-Takes r n b h1 in
      let (e2, b2, (l, f, i)) = read_values-eq-ok go (depth + 1) step n.0 n.1 q b1 h2 in
      let e : r ≡ (to_be_bytes 4 (length_values q.0) ++ wire_values q.0) ++ q.1 =
        rw (l, append_assoc (to_be_bytes 4 n.0) (wire_values q.0) q.1)
          (e1 ∙ ap (λ t. to_be_bytes 4 n.0 ++ t) e2) in
      subst (Arm depth 7 r) (ok_injective k3)
        (ap (λ t. 7 ∷ t) e, b2, ((d, rw l (leb-le n.0 max_count g), f), i))

  Arm-map :
      (read_length r >>= λ n. guard (leb n.0 max_count) (invalid "count limit") >>= λ _.
      read_entries go n.0 none n.1 >>= λ q. ok (map q.0, q.1))
        ≡ ok p
      → Arm depth 8 r p
  unfolding wire Fits IsValue
  Arm-map h =
      let (n, h1, k1) = >>=-eq-ok (read_length r) _ h in
      let (g, k2) = guard-eq-ok (leb n.0 max_count) _ _ k1 in
      let (q, h2, k3) = >>=-eq-ok (read_entries go n.0 none n.1) _ k2 in
      let (e1, b1, small) = read_length-Takes r n b h1 in
      let (e2, b2, (l, f, i)) = read_entries-eq-ok go (depth + 1) step n.0 none n.1 q b1 h2 in
      let e : r ≡ (to_be_bytes 4 (length_entries q.0) ++ wire_entries q.0) ++ q.1 =
        rw (l, append_assoc (to_be_bytes 4 n.0) (wire_entries q.0) q.1)
          (e1 ∙ ap (λ t. to_be_bytes 4 n.0 ++ t) e2) in
      subst (Arm depth 8 r) (ok_injective k3)
        (ap (λ t. 8 ∷ t) e, b2, ((d, rw l (leb-le n.0 max_count g), f), i))

  Arm-ref : (read_location r >>= λ q. ok (ref q.0, q.1)) ≡ ok p → Arm depth 9 r p
  unfolding wire Fits IsValue
  Arm-ref h =
      let (q, h1, k) = >>=-eq-ok (read_location r) _ h in
      let (e, b1, i) = read_location-Takes r q b h1 in
      subst (Arm depth 9 r) (ok_injective k) (ap (λ t. 9 ∷ t) e, b1, (d, i))

  -- One test of the match: the arm that it takes, or the arms that follow.
  test :
      (n : ℕ) {tag : ℕ} {m k : Reply}
      → (m ≡ ok p → Arm depth n r p)
      → (k ≡ ok p → Arm depth tag r p)
      → (if tag == n then m else k) ≡ ok p
      → Arm depth tag r p
  test n {tag} hit miss h = elim (Bool-cases (tag == n)) [
    | inl e ↦ subst (λ t. Arm depth t r p) (sym ((==_iff tag n).0 e)) (hit (rw e at h))
    | inr e ↦ miss (rw e at h)
  ]

  read_tagged-Arm : (tag : ℕ) → read_tagged go tag r ≡ ok p → Arm depth tag r p
  unfolding read_tagged wire
  read_tagged-Arm tag = test 0 Arm-null (
      test 1 (Arm-bool false 1 refl) (
        test 2 (Arm-bool true 2 refl) (
          test 3 Arm-i64 (
            test 4 Arm-u64 (
              test 5 Arm-string (
                test 6 Arm-bytes (test 7 Arm-list (test 8 Arm-map (test 9 Arm-ref (λ h. cc))))))))))

-- The one byte that the tag is.
one_byte :
    (word r : List ℕ) (rest : List ℕ)
    → length word ≡ 1
    → r ≡ word ++ rest
    → r ≡ first_byte word ∷ rest
unfolding first_byte
one_byte [] r rest l e = absurd (omega arith)
one_byte (x ∷ []) r rest l e = e
one_byte (x ∷ y ∷ ys) r rest l e = absurd (omega arith)

pub read_value-eq-ok :
    (left depth : ℕ)
    → depth + left ≡ max_depth + 1
    → Takes (read_value left) wire (λ v. Fits v depth × IsValue v)
unfolding read_value
read_value-eq-ok zero depth d r p b h = cc
read_value-eq-ok (suc left) depth d r p b h =
    let (word, h1, k) = >>=-eq-ok (read_bytes 1 r) _ h in
    let (e, b1, (l, _)) = read_bytes-Takes 1 r word b h1 in
    let (w, b2, good) =
      read_tagged-Arm (read_value left) depth (omega arith)
        (read_value-eq-ok left (depth + 1) (omega arith)) word.1 p b1 (first_byte word.0) k in
    (one_byte word.0 r word.1 l e ∙ w, b2, good)
