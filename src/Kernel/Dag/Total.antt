-- ===== src/Kernel/Dag/Total.antt =====
-- On a map whose predecessors are all keys the fuel suffices and nothing panics.
use phenix_ai.Prelude.{
  ℕ, zero, suc, ◌≤◌, ◌<◌, ◌≡◌, refl, ◌⊎◌, inl, inr, Bool, true, false, not, some, List, [], ◌∷◌,
  ◌++◌, arith, length, All, retain, is_some,
}
use phenix_ai.Prelude.Order.{Text, text_ord, =?_refl, =?_iff, =?_comm}
use phenix_ai.Prelude.Map.{Map, get, keys}
use phenix_ai.Kernel.Dag.{
  Visited, Outcome, ok, cycle, panic, out_of_fuel, ◌>>=◌, elem, visit_each, finish, visit, start,
  order,
}
use phenix_ai.Kernel.Dag.Step.{visit-Exit, on_path, already, unknown, searched}
use phenix_ai.Kernel.Dag.Sound.{elem-snoc, any-position-none}

abbrev ends : {A : Type 0} → Outcome A → Bool
ends (ok a) = true
ends (cycle c) = true
ends panic = false
ends out_of_fuel = false

-- The keys that are not on the path.
abbrev missing : List Text → List Text → ℕ
missing path ks = length (retain (λ k. not (elem k path)) ks)

missing-snoc-le :
    (path : List Text) (id : Text) (ks : List Text) → missing (path ++ id ∷ []) ks ≤ missing path ks
missing-snoc-le path id [] = omega arith
missing-snoc-le path id (k ∷ ks) = ground (arith, missing-snoc-le path id ks, elem-snoc k id path)

missing-snoc-lt :
    (path : List Text) (id : Text) (ks : List Text)
    → elem id path ≡ false
    → elem id ks ≡ true
    → missing (path ++ id ∷ []) ks < missing path ks
missing-snoc-lt path id [] off on = cc
missing-snoc-lt path id (k ∷ ks) off on = ground (
  arith,
  missing-snoc-le path id ks,
  missing-snoc-lt path id ks off,
  elem-snoc k id path,
  (=?_iff k id).0,
  =?_comm k id,
)

elem-keys :
    (id : Text) (m : Map Text (List Text)) → is_some (get id m) ≡ true → elem id (keys m) ≡ true
unfolding get
elem-keys id [] h = h
elem-keys id ((k, ds) ∷ m) h = ground (arith, elem-keys id m, =?_comm k id)

get-keys :
    (id : Text) (m : Map Text (List Text)) → elem id (keys m) ≡ true → is_some (get id m) ≡ true
unfolding get
get-keys id [] h = h
get-keys id ((k, ds) ∷ m) h = ground (arith, get-keys id m, =?_comm k id)

length-retain-keys :
    (p : Text → Bool) (m : Map Text (List Text)) → length (retain p (keys m)) ≤ length m
length-retain-keys p [] = omega arith
length-retain-keys p (e ∷ m) = ground (arith, length-retain-keys p m)

module _ (predecessors : Map Text (List Text)) where
  abbrev IsNode : Text → Type 0
  IsNode id = is_some (get id predecessors) ≡ true

  -- Every predecessor is a key.
  abbrev pub IsClosed : Type 0
  IsClosed = (id : Text) (ds : List Text) → get id predecessors ≡ some ds → All IsNode ds

  visit_each-ends :
      (go : Text → Visited → Outcome Visited)
      → ((id : Text) (s : Visited) → IsNode id → ends (go id s) ≡ true)
      → (ids : List Text) (s : Visited) → All IsNode ids
      → ends (visit_each go ids s) ≡ true
  unfolding visit_each
  visit_each-ends go step [] s a = refl
  visit_each-ends go step (id ∷ ids) s a =
      after (go id s) (step id s a.0) (λ s'. visit_each-ends go step ids s' a.1)
    where
      after :
          (r : Outcome Visited)
          → ends r ≡ true
          → ((s' : Visited) → ends (visit_each go ids s') ≡ true)
          → ends (r >>= λ s'. visit_each go ids s') ≡ true
      after (ok s') e k = k s'
      after (cycle c) e k = refl
      after panic e k = e
      after out_of_fuel e k = e

  ends-bind :
      {A B : Type 0} (r : Outcome A) (f : A → B) → ends r ≡ true → ends (r >>= λ a. ok (f a)) ≡ true
  ends-bind (ok a) f e = refl
  ends-bind (cycle c) f e = refl
  ends-bind panic f e = e
  ends-bind out_of_fuel f e = e

  visit-ends :
      IsClosed
      → (fuel : ℕ) (path : List Text) (id : Text) (s : Visited)
      → missing path (keys predecessors) < fuel
      → IsNode id
      → ends (visit predecessors fuel path id s) ≡ true
  unfolding visit
  visit-ends closed zero path id s h node = absurd (omega arith)
  visit-ends closed (suc fuel) path id s h node = elim (visit-Exit predecessors fuel path id s) [
    | on_path at e v ↦ rw v
    | already old v ↦ rw v
    | unknown e v ↦ ground arith
    | searched ds e new there v ↦ rw v (
        ends-bind _ (finish id) (
          visit_each-ends (visit predecessors fuel (path ++ id ∷ []))
            (λ d t n.
              visit-ends closed fuel (path ++ id ∷ []) d t
                (omega (
                  arith,
                  missing-snoc-lt path id (keys predecessors) (any-position-none _ path e)
                      (elem-keys id predecessors node),
                ))
                n)
            ds s (closed id ds there)))
  ]

  All-keys : (ids : List Text) → ((id : Text) → elem id ids ≡ true → IsNode id) → All IsNode ids
  All-keys [] h = tt
  All-keys (id ∷ ids) h =
      (h id (ground (arith, =?_refl id)), All-keys ids (λ k e. h k (ground arith)))

  split :
      {A : Type 0} (r : Outcome A)
      → ends r ≡ true
      → ((a : A) × (r ≡ ok a)) ⊎ ((walk : List Text) × (r ≡ cycle walk))
  split (ok a) e = inl (a, refl)
  split (cycle c) e = inr (c, refl)
  split panic e = cc
  split out_of_fuel e = cc

  -- The search of a map all of whose predecessors are keys ends with an order or with a cycle: it
  -- neither runs out of fuel nor panics.
  pub order-total :
      IsClosed
      → ((listed : List Text) × (order predecessors ≡ ok listed))
        ⊎ ((walk : List Text) × (order predecessors ≡ cycle walk))
  unfolding order
  order-total closed = split (order predecessors) (
      ends-bind _ (λ (s : Visited). s.result)
        (visit_each-ends (visit predecessors (suc (length predecessors)) [])
          (λ id s n.
            visit-ends closed (suc (length predecessors)) [] id s
              (omega (arith, length-retain-keys (λ k. not (elem k [])) predecessors)) n)
          (keys predecessors) start
          (All-keys (keys predecessors) (λ id. get-keys id predecessors))))
