-- ===== src/Prelude/Map.antt =====
-- `BTreeMap` and `BTreeSet`: association lists in the order of their keys. Iteration is the list.
use Prim.Native.Nat.Ordering.{lt, eq, gt}
use phenix_ai.Prelude.{
  ◌+◌, ◌≤◌, ◌≡◌, ◌≢◌, refl, Bool, Option, none, some, List, [], ◌∷◌, map, arith, if◌then◌else◌,
  length, retain, All, Bool-cases, inl, inr, subst, sym,
}
use phenix_ai.Prelude.Order.{Ord, ◌=?◌, =?_iff}

abbrev pub Map {ℓ κ} : Type ℓ → Type κ → Type (ℓ ⊔ κ)
Map K V = List (K × V)

module _ {ℓ κ} {K : Type ℓ} {V : Type κ} ⦃o : Ord K⦄ where
  unfoldable pub get : K → Map K V → Option V
  get k [] = none
  get k ((j, v) ∷ m) = if k =? j then some v else get k m

  unfoldable pub insert : K → V → Map K V → Map K V
  insert k v [] = (k, v) ∷ []
  insert k v ((j, w) ∷ m) =
      let rest = insert k v m in
      elim (o.cmp k j) [ lt ↦ (k, v) ∷ (j, w) ∷ m | eq ↦ (k, v) ∷ m | gt ↦ (j, w) ∷ rest ]

  unfoldable pub remove : K → Map K V → Map K V
  remove k [] = []
  remove k ((j, v) ∷ m) = let rest = remove k m in if k =? j then rest else (j, v) ∷ rest

  abbrev pub values : Map K V → List V
  values = map λ e. e.1

  abbrev pub keys : Map K V → List K
  keys = map λ e. e.0

  -- Every key of the list is above `k`.
  abbrev pub Above : K → Map K V → Type ℓ
  Above k [] = Unit
  Above k (e ∷ m) = (o.cmp k e.0 ≡ lt) × Above k m

  abbrev pub IsSorted : Map K V → Type ℓ
  IsSorted [] = Unit
  IsSorted (e ∷ m) = Above e.0 m × IsSorted m

  pub get-insert :
      (k j : K) (v : V) (m : Map K V) → get j (insert k v m) ≡ (if j =? k then some v else get j m)
  unfolding get insert
  get-insert k j v [] = refl
  get-insert k j v ((i, w) ∷ m) = ground (
    arith,
    o.eq_of_cmp k i,
    o.eq_of_cmp j k,
    o.eq_of_cmp j i,
    o.cmp_refl i,
    o.cmp_refl k,
    get-insert k j v m,
  )

  pub get-remove : (k j : K) (m : Map K V) → get j (remove k m) ≡ (if j =? k then none else get j m)
  unfolding get remove
  get-remove k j [] = ground arith
  get-remove k j ((i, w) ∷ m) = ground (
    arith,
    o.eq_of_cmp k i,
    o.eq_of_cmp j k,
    o.eq_of_cmp j i,
    o.cmp_refl i,
    o.cmp_refl k,
    get-remove k j m,
  )

  pub get-insert_self : (k : K) (v : V) (m : Map K V) → get k (insert k v m) ≡ some v
  get-insert_self k v m = ground (arith, get-insert k k v m, o.cmp_refl k)

  pub get-insert_ne : (k j : K) (v : V) (m : Map K V) → j ≢ k → get j (insert k v m) ≡ get j m
  get-insert_ne k j v m h = ground (arith, get-insert k j v m, o.eq_of_cmp j k)

  pub Above-insert :
      (k j : K) (v : V) (m : Map K V) → Above j m → o.cmp j k ≡ lt → Above j (insert k v m)
  unfolding insert
  Above-insert k j v [] a h = (h, tt)
  Above-insert k j v ((i, w) ∷ m) a h = ground (arith, Above-insert k j v m a.1 h)

  Above-mono : (j k : K) (m : Map K V) → o.cmp j k ≡ lt → Above k m → Above j m
  Above-mono j k [] h a = tt
  Above-mono j k ((i, w) ∷ m) h a = (o.lt_trans j k i h a.0, Above-mono j k m h a.1)

  pub insert-IsSorted : (k : K) (v : V) (m : Map K V) → IsSorted m → IsSorted (insert k v m)
  unfolding insert
  insert-IsSorted k v [] s = (tt, tt)
  insert-IsSorted k v ((i, w) ∷ m) s = ground (
    arith,
    o.eq_of_cmp k i,
    o.lt_of_gt k i,
    Above-mono k i m,
    Above-insert k i v m s.0,
    insert-IsSorted k v m s.1,
  )

  pub get-Above : (k : K) (m : Map K V) → Above k m → get k m ≡ none
  unfolding get
  get-Above k [] a = refl
  get-Above k ((i, w) ∷ m) a = ground (arith, get-Above k m a.1)

  Above-retain : (p : K × V → Bool) (k : K) (m : Map K V) → Above k m → Above k (retain p m)
  Above-retain p k [] a = tt
  Above-retain p k (e ∷ m) a = ground (arith, Above-retain p k m a.1)

  pub retain-IsSorted : (p : K × V → Bool) (m : Map K V) → IsSorted m → IsSorted (retain p m)
  retain-IsSorted p [] s = tt
  retain-IsSorted p (e ∷ m) s = ground (arith, Above-retain p e.0 m s.0, retain-IsSorted p m s.1)

  Above-remove : (j k : K) (m : Map K V) → Above k m → Above k (remove j m)
  unfolding remove
  Above-remove j k [] a = tt
  Above-remove j k (e ∷ m) a = ground (arith, Above-remove j k m a.1)

  pub remove-IsSorted : (k : K) (m : Map K V) → IsSorted m → IsSorted (remove k m)
  unfolding remove
  remove-IsSorted k [] s = tt
  remove-IsSorted k (e ∷ m) s = ground (arith, Above-remove k e.0 m s.0, remove-IsSorted k m s.1)

  -- What `BTreeMap::retain` leaves under a key.
  abbrev pub kept : (K × V → Bool) → K → Option V → Option V
  kept p k none = none
  kept p k (some v) = if p (k, v) then some v else none

  pub get-retain :
      (p : K × V → Bool) (k : K) (m : Map K V)
      → IsSorted m
      → get k (retain p m) ≡ kept p k (get k m)
  unfolding get
  get-retain p k [] s = refl
  get-retain p k ((i, w) ∷ m) s =
      ground (arith, o.eq_of_cmp k i, o.cmp_refl i, get-retain p k m s.1, get-Above i m s.0)

  pub length-insert-le : (k : K) (v : V) (m : Map K V) → length (insert k v m) ≤ length m + 1
  unfolding insert
  length-insert-le k v [] = omega arith
  length-insert-le k v ((i, w) ∷ m) = ground (arith, length-insert-le k v m)

  -- Replacing the value of a present key adds no entry.
  pub length-insert_present :
      (k : K) (v w : V) (m : Map K V)
      → IsSorted m
      → get k m ≡ some w
      → length (insert k v m) ≡ length m
  unfolding insert get
  length-insert_present k v w [] s h = cc
  length-insert_present k v w ((i, u) ∷ m) s h =
      ground
        (arith, o.eq_of_cmp k i, length-insert_present k v w m s.1, Above-mono k i m, get-Above k m)

-- What holds of every value holds of one that is found.
pub get-All {ℓ κ μ} :
    {K : Type ℓ} {V : Type κ} ⦃o : Ord K⦄ (P : V → Type μ) (k : K) (m : Map K V) {v : V}
    → All (λ e. P e.1) m
    → get k m ≡ some v
    → P v
unfolding get
get-All P k [] a h = cc
get-All P k ((j, w) ∷ m) a h = elim (Bool-cases (k =? j)) [
  | inl hit ↦ subst P (ground arith) a.0
  | inr miss ↦ get-All P k m a.1 (ground arith)
]

-- What holds of every entry is kept by the operations.
module _ {ℓ κ μ} {K : Type ℓ} {V : Type κ} ⦃o : Ord K⦄ (P : K × V → Type μ) where
  pub insert-All : (k : K) (v : V) (m : Map K V) → P (k, v) → All P m → All P (insert k v m)
  unfolding insert
  insert-All k v [] h a = (h, tt)
  insert-All k v (e ∷ m) h a = ground (arith, insert-All k v m h a.1)

  pub remove-All : (k : K) (m : Map K V) → All P m → All P (remove k m)
  unfolding remove
  remove-All k [] a = tt
  remove-All k (e ∷ m) a = ground (arith, remove-All k m a.1)

  pub get-All_key : (k : K) (m : Map K V) (v : V) → All P m → get k m ≡ some v → P (k, v)
  unfolding get
  get-All_key k [] v a h = cc
  get-All_key k ((j, w) ∷ m) v a h = elim (Bool-cases (k =? j)) [
    | inl hit ↦
        let same : k ≡ j = (=?_iff k j).0 hit in
        let here : w ≡ v = ground arith in
        subst (λ i. P (i, v)) (sym same) (subst (λ u. P (j, u)) here a.0)
    | inr miss ↦ get-All_key k m v a.1 (ground arith)
  ]

pub length-remove-le {ℓ κ} :
    {K : Type ℓ} {V : Type κ} ⦃o : Ord K⦄ (k : K) (m : Map K V) → length (remove k m) ≤ length m
unfolding remove
length-remove-le k [] = omega arith
length-remove-le k (e ∷ m) = ground (arith, length-remove-le k m)
