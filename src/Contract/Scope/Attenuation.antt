-- ===== src/Contract/Scope/Attenuation.antt =====
-- Attenuation never adds authority (crates/phenix-contract/src/scope.rs).
use phenix_ai.Prelude.{
  ◌≡◌, refl, ap, Bool, true, ◌&&◌, List, [], ◌∷◌, all, retain, All, arith, Bool-cases, inl, inr,
}
use phenix_ai.Prelude.Order.{Text, text_ord, ◌=?◌, =?_iff, less}
use phenix_ai.Contract.Schema.{identifier}
use phenix_ai.Contract.Scope.{Authority, operation_key, valid, member, intersect}

-- A list that is a set: in order, without repetition.
abbrev pub IsOrdered : List Text → Type 0
IsOrdered [] = Unit
IsOrdered (x ∷ xs) = All (λ y. less x y ≡ true) xs × IsOrdered xs

all-retain : (p q : Text → Bool) (xs : List Text) → all p xs ≡ true → all p (retain q xs) ≡ true
all-retain p q [] h = refl
all-retain p q (x ∷ xs) h = ground (arith, all-retain p q xs, h)

All-retain :
    (x : Text) (q : Text → Bool) (xs : List Text)
    → All (λ y. less x y ≡ true) xs
    → All (λ y. less x y ≡ true) (retain q xs)
All-retain x q [] h = tt
All-retain x q (y ∷ xs) h = elim (Bool-cases (q y)) [
  | inl kept ↦ rw kept (h.0, All-retain x q xs h.1)
  | inr left ↦ rw left (All-retain x q xs h.1)
]

retain-IsOrdered : (q : Text → Bool) (xs : List Text) → IsOrdered xs → IsOrdered (retain q xs)
retain-IsOrdered q [] h = tt
retain-IsOrdered q (x ∷ xs) h = elim (Bool-cases (q x)) [
  | inl kept ↦ rw kept (All-retain x q xs h.0, retain-IsOrdered q xs h.1)
  | inr left ↦ rw left (retain-IsOrdered q xs h.1)
]

member-retain :
    (x : Text) (q : Text → Bool) (xs : List Text) → member x (retain q xs) ≡ (member x xs && q x)
member-retain x q [] = refl
member-retain x q (y ∷ xs) = elim (Bool-cases (x =? y)) [
  | inl hit ↦
      let same : q x ≡ q y = ap q ((=?_iff x y).0 hit) in
      ground (arith, member-retain x q xs, hit, same)
  | inr miss ↦ ground (arith, member-retain x q xs, miss)
]

-- The intersection of two authorities, of which the first is valid and a pair of sets, is valid and
-- a pair of sets, and allows exactly the operations and the resources that both allow.
pub intersect-member :
    (a b : Authority)
    → valid a ≡ true
    → IsOrdered a.operations × IsOrdered a.resources
    → (valid (intersect a b) ≡ true)
      × IsOrdered (intersect a b).operations
      × IsOrdered (intersect a b).resources
      × ((x : Text)
          → member x (intersect a b).operations ≡ (member x a.operations && member x b.operations))
      × ((x : Text)
          → member x (intersect a b).resources ≡ (member x a.resources && member x b.resources))
unfolding valid intersect
intersect-member a b v o = (
  ground (
    arith,
    v,
    all-retain operation_key (λ x. member x b.operations) a.operations,
    all-retain identifier (λ x. member x b.resources) a.resources,
  ),
  retain-IsOrdered _ a.operations o.0,
  retain-IsOrdered _ a.resources o.1,
  λ x. member-retain x (λ y. member y b.operations) a.operations,
  λ x. member-retain x (λ y. member y b.resources) a.resources,
)
