-- ===== src/Prelude/Order.antt =====
-- The trait `Ord` of the keys of `BTreeMap` and `BTreeSet`, for numbers, texts and pairs.
-- A text is the list of its UTF-8 bytes: Rust compares strings bytewise.
use Prim.Native.Char.{code}
use Prim.Native.Nat.{ℕ, compare, Ordering}
use Prim.Native.Nat.Ordering.{lt, eq, gt}
use Prim.Native.String.{String}
use mathlib.Core.Path.{◌≡◌, refl, ap}
use mathlib.Core.Logic.{◌↔◌}
use mathlib.Core.Bool.{Bool, true, false}
use mathlib.Core.List.{List, [], ◌∷◌}
use mathlib.Core.Option.{Option, none, some}
use native.Mathlib.Omega.{arith}

-- The laws of the trait, for a comparison of keys.
pub record IsLawful {ℓ} {K : Type ℓ} (cmp : K → K → Ordering) : Type ℓ where
  pub lt_trans : (x y z : K) → cmp x y ≡ lt → cmp y z ≡ lt → cmp x z ≡ lt
  pub gt_of_lt : (x y : K) → cmp x y ≡ lt → cmp y x ≡ gt
  pub lt_of_gt : (x y : K) → cmp x y ≡ gt → cmp y x ≡ lt
  pub eq_of_cmp : (x y : K) → cmp x y ≡ eq → x ≡ y
  pub cmp_refl : (x : K) → cmp x x ≡ eq

pub record Ord {ℓ} (K : Type ℓ) : Type ℓ where
  pub cmp : K → K → Ordering
  pub lawful : IsLawful cmp
  pub open lawful use *

pub compare-IsLawful : IsLawful compare
compare-IsLawful = ground arith

instance abbrev pub nat_ord : Ord ℕ
nat_ord = record { cmp = compare; lawful = compare-IsLawful }

-- Byte lists, lexicographically.
unfoldable pub compare_text : List ℕ → List ℕ → Ordering
compare_text [] [] = eq
compare_text [] (b ∷ t) = lt
compare_text (a ∷ s) [] = gt
compare_text (a ∷ s) (b ∷ t) = elim (compare a b) [ lt ↦ lt | eq ↦ compare_text s t | gt ↦ gt ]

compare_text_refl : (s : List ℕ) → compare_text s s ≡ eq
unfolding compare_text
compare_text_refl [] = refl
compare_text_refl (a ∷ s) = ground (arith, compare_text_refl s)

eq_of_compare_text : (s t : List ℕ) → compare_text s t ≡ eq → s ≡ t
unfolding compare_text
eq_of_compare_text [] [] h = refl
eq_of_compare_text [] (b ∷ t) h = cc
eq_of_compare_text (a ∷ s) [] h = cc
eq_of_compare_text (a ∷ s) (b ∷ t) h = ground (arith, eq_of_compare_text s t)

gt_of_lt_text : (s t : List ℕ) → compare_text s t ≡ lt → compare_text t s ≡ gt
unfolding compare_text
gt_of_lt_text [] [] h = cc
gt_of_lt_text [] (b ∷ t) h = refl
gt_of_lt_text (a ∷ s) [] h = cc
gt_of_lt_text (a ∷ s) (b ∷ t) h = ground (arith, gt_of_lt_text s t)

lt_of_gt_text : (s t : List ℕ) → compare_text s t ≡ gt → compare_text t s ≡ lt
unfolding compare_text
lt_of_gt_text [] [] h = cc
lt_of_gt_text [] (b ∷ t) h = cc
lt_of_gt_text (a ∷ s) [] h = refl
lt_of_gt_text (a ∷ s) (b ∷ t) h = ground (arith, lt_of_gt_text s t)

lt_trans_text :
    (s t u : List ℕ) → compare_text s t ≡ lt → compare_text t u ≡ lt → compare_text s u ≡ lt
unfolding compare_text
lt_trans_text s [] u h k = absurd (no_lt s h)
  where
    no_lt : (s : List ℕ) → compare_text s [] ≡ lt → ⊥
    no_lt [] e = cc
    no_lt (a ∷ s) e = cc
lt_trans_text s (b ∷ t) [] h k = cc
lt_trans_text [] (b ∷ t) (c ∷ u) h k = refl
lt_trans_text (a ∷ s) (b ∷ t) (c ∷ u) h k = ground (arith, lt_trans_text s t u)

pub compare_text-IsLawful : IsLawful compare_text
compare_text-IsLawful = record {
  cmp_refl = compare_text_refl;
  eq_of_cmp = eq_of_compare_text;
  gt_of_lt = gt_of_lt_text;
  lt_of_gt = lt_of_gt_text;
  lt_trans = lt_trans_text;
}

abbrev pub Text : Type 0
Text = List ℕ

instance abbrev pub text_ord : Ord Text
text_ord = record { cmp = compare_text; lawful = compare_text-IsLawful }

-- The bytes of an ASCII literal.
abbrev pub ascii : String → Text
ascii String.[] = []
ascii (String.◌∷◌ c s) = code c ∷ ascii s

infix 50 ◌=?◌
-- Equality of keys, as the source's `==` computes it.
abbrev pub ◌=?◌ {ℓ} : {K : Type ℓ} ⦃o : Ord K⦄ → K → K → Bool
◌=?◌ ⦃o⦄ a b = elim (o.cmp a b) [ eq ↦ true | _ ↦ false ]

abbrev pub less {ℓ} : {K : Type ℓ} ⦃o : Ord K⦄ → K → K → Bool
less ⦃o⦄ a b = elim (o.cmp a b) [ lt ↦ true | _ ↦ false ]

pub =?_iff {ℓ} : {K : Type ℓ} ⦃o : Ord K⦄ (a b : K) → ((a =? b) ≡ true) ↔ (a ≡ b)
=?_iff ⦃o⦄ a b = (λ h. o.eq_of_cmp a b (ground arith), λ h. rw h (ground (arith, o.cmp_refl b)))

pub =?_comm {ℓ} : {K : Type ℓ} ⦃o : Ord K⦄ (a b : K) → (a =? b) ≡ (b =? a)
=?_comm ⦃o⦄ a b = ground (arith, o.gt_of_lt a b, o.lt_of_gt a b, o.eq_of_cmp a b, o.cmp_refl a)

pub =?_refl {ℓ} : {K : Type ℓ} ⦃o : Ord K⦄ (a : K) → (a =? a) ≡ true
=?_refl ⦃o⦄ a = ground (arith, o.cmp_refl a)

-- Derived orders: fields in turn, `None` first, and a struct by the tuple of its fields.
abbrev pub compare_pair {ℓ κ} :
    {A : Type ℓ} {B : Type κ} ⦃a : Ord A⦄ ⦃b : Ord B⦄ → A × B → A × B → Ordering
compare_pair ⦃a⦄ ⦃b⦄ p q = elim (a.cmp p.0 q.0) [ lt ↦ lt | eq ↦ b.cmp p.1 q.1 | gt ↦ gt ]

abbrev pub compare_option {ℓ} : {A : Type ℓ} ⦃a : Ord A⦄ → Option A → Option A → Ordering
compare_option none none = eq
compare_option none (some y) = lt
compare_option (some x) none = gt
compare_option ⦃a⦄ (some x) (some y) = a.cmp x y

pub pair-IsLawful {ℓ κ} :
    {A : Type ℓ} {B : Type κ} ⦃a : Ord A⦄ ⦃b : Ord B⦄ → IsLawful (compare_pair {A = A} {B = B})
pair-IsLawful ⦃a⦄ ⦃b⦄ = record {
  cmp_refl = λ p. ground (arith, a.cmp_refl p.0, b.cmp_refl p.1);
  eq_of_cmp = λ p q h. ground (arith, a.eq_of_cmp p.0 q.0, b.eq_of_cmp p.1 q.1);
  gt_of_lt = λ p q h.
      ground (arith, a.gt_of_lt p.0 q.0, b.gt_of_lt p.1 q.1, a.eq_of_cmp p.0 q.0, a.cmp_refl q.0);
  lt_of_gt = λ p q h.
      ground (arith, a.lt_of_gt p.0 q.0, b.lt_of_gt p.1 q.1, a.eq_of_cmp p.0 q.0, a.cmp_refl q.0);
  lt_trans = λ p q r h k. ground (
    arith,
    a.lt_trans p.0 q.0 r.0,
    b.lt_trans p.1 q.1 r.1,
    a.eq_of_cmp p.0 q.0,
    a.eq_of_cmp q.0 r.0,
    a.cmp_refl r.0,
  );
}

abbrev pub pair_ord {ℓ κ} : {A : Type ℓ} {B : Type κ} ⦃a : Ord A⦄ ⦃b : Ord B⦄ → Ord (A × B)
pair_ord = record { cmp = compare_pair; lawful = pair-IsLawful }

pub option-eq {ℓ} : {A : Type ℓ} ⦃a : Ord A⦄ (p q : Option A) → compare_option p q ≡ eq → p ≡ q
option-eq none none h = refl
option-eq none (some y) h = cc
option-eq (some x) none h = cc
option-eq ⦃a⦄ (some x) (some y) h = ap some (a.eq_of_cmp x y h)

pub option-gt {ℓ} :
    {A : Type ℓ} ⦃a : Ord A⦄ (p q : Option A) → compare_option p q ≡ lt → compare_option q p ≡ gt
option-gt none none h = cc
option-gt none (some y) h = refl
option-gt (some x) none h = cc
option-gt ⦃a⦄ (some x) (some y) h = a.gt_of_lt x y h

pub option-lt {ℓ} :
    {A : Type ℓ} ⦃a : Ord A⦄ (p q : Option A) → compare_option p q ≡ gt → compare_option q p ≡ lt
option-lt none none h = cc
option-lt none (some y) h = cc
option-lt (some x) none h = refl
option-lt ⦃a⦄ (some x) (some y) h = a.lt_of_gt x y h

pub option_trans {ℓ} :
    {A : Type ℓ} ⦃a : Ord A⦄ (p q r : Option A)
    → compare_option p q ≡ lt
    → compare_option q r ≡ lt
    → compare_option p r ≡ lt
option_trans p none none h k = cc
option_trans none none (some z) h k = refl
option_trans (some x) none (some z) h k = cc
option_trans p (some y) none h k = cc
option_trans none (some y) (some z) h k = refl
option_trans ⦃a⦄ (some x) (some y) (some z) h k = a.lt_trans x y z h k

pub option_refl {ℓ} : {A : Type ℓ} ⦃a : Ord A⦄ (p : Option A) → compare_option p p ≡ eq
option_refl none = refl
option_refl ⦃a⦄ (some x) = a.cmp_refl x

abbrev pub option_ord {ℓ} : {A : Type ℓ} ⦃a : Ord A⦄ → Ord (Option A)
option_ord = record {
  cmp = compare_option;
  lawful = record {
    cmp_refl = option_refl;
    eq_of_cmp = option-eq;
    gt_of_lt = option-gt;
    lt_of_gt = option-lt;
    lt_trans = option_trans;
  };
}

-- The order of a struct through its fields.
abbrev pub ord_by {ℓ κ} :
    {A : Type ℓ} {B : Type κ} ⦃b : Ord B⦄ (f : A → B) → ((x y : A) → f x ≡ f y → x ≡ y) → Ord A
ord_by ⦃b⦄ f injective = record {
  cmp = λ x y. b.cmp (f x) (f y);
  lawful = record {
    cmp_refl = λ x. b.cmp_refl (f x);
    eq_of_cmp = λ x y h. injective x y (b.eq_of_cmp (f x) (f y) h);
    gt_of_lt = λ x y. b.gt_of_lt (f x) (f y);
    lt_of_gt = λ x y. b.lt_of_gt (f x) (f y);
    lt_trans = λ x y z. b.lt_trans (f x) (f y) (f z);
  };
}
