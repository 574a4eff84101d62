-- ===== src/Contract/Scope/Round.antt =====
-- An authority is what its value is read back as (crates/phenix-contract/src/scope.rs).
use mathlib.Core.List.{append-nil, append_assoc}
use phenix_ai.Prelude.{
  ◌≡◌, ◌≢◌, refl, sym, ap, ◌∙◌, Bool, true, false, ◌&&◌, List, [], ◌∷◌, ◌++◌, all, All, arith,
}
use phenix_ai.Prelude.Order.{Text, text_ord, ◌=?◌, less, compare_text}
use phenix_ai.Contract.Failure.{ok}
use phenix_ai.Contract.Schema.{identifier}
use phenix_ai.Contract.Scope.{
  Authority, operation_key, valid, to_value, from_value, strings_value, strings_from, insert_text,
  split_once,
}
use phenix_ai.Contract.Scope.Attenuation.{IsOrdered}

-- Every element of the list is below the text.
abbrev Below : Text → List Text → Type 0
Below t = All (λ x. less x t ≡ true)

not_back : (x t : Text) → less x t ≡ true → (less t x ≡ false) × ((t =? x) ≡ false)
not_back x t h = ground (
  arith,
  text_ord.gt_of_lt x t,
  text_ord.lt_of_gt t x,
  text_ord.eq_of_cmp t x,
  text_ord.cmp_refl x,
)

less_trans : (x y z : Text) → less x y ≡ true → less y z ≡ true → less x z ≡ true
less_trans x y z h k = ground (arith, text_ord.lt_trans x y z)

insert_text-last : (t : Text) (xs : List Text) → Below t xs → insert_text t xs ≡ xs ++ t ∷ []
unfolding insert_text
insert_text-last t [] b = refl
insert_text-last t (x ∷ xs) b =
    let (up, other) = not_back x t b.0 in
    rw (up, other) (ap (λ ys. x ∷ ys) (insert_text-last t xs b.1))

Below-append : (t u : Text) (xs : List Text) → Below t xs → less t u ≡ true → Below u (xs ++ t ∷ [])
Below-append t u [] b h = (h, tt)
Below-append t u (x ∷ xs) b h = (less_trans x t u b.0 h, Below-append t u xs b.1 h)

-- The texts ascend from the one before them.
abbrev Ascends : Text → List Text → Type 0
Ascends previous [] = Unit
Ascends previous (x ∷ xs) = (less previous x ≡ true) × Ascends x xs

strings_from-append :
    (previous : Text) (result xs : List Text)
    → Ascends previous xs
    → ((u : Text) → less previous u ≡ true → Below u result)
    → strings_from previous result (strings_value xs) ≡ ok (result ++ xs)
unfolding strings_from
strings_from-append previous result [] a b = ap ok (sym (append-nil result))
strings_from-append previous result (x ∷ xs) a b =
    rw (a.0, insert_text-last x result (b x a.0))
      (strings_from-append x (result ++ x ∷ []) xs a.1 (λ u h. Below-append x u result (b x a.0) h)
        ∙ ap ok (append_assoc result (x ∷ []) xs))

first_up :
    (p : Text → Bool) (xs : List Text)
    → p [] ≡ false
    → all p xs ≡ true
    → All (λ x. less [] x ≡ true) xs
unfolding compare_text
first_up p [] e h = tt
first_up p ([] ∷ xs) e h = absurd (clash (p []) (all p xs) e h)
  where
    clash : (a b : Bool) → a ≡ false → (a && b) ≢ true
    clash true b e h = cc
    clash false b e h = cc
first_up p ((c ∷ x) ∷ xs) e h = (refl, first_up p xs e (second (p (c ∷ x)) (all p xs) h))
  where
    second : (a b : Bool) → (a && b) ≡ true → b ≡ true
    second true b h = h
    second false b h = cc

IsOrdered-Ascends :
    (previous : Text) (xs : List Text)
    → All (λ x. less previous x ≡ true) xs
    → IsOrdered xs
    → Ascends previous xs
IsOrdered-Ascends previous [] a o = tt
IsOrdered-Ascends previous (x ∷ xs) a o = (a.0, IsOrdered-Ascends x xs o.0 o.1)

no_key : operation_key [] ≡ false
unfolding operation_key split_once
no_key = refl

no_identifier : identifier [] ≡ false
unfolding identifier
no_identifier = refl

both : (a b : Bool) → (a && b) ≡ true → (a ≡ true) × (b ≡ true)
both true b h = (refl, h)
both false b h = cc

read_back :
    (p : Text → Bool) (xs : List Text)
    → p [] ≡ false
    → all p xs ≡ true
    → IsOrdered xs
    → strings_from [] [] (strings_value xs) ≡ ok xs
read_back p xs e h o =
    strings_from-append [] [] xs (IsOrdered-Ascends [] xs (first_up p xs e h) o) (λ u k. tt)

valid_parts :
    (a : Authority)
    → valid a ≡ true
    → (all operation_key a.operations ≡ true) × (all identifier a.resources ≡ true)
unfolding valid
valid_parts a v = both _ _ v

-- A valid authority whose operations and resources are sets is what its value is read back as.
pub from_value-to_value :
    (a : Authority)
    → valid a ≡ true
    → IsOrdered a.operations × IsOrdered a.resources
    → from_value (to_value a) ≡ ok a
unfolding from_value to_value compare_text
from_value-to_value a v o =
    let (operations, resources) = valid_parts a v in
    rw
      (
        read_back operation_key a.operations no_key operations o.0,
        read_back identifier a.resources no_identifier resources o.1,
        v,
      )
      refl
