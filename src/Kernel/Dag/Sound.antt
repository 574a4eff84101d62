-- ===== src/Kernel/Dag/Sound.antt =====
-- A successful search lists dependencies first, each node once, and every key.
use phenix_ai.Prelude.{
  ℕ, zero, suc, ◌≡◌, refl, subst, ◌∙◌, sym, Bool, true, false, ◌||◌, none, some, List, [], ◌∷◌,
  ◌++◌, arith, length, All, any, is_some, position,
}
use phenix_ai.Prelude.Order.{Text, text_ord, ◌=?◌, =?_comm, =?_iff, =?_refl}
use phenix_ai.Prelude.Map.{Map, get, keys, get-insert}
use phenix_ai.Kernel.Dag.{
  Visited, Outcome, ok, >>=-eq-ok, elem, visit_each, finish, visit, start, order,
}
use phenix_ai.Kernel.Dag.Step.{visit-Exit, on_path, already, unknown, searched}
use phenix_ai.Kernel.Dag.Relation.{Supported, OrderedAfter, OrderedAfter-snoc}

any-append {ℓ} :
    {A : Type ℓ} (p : A → Bool) (xs ys : List A) → any p (xs ++ ys) ≡ any p xs || any p ys
any-append p [] ys = refl
any-append p (x ∷ xs) ys = ground (arith, any-append p xs ys)

pub any-position-none {ℓ} :
    {A : Type ℓ} (p : A → Bool) (xs : List A) → position p xs ≡ none → any p xs ≡ false
unfolding position
any-position-none p [] h = refl
any-position-none p (x ∷ xs) h = ground (arith, any-position-none p xs)

-- What stands at the end is listed.
pub elem-snoc : (k x : Text) (xs : List Text) → elem k (xs ++ x ∷ []) ≡ elem k xs || x =? k
elem-snoc k x xs = ground (arith, any-append (λ (y : Text). y =? k) xs (x ∷ []))

module _ (predecessors : Map Text (List Text)) where
  pub record IsListing (s : Visited) : Type 0 where
    pub ordered : OrderedAfter predecessors [] s.result
    pub agree : (k : Text) → is_some (get k s.done) ≡ elem k s.result

  -- From `s` to `s'`, the nodes `ids` were searched below `path`.
  pub record Searched (path ids : List Text) (s s' : Visited) : Type 0 where
    pub listing : IsListing s'
    pub found : All (λ d. elem d s'.result ≡ true) ids
    pub keeps : (k : Text) → elem k s.result ≡ true → elem k s'.result ≡ true
    pub off_path : (k : Text) → elem k path ≡ true → elem k s'.result ≡ elem k s.result

  All-keeps :
      (s s' : Visited)
      → ((k : Text) → elem k s.result ≡ true → elem k s'.result ≡ true)
      → (ids : List Text) → All (λ d. elem d s.result ≡ true) ids
      → All (λ d. elem d s'.result ≡ true) ids
  All-keeps s s' keeps [] a = tt
  All-keeps s s' keeps (id ∷ ids) a = (keeps id a.0, All-keeps s s' keeps ids a.1)

  Searched-refl : (path : List Text) (s : Visited) → IsListing s → Searched path [] s s
  Searched-refl path s l = record {
    listing = l;
    found = tt;
    keeps = λ k e. e;
    off_path = λ k e. refl;
  }

  visit_each-Searched :
      (go : Text → Visited → Outcome Visited) (path : List Text)
      → ((id : Text) (s s' : Visited)
          → IsListing s
          → go id s ≡ ok s'
          → Searched path (id ∷ []) s s')
      → (ids : List Text) (s s' : Visited) → IsListing s
      → visit_each go ids s ≡ ok s'
      → Searched path ids s s'
  unfolding visit_each
  visit_each-Searched go path step [] s s' l h =
      subst (Searched path [] s) (cc) (Searched-refl path s l)
  visit_each-Searched go path step (id ∷ ids) s s' l h =
      let (m, first, rest) = >>=-eq-ok (go id s) _ h in
      let a = step id s m l first in
      let b = visit_each-Searched go path step ids m s' a.listing rest in
      record {
        listing = b.listing;
        found = (b.keeps id a.found.0, b.found);
        keeps = λ k e. b.keeps k (a.keeps k e);
        off_path = λ k e. b.off_path k e ∙ a.off_path k e;
      }

  finish-IsListing :
      (id : Text) (s : Visited)
      → IsListing s
      → elem id s.result ≡ false
      → Supported predecessors id s.result
      → IsListing (finish id s)
  unfolding finish
  finish-IsListing id s l new sup = record {
    ordered = OrderedAfter-snoc predecessors [] s.result id l.ordered new sup;
    agree = λ k.
        ground (arith, get-insert id k tt s.done, l.agree k, elem-snoc k id s.result, =?_comm k id);
  }

  off_path-finish :
      (path : List Text) (id : Text) (ds : List Text) (s m : Visited)
      → any (λ node. node =? id) path ≡ false
      → Searched (path ++ id ∷ []) ds s m
      → (k : Text) → elem k path ≡ true
      → elem k (finish id m).result ≡ elem k s.result
  unfolding finish
  off_path-finish path id ds s m off a k on = ground (
    arith,
    elem-snoc k id m.result,
    elem-snoc k id path,
    a.off_path k (ground (arith, elem-snoc k id path)),
    (=?_iff id k).0,
  )

  -- The last node of the path, once its predecessors have been searched.
  finish-Searched :
      (path : List Text) (id : Text) (ds : List Text) (s m : Visited)
      → any (λ node. node =? id) path ≡ false
      → elem id s.result ≡ false
      → get id predecessors ≡ some ds
      → Searched (path ++ id ∷ []) ds s m
      → Searched path (id ∷ []) s (finish id m)
  unfolding finish
  finish-Searched path id ds s m off new e a =
      let at_id : elem id m.result ≡ false =
        a.off_path id (ground (arith, elem-snoc id id path, =?_refl id)) ∙ new in
      record {
        listing = finish-IsListing id m a.listing at_id (ds, e, a.found);
        found = (ground (arith, elem-snoc id id m.result, =?_refl id), tt);
        keeps = λ k old. ground (arith, elem-snoc k id m.result, a.keeps k old);
        off_path = off_path-finish path id ds s m off a;
      }

  visit-Searched :
      (fuel : ℕ) (path : List Text) (id : Text) (s s' : Visited)
      → IsListing s
      → visit predecessors fuel path id s ≡ ok s'
      → Searched path (id ∷ []) s s'
  unfolding visit
  visit-Searched zero path id s s' l h = cc
  visit-Searched (suc fuel) path id s s' l h = elim (visit-Exit predecessors fuel path id s) [
    | on_path at e v ↦ cc
    | already old v ↦ subst (Searched path (id ∷ []) s) (cc) (record {
      listing = l;
      found = (ground (arith, l.agree id), tt);
      keeps = λ k e. e;
      off_path = λ k e. refl;
    })
    | unknown e v ↦ cc
    | searched ds e new there v ↦
        let (m, below, last) = >>=-eq-ok _ (λ t. ok (finish id t)) (sym v ∙ h) in
        let inner =
          visit_each-Searched (visit predecessors fuel (path ++ id ∷ [])) (path ++ id ∷ [])
            (λ d t t'. visit-Searched fuel (path ++ id ∷ []) d t t') ds s m l below in
        subst (Searched path (id ∷ []) s) (cc) (
          finish-Searched path id ds s m (any-position-none _ path e) (sym (l.agree id) ∙ new) there
            inner)
  ]

  -- An order that the search returns lists every key of the predecessor map, lists nothing twice,
  -- and lists each node after all of its predecessors.
  pub order-OrderedAfter :
      (listed : List Text)
      → order predecessors ≡ ok listed
      → OrderedAfter predecessors [] listed × All (λ id. elem id listed ≡ true) (keys predecessors)
  unfolding order get
  order-OrderedAfter listed h =
      let fuel : ℕ = suc (length predecessors) in
      let (s, searched_all, last) = >>=-eq-ok _ (λ (t : Visited). ok t.result) h in
      let a =
        visit_each-Searched (visit predecessors fuel []) []
          (λ id t t'. visit-Searched fuel [] id t t') (keys predecessors) start s
          (record { ordered = tt; agree = λ k. refl }) searched_all in
      subst (λ r. OrderedAfter predecessors [] r × All (λ id. elem id r ≡ true) (keys predecessors))
        (cc) (a.listing.ordered, a.found)
