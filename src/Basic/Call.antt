-- ===== src/Basic/Call.antt =====
-- Calls of a plugin that may change a state: the state stands beside the result, whichever it is.
use phenix_ai.Prelude.{◌≡◌, refl, ap, ◌⊎◌, inl, inr}
use phenix_ai.Contract.Failure.{ok, err}
use phenix_ai.Basic.Errors.{CallError, CallResult}

abbrev pub Call : Type 0 → Type 0 → Type 0
Call S A = S → CallResult A × S

module _ {S A : Type 0} where
  -- A step that leaves the state alone, and one that only reads it.
  abbrev pub lift : CallResult A → Call S A
  lift r s = (r, s)

  abbrev pub reads : (S → CallResult A) → Call S A
  reads f s = (f s, s)

module _ {S A B : Type 0} where
  abbrev pub continue : (A → Call S B) → CallResult A → Call S B
  continue f (ok a) s = f a s
  continue f (err e) s = (err e, s)

  -- The operator `?`: an error ends the call, and the state stays as it is then.
  infixl 5 ◌>>=◌ ◌>>◌
  abbrev pub ◌>>=◌ : Call S A → (A → Call S B) → Call S B
  ◌>>=◌ m f s = let (r, s') = m s in continue f r s'

  abbrev pub ◌>>◌ : Call S A → Call S B → Call S B
  m >> n = m >>= λ _. n

  -- How a call goes on after a step that leaves the state alone.
  pub lift-ends :
      (r : CallResult A) (f : A → Call S B) (s : S) {q : CallResult B × S}
      → (lift r >>= f) s ≡ q
      → ((a : A) × (r ≡ ok a) × (f a s ≡ q)) ⊎ ((e : CallError) × (r ≡ err e) × ((err e, s) ≡ q))
  lift-ends (ok a) f s h = inl (a, refl, h)
  lift-ends (err e) f s h = inr (e, refl, h)

  pub continue-ends :
      (r : CallResult A) (f : A → Call S B) (s : S) {q : CallResult B × S}
      → continue f r s ≡ q
      → ((a : A) × (r ≡ ok a) × (f a s ≡ q)) ⊎ ((e : CallError) × (r ≡ err e) × ((err e, s) ≡ q))
  continue-ends (ok a) f s h = inl (a, refl, h)
  continue-ends (err e) f s h = inr (e, refl, h)

module _ {S A : Type 0} where
  pub ends-ne :
      {e : CallError} {a : A} {s t : S} → ◌≡◌ {A = CallResult A × S} (err e, s) (ok a, t) → ⊥
  ends-ne {e = e} {a = a} h = no (ap (λ q. q.0) h)
    where
      no : ◌≡◌ {A = CallResult A} (err e) (ok a) → ⊥
      no k = cc

  pub ends-eq : (q : CallResult A × S) {r : CallResult A} {s : S} → q.0 ≡ r → q.1 ≡ s → q ≡ (r, s)
  ends-eq q h k = cc

  pub ends-err :
      {e f : CallError} {s t : S}
      → ◌≡◌ {A = CallResult A × S} (err e, s) (err f, t)
      → (e ≡ f) × (s ≡ t)
  ends-err h = (cc, ap (λ q. q.1) h)

  pub ends-ok :
      {a b : A} {s t : S} → ◌≡◌ {A = CallResult A × S} (ok a, s) (ok b, t) → (a ≡ b) × (s ≡ t)
  ends-ok h = (cc, ap (λ q. q.1) h)

-- What holds of the state after a step, and after whatever it goes on with, holds at the end.
pub continue-keeps {ℓ} :
    {S A B : Type 0} (P : S → Type ℓ) (r : CallResult A) (f : A → Call S B) (s : S)
    → P s
    → ((a : A) → r ≡ ok a → P (f a s).1)
    → P (continue f r s).1
continue-keeps P (ok a) f s h k = k a refl
continue-keeps P (err e) f s h k = h
