-- ===== src/Contract/Failure.antt =====
-- crates/phenix-contract/src/lib.rs: the codes, `Failure`, and results that may carry one.
use phenix_ai.Prelude.{
  ◌≡◌, ◌≢◌, refl, ap, ◌⊎◌, inl, inr, String, Bool, true, false, Option, none, some,
}

pub data Code : Type 0 where
  descriptor_invalid artifact_invalid abi_incompatible missing_binding ambiguous_binding
        schema_rejected denied plugin_failed infrastructure_failure reentrancy_rejected
        scope_rejected cancelled :
      Code

pub record Failure : Type 0 where
  pub code : Code
  pub message : String

pub data Result {ℓ κ} (E : Type ℓ) (A : Type κ) : Type (ℓ ⊔ κ) where
  ok : A → Result E A
  err : E → Result E A

-- An early return of an error.
abbrev pub guard {ℓ} : {E : Type ℓ} → Bool → E → Result E (Unit {0})
guard false failed = err failed
guard true failed = ok tt

-- The operator `?`: an error ends the function.
infixl 5 ◌>>=◌ ◌>>◌
abbrev pub ◌>>=◌ {ℓ κ μ} :
    {E : Type ℓ} {A : Type κ} {B : Type μ} → Result E A → (A → Result E B) → Result E B
err failed >>= rest = err failed
ok a >>= rest = rest a

abbrev pub ◌>>◌ {ℓ κ} : {E : Type ℓ} {B : Type κ} → Result E (Unit {0}) → Result E B → Result E B
checked >> rest = checked >>= λ _. rest

-- `ok_or`
abbrev pub ok_or {ℓ κ} : {E : Type ℓ} {A : Type κ} → Option A → E → Result E A
ok_or none e = err e
ok_or (some a) e = ok a

-- `Failure::new`
abbrev pub failure : Code → String → Failure
failure c m = record { code = c; message = m }

-- `invalid` of value.rs and reference.rs.
abbrev pub invalid : String → Failure
invalid = failure schema_rejected

-- What a sequence that succeeds has gone through.
pub >>=-eq-ok {ℓ κ μ} :
    {E : Type ℓ} {A : Type κ} {B : Type μ} (first : Result E A) (rest : A → Result E B) {last : B}
    → (first >>= rest) ≡ ok last
    → (between : A) × (first ≡ ok between) × (rest between ≡ ok last)
>>=-eq-ok (err failed) rest h = cc
>>=-eq-ok (ok between) rest h = (between, refl, h)

pub ok_injective {ℓ κ} :
    {E : Type ℓ} {A : Type κ} {a b : A} → ◌≡◌ {A = Result E A} (ok a) (ok b) → a ≡ b
ok_injective h = cc

-- A check that was passed.
pub guard-eq-ok {ℓ κ} :
    {E : Type ℓ} {B : Type κ} (t : Bool) (e : E) (m : Result E B) {q : B}
    → (guard t e >>= λ _. m) ≡ ok q
    → (t ≡ true) × (m ≡ ok q)
guard-eq-ok true e m h = (refl, h)
guard-eq-ok false e m h = cc

pub Result-cases {ℓ κ} :
    {E : Type ℓ} {A : Type κ} (r : Result E A) → ((a : A) × (r ≡ ok a)) ⊎ ((e : E) × (r ≡ err e))
Result-cases (ok a) = inl (a, refl)
Result-cases (err e) = inr (e, refl)

pub ok_or-eq-ok {ℓ κ} :
    {E : Type ℓ} {A : Type κ} (o : Option A) (e : E) {a : A} → ok_or o e ≡ ok a → o ≡ some a
ok_or-eq-ok none e h = cc
ok_or-eq-ok (some b) e h = ap some (ok_injective h)

-- An error that comes from behind a check.
pub guard-eq-err {ℓ κ} :
    {E : Type ℓ} {B : Type κ} (t : Bool) (e : E) (m : Result E B) {f : E}
    → e ≢ f
    → (guard t e >>= λ _. m) ≡ err f
    → (t ≡ true) × (m ≡ err f)
guard-eq-err true e m n h = (refl, h)
guard-eq-err false e m n h = absurd (n cc)

pub ok_or-eq-err {ℓ κ μ} :
    {E : Type ℓ} {A : Type κ} {B : Type μ} (o : Option A) (e : E) (f : A → Result E B) {g : E}
    → e ≢ g
    → (ok_or o e >>= f) ≡ err g
    → (a : A) × (o ≡ some a) × (f a ≡ err g)
ok_or-eq-err none e f n h = absurd (n cc)
ok_or-eq-err (some a) e f n h = (a, refl, h)

-- Where the error of a sequence comes from.
pub >>=-eq-err {ℓ κ μ} :
    {E : Type ℓ} {A : Type κ} {B : Type μ} (first : Result E A) (rest : A → Result E B) {e : E}
    → (first >>= rest) ≡ err e
    → (first ≡ err e) ⊎ ((between : A) × (first ≡ ok between) × (rest between ≡ err e))
>>=-eq-err (err f) rest h = inl cc
>>=-eq-err (ok between) rest h = inr (between, refl, h)
