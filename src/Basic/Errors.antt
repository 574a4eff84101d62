-- ===== src/Basic/Errors.antt =====
-- crates/phenix-basic-contracts/src/lib.rs: the errors of the plugins, the resource of a session,
-- and
-- the check that a call is authorized for its session.
use phenix_ai.Prelude.{◌≡◌, String, Bool, false, Option, none, some, ◌++◌}
use phenix_ai.Prelude.Order.{Text, text_ord, ◌=?◌, ascii}
use phenix_ai.Contract.Failure.{Failure, Result, ok, err, ◌>>=◌, ◌>>◌, guard}
use phenix_ai.Contract.Schema.{identifier}

pub data ErrorCode : Type 0 where
  conflict denied indeterminate invalid_cursor invalid_input invalid_reply model_failed not_found
        storage_failed tool_failed turn_limit :
      ErrorCode

pub record BasicError : Type 0 where
  pub code : ErrorCode
  pub message : String

-- `error`
abbrev pub error : ErrorCode → String → BasicError
error c m = record { code = c; message = m }

-- `CallError<BasicError>`
pub data CallError : Type 0 where
  domain : BasicError → CallError
  kernel : Failure → CallError

abbrev pub CallResult : Type 0 → Type 0
CallResult A = Result CallError A

abbrev pub map_err {ℓ κ μ} :
    {E : Type ℓ} {F : Type κ} {A : Type μ} → (E → F) → Result E A → Result F A
map_err f (ok a) = ok a
map_err f (err e) = err (f e)

unfoldable pub session_resource : Text → Result BasicError Text
session_resource session = do
  guard (identifier session) (error invalid_input "invalid session identity")
  ok (ascii "phenix.session." ++ session)

abbrev pub is_resource : Option Text → Text → Bool
is_resource none expected = false
is_resource (some held) expected = held =? expected

-- `check_session`; the resource is what the host answers.
unfoldable pub check_session : Result Failure (Option Text) → Text → CallResult (Unit {0})
check_session resource session = do
  expected ← map_err domain (session_resource session)
  held ← map_err kernel resource
  guard (is_resource held expected) (domain (error denied "session resource is not authorized"))

pub map_err-eq-ok {ℓ κ μ} :
    {E : Type ℓ} {F : Type κ} {A : Type μ} (f : E → F) (r : Result E A) {a : A}
    → map_err f r ≡ ok a
    → r ≡ ok a
map_err-eq-ok f (ok b) h = cc
map_err-eq-ok f (err e) h = cc
