-- ===== src/Basic/Fixture/Service.antt =====
-- The fixture as the storage service (crates/phenix-plugin-storage-fixture/src/lib.rs): it keeps
-- the
-- laws that the clients of the interface rely on.
use phenix_ai.Prelude.{
  ℕ, ◌<◌, ◌≡◌, ◌≢◌, refl, sym, ap, ◌∙◌, Bool, true, false, Option, none, some, List, [], ◌∷◌, ◌++◌,
  ◌==◌, length, u64_max, arith, ◌⊎◌, inl, inr,
}
use phenix_ai.Prelude.Order.{Text, text_ord, ascii}
use phenix_ai.Prelude.Map.{get}
use phenix_ai.Contract.Failure.{
  Failure, Result, ok, err, guard, ok_or, ◌>>=◌, >>=-eq-ok, >>=-eq-err, ok_or-eq-ok,
}
use phenix_ai.Contract.Schema.{identifier}
use phenix_ai.Basic.Errors.{
  ErrorCode, BasicError, CallError, domain, kernel, check_session, session_resource, is_resource,
  map_err, error, denied, invalid_input, not_found,
}
use phenix_ai.Basic.Storage.{
  RecordKey, StoredRecord, StorageEdit, revision_of, Storage, IsStorage, IsCommit, SameContents,
  single,
}
use phenix_ai.Basic.Fixture.{
  place_ord, Records, check_edit, check_edits, missing_record, new_record, new_records, read,
  transact,
}
use phenix_ai.Basic.Fixture.Kept.{contents, transact-ok, transact-err}

abbrev call_code : Result CallError (Unit {0}) → Option ErrorCode
call_code (ok u) = none
call_code (err (kernel f)) = none
call_code (err (domain e)) = some e.code

check_code :
    (b : Bool) (expected : Text) (resource : Result Failure (Option Text))
    → call_code (
        map_err domain
          (guard b (error invalid_input "invalid session identity") >>= λ _. ok expected)
        >>= λ expected. map_err kernel resource >>= λ held.
            guard
              (is_resource held expected)
              (domain (error denied "session resource is not authorized")))
      ≢ some not_found
check_code false expected resource h = cc
check_code true expected (err f) h = cc
check_code true expected (ok held) h = guarded (is_resource held expected) h
  where
    guarded :
        (b : Bool)
        → call_code (guard b (domain (error denied "session resource is not authorized")))
          ≢ some not_found
    guarded true h = cc
    guarded false h = cc

missing_or : (o : Option StoredRecord) {e : CallError} → ok_or o missing_record ≡ err e → o ≡ none
missing_or none h = refl
missing_or (some r) h = cc

not_empty : (k : Text) → k ≢ [] → (length k == 0) ≡ false
not_empty [] n = absurd (n refl)
not_empty (c ∷ k) n = ground arith

==-refl : (n : ℕ) → (n == n) ≡ true
==-refl n = ground arith

not_full : (n : ℕ) → n < u64_max → (n == u64_max) ≡ false
not_full n h = ground arith

module _ (resource : Result Failure (Option Text)) where
  -- The sessions that the host authorizes.
  abbrev pub Serves : Text → Type 0
  Serves session = check_session resource session ≡ ok tt

  -- No check of the session answers that a record is missing.
  check_session-code :
      (session : Text) {e : BasicError}
      → check_session resource session ≡ err (domain e)
      → e.code ≢ not_found
  unfolding check_session session_resource
  check_session-code session h k =
      check_code (identifier session) (ascii "phenix.session." ++ session) resource
        (ap call_code h ∙ ap some k)

  fixture-read_ok :
      (s : Records) (k : RecordKey) {r : StoredRecord}
      → read resource s k ≡ ok r
      → contents s k.session k.key ≡ some r
  unfolding read
  fixture-read_ok s k h =
      ok_or-eq-ok (get (k.session, k.key) s) missing_record
        (>>=-eq-ok (check_session resource k.session) _ h).2

  fixture-read_missing :
      (s : Records) (k : RecordKey) {e : BasicError}
      → read resource s k ≡ err (domain e)
      → e.code ≡ not_found
      → contents s k.session k.key ≡ none
  unfolding read
  fixture-read_missing s k h c = elim (>>=-eq-err (check_session resource k.session) _ h) [
    | inl refused ↦ absurd (check_session-code k.session refused c)
    | inr (u, checked, late) ↦ missing_or (get (k.session, k.key) s) late
  ]

  fixture-transact_ok :
      (s : Records) (session : Text) (edit : StorageEdit) {rs : List StoredRecord} {s' : Records}
      → transact resource (single session edit) s ≡ (ok rs, s')
      → IsCommit (contents s) session edit (contents s')
  fixture-transact_ok s session edit h =
      let w = transact-ok resource (single session edit) s h in
      record {
        prior = w.1.0.prior;
        stored = w.1.0.stored;
        others = λ i k far. w.3 i k (away i k far);
      }
    where
      away :
          (i k : Text)
          → (i ≢ session) ⊎ (k ≢ edit.key)
          → (i ≢ session) ⊎ ((edit.key ≢ k) × Unit {0})
      away i k (inl n) = inl n
      away i k (inr n) = inr (λ e. n (sym e), tt)

  fixture-transact_err :
      (s : Records) (session : Text) (edit : StorageEdit) {e : CallError} {s' : Records}
      → transact resource (single session edit) s ≡ (err e, s')
      → SameContents (contents s) (contents s')
  fixture-transact_err s session edit h i k =
      ap (λ a. contents a i k) (transact-err resource (single session edit) s h)

  fixture-transact_done :
      (s : Records) (session : Text) (edit : StorageEdit)
      → Serves session
      → edit.key ≢ []
      → revision_of (contents s session edit.key) ≡ edit.expected
      → edit.expected < u64_max
      → (transact resource (single session edit) s).0 ≡ ok (new_record edit ∷ [])
  unfolding transact check_edits check_edit new_records get
  fixture-transact_done s session edit served key prior room =
      rw (served, not_empty edit.key key, prior, ==-refl edit.expected, not_full edit.expected room)

  fixture-read_stored :
      (s : Records) (k : RecordKey) {r : StoredRecord}
      → Serves k.session
      → contents s k.session k.key ≡ some r
      → read resource s k ≡ ok r
  unfolding read
  fixture-read_stored s k served stored = rw (served, stored)

  fixture-read_absent :
      (s : Records) (k : RecordKey)
      → Serves k.session
      → contents s k.session k.key ≡ none
      → (e : BasicError) × (read resource s k ≡ err (domain e)) × (e.code ≡ not_found)
  unfolding read
  fixture-read_absent s k served absent =
      (error not_found "missing record", rw (served, absent), refl)

  -- Every law that the clients of the storage service rely on holds of the fixture.
  pub fixture-IsStorage : IsStorage (read resource) (transact resource) contents Serves
  fixture-IsStorage = record {
    read_ok = fixture-read_ok;
    read_missing = fixture-read_missing;
    transact_ok = fixture-transact_ok;
    transact_domain = λ s session edit h. fixture-transact_err s session edit h;
    transact_kernel = λ s session edit h. inl (fixture-transact_err s session edit h);
    read_stored = fixture-read_stored;
    read_absent = fixture-read_absent;
    transact_done = fixture-transact_done;
  }

  abbrev pub fixture : Storage Records
  fixture = record {
    read = read resource;
    transact = transact resource;
    contents = contents;
    Serves = Serves;
    lawful = fixture-IsStorage;
  }
