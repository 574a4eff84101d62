-- ===== src/Basic/Storage/Commit.antt =====
-- What a single-record commit leaves behind (crates/phenix-basic-contracts/src/lib.rs).
use phenix_ai.Prelude.{
  ℕ, ◌+◌, ◌≡◌, ◌≢◌, refl, sym, ap, ◌∙◌, ◌⊎◌, inl, inr, List, [], ◌∷◌, checked_add, ◌<◌, u64_max,
  checked_add-room, ==_iff,
}
use phenix_ai.Prelude.Order.{Text, =?_refl}
use phenix_ai.Contract.Failure.{Result, Failure, ok, err, ok_or}
use phenix_ai.Basic.Errors.{
  BasicError, CallError, domain, kernel, CallResult, map_err, error, conflict,
}
use phenix_ai.Basic.Call.{lift-ends, continue-ends, ends-ne, ends-eq, ends-err}
use phenix_ai.Basic.Storage.{
  StoredRecord, StorageEdit, Storage, IsCommit, SameContents, single, transact_one,
  checked_single_commit_ack, matches_commit, revision_of,
}

abbrev pub edit_of : Text → ℕ → Text → StorageEdit
edit_of key expected content = record { key = key; expected = expected; data_bytes = content }

kernel_ne {ℓ} :
    {A : Type ℓ} (r : Result Failure A) {e : BasicError} → map_err kernel r ≢ err (domain e)
kernel_ne (ok a) h = cc
kernel_ne (err f) h = cc

module _ {S : Type 0} (storage : Storage S) (session key : Text) (expected : ℕ) (content : Text)
    (s : S) where
  -- The call of the provider that the commit makes.
  abbrev called : CallResult (List StoredRecord) × S
  called = storage.transact (single session (edit_of key expected content)) s

  after_call :
      {q : CallResult ℕ × S}
      → transact_one storage session key expected content s ≡ q
      → ((e : CallError) × ((err e, s) ≡ q))
        ⊎ ((records : List StoredRecord) × (called.0 ≡ ok records)
            × ((map_err kernel (checked_single_commit_ack records expected content), called.1) ≡ q))
        ⊎ ((e : CallError) × (called.0 ≡ err e) × ((err e, called.1) ≡ q))
  unfolding transact_one
  after_call h =
      elim (lift-ends (ok_or (checked_add expected 1) (domain (error conflict "revision overflow")))
        _ s h) [
          | inr (e, f, g) ↦ inl (e, g)
          | inl (next, f, g) ↦ elim (continue-ends called.0 _ called.1 g) [
            | inl (records, f', g') ↦ inr (inl (records, f', g'))
            | inr (e, f', g') ↦ inr (inr (e, f', g'))
          ]
        ]

  -- An acknowledged commit is one edit: the record was at the expected revision, and is at the next
  -- with the given bytes.
  pub transact_one-ok :
      {n : ℕ} {s' : S}
      → transact_one storage session key expected content s ≡ (ok n, s')
      → IsCommit (storage.contents s) session (edit_of key expected content) (storage.contents s')
  transact_one-ok h = elim (after_call h) [
    | inl (e, g) ↦ absurd (ends-ne g)
    | inr (inr (e, f, g)) ↦ absurd (ends-ne g)
    | inr (inl (records, f, g)) ↦
        storage.transact_ok s session (edit_of key expected content)
          (ends-eq called f (ap (λ q. q.1) g))
  ]

  -- A domain error of a commit: nothing has changed.
  pub transact_one-domain :
      {e : BasicError} {s' : S}
      → transact_one storage session key expected content s ≡ (err (domain e), s')
      → SameContents (storage.contents s) (storage.contents s')
  transact_one-domain h = elim (after_call h) [
    | inl (e, g) ↦ λ i k. ap (λ t. storage.contents t i k) (sym (ap (λ q. q.1) g))
    | inr (inr (e, f, g)) ↦
        storage.transact_domain s session (edit_of key expected content)
          (ends-eq called (f ∙ ap (λ q. err q) (ends-err g).0) (ends-err g).1)
    | inr (inl (records, f, g)) ↦ absurd (kernel_ne _ (ap (λ q. q.0) g))
  ]

  -- A failure of the kernel: nothing has changed, or the edit was made.
  pub transact_one-kernel :
      {f : Failure} {s' : S}
      → transact_one storage session key expected content s ≡ (err (kernel f), s')
      → SameContents (storage.contents s) (storage.contents s')
        ⊎ IsCommit (storage.contents s) session (edit_of key expected content) (storage.contents s')
  transact_one-kernel h = elim (after_call h) [
    | inl (e, g) ↦ inl (λ i k. ap (λ t. storage.contents t i k) (sym (ap (λ q. q.1) g)))
    | inr (inr (e, f, g)) ↦
        storage.transact_kernel s session (edit_of key expected content)
          (ends-eq called (f ∙ ap (λ q. err q) (ends-err g).0) (ends-err g).1)
    | inr (inl (records, f, g)) ↦ inr (
        storage.transact_ok s session (edit_of key expected content)
          (ends-eq called f (ap (λ q. q.1) g)))
  ]

acknowledged :
    (expected : ℕ) (content : Text)
    → expected < u64_max
    → checked_single_commit_ack
        (record { revision = expected + 1; data_bytes = content } ∷ [])
        expected
        content
      ≡ ok (expected + 1)
unfolding checked_single_commit_ack matches_commit
acknowledged expected content room =
    rw (
      checked_add-room expected room,
      (==_iff (expected + 1) (expected + 1)).1 refl,
      =?_refl content,
    )

module _ {S : Type 0} (storage : Storage S) where
  -- A served session whose record is at the expected revision, which has a next one, gets its
  -- commit acknowledged with the next revision.
  pub transact_one-done :
      (session key : Text) (expected : ℕ) (content : Text) (s : S)
      → storage.Serves session
      → key ≢ []
      → revision_of (storage.contents s session key) ≡ expected
      → expected < u64_max
      → (transact_one storage session key expected content s).0 ≡ ok (expected + 1)
  unfolding transact_one
  transact_one-done session key expected content s served has_key at room = rw (
    checked_add-room expected room,
    storage.transact_done s session (edit_of key expected content) served has_key at room,
    acknowledged expected content room,
  )
