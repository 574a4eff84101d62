-- ===== src/Compaction/CheckpointStore/Put.antt =====
-- What the checkpoint store answers and keeps
-- (crates/phenix-plugin-compaction-checkpoints/src/lib.rs).
use phenix_ai.Prelude.{
  ℕ, ◌+◌, ◌≡◌, ◌≢◌, refl, sym, ap, subst, ◌∙◌, Option, some, List, [], ◌∷◌, ◌++◌, ◌==◌, ==_iff,
  length, length-append, All,
}
use phenix_ai.Prelude.Order.{Text}
use phenix_ai.Contract.Failure.{
  Failure, Result, ok, err, >>=-eq-ok, guard-eq-ok, ok_or-eq-ok, ok_injective,
}
use phenix_ai.Basic.Errors.{CallResult, map_err, map_err-eq-ok, check_session}
use phenix_ai.Basic.Call.{ends-eq}
use phenix_ai.Basic.Storage.{Storage, IsCommit, RoundTrips, single, one_record}
use phenix_ai.Basic.Storage.Commit.{edit_of}
use phenix_ai.Basic.Events.{JournalQuery, EventPage}
use phenix_ai.Compaction.Checkpoint.{CompactionCheckpoint}
use phenix_ai.Compaction.Journal.{Event}
use phenix_ai.Compaction.Ledger.{
  storage_failed, validate_ledger, append_checkpoint, newest_checkpoint, verify_checkpoint_ancestry,
  last_of,
}
use phenix_ai.Compaction.Ledger.Lineage.{IsNext, append_checkpoint-IsLedger}
use phenix_ai.Compaction.Ledger.Ancestry.{IsLineage, verify_checkpoint_ancestry-IsLineage}
use phenix_ai.Compaction.CheckpointStore.{
  StoreError, problem, kernel_failed, ledger_key, map_storage, ancestry_error, acknowledges, loaded,
  load, verify_journal, verify_source_ancestry, prepare, put_prepared, put_checkpoint, latest,
}

module _ {S : Type 0} (storage : Storage S) (journal_read : S → JournalQuery → CallResult EventPage)
    (resource : Result Failure (Option Text)) (sha256 : List ℕ → List ℕ)
    (event_bytes : Event → Option (List ℕ))
    (encode : List CompactionCheckpoint → Result Failure Text)
    (decode : Text → Result Failure (List CompactionCheckpoint)) where
  -- What a successful load has checked.
  record IsLoaded (session : Text) (revision : ℕ) (history : List CompactionCheckpoint)
      : Type 0 where
    pub allowed : check_session resource session ≡ ok tt
    pub valid : validate_ledger history session ≡ ok tt
    pub counted : revision ≡ length history

  load-IsLoaded :
      (session : Text) (s : S) {revision : ℕ} {history : List CompactionCheckpoint}
      → load storage journal_read resource sha256 event_bytes encode decode session s
        ≡ ok (revision, history)
      → IsLoaded session revision history
  unfolding load
  load-IsLoaded session s h =
      let k = >>=-eq-ok (map_err map_storage (check_session resource session)) _ h in
      let l =
        >>=-eq-ok
          (loaded storage journal_read resource sha256 event_bytes encode decode
            (storage.read s (record { session = session; key = ledger_key })))
          _ k.2 in
      let v =
        >>=-eq-ok
          (map_err (λ p. problem storage_failed "invalid durable checkpoint lineage")
            (validate_ledger l.0.1 session))
          _ l.2 in
      let g = guard-eq-ok (l.0.0 == length l.0.1) _ (ok l.0) v.2 in
      let is = ok_injective g.1 in
      subst (λ p. IsLoaded session p.0 p.1) is
        (record {
          allowed = map_err-eq-ok map_storage _ k.1;
          valid = map_err-eq-ok _ _ v.1;
          counted = (==_iff _ _).0 g.0;
        })

  -- A ledger that is stored in a valid form is loaded.
  stored-load :
      (session : Text) (s : S) (history : List CompactionCheckpoint) (content : Text)
      → storage.Serves session
      → check_session resource session ≡ ok tt
      → storage.contents s session ledger_key
        ≡ some (record { revision = length history; data_bytes = content })
      → decode content ≡ ok history
      → validate_ledger history session ≡ ok tt
      → load storage journal_read resource sha256 event_bytes encode decode session s
        ≡ ok (length history, history)
  unfolding load
  stored-load session s history content served allowed at decoded valid =
      rw
        (
          allowed,
          storage.read_stored s (record { session = session; key = ledger_key }) served at,
          decoded,
          valid,
          (==_iff (length history) (length history)).1 refl,
        )
        refl

  prepare-found :
      (c : CompactionCheckpoint) (s : S) {revision : ℕ} {content : Text}
      → prepare storage journal_read resource sha256 event_bytes encode decode c s
        ≡ ok (revision, content)
      → (history updated : List CompactionCheckpoint) × (load storage journal_read resource sha256
            event_bytes encode decode c.session s
          ≡ ok (revision, history))
        × (append_checkpoint history c c.session ≡ ok updated)
        × (verify_checkpoint_ancestry
              (verify_journal storage journal_read resource sha256 event_bytes encode decode s)
              updated
              c.id
            ≡ ok tt)
        × (encode updated ≡ ok content)
  unfolding prepare verify_source_ancestry
  prepare-found c s h =
      let l =
        >>=-eq-ok (load storage journal_read resource sha256 event_bytes encode decode c.session s)
          _ h in
      let a =
        >>=-eq-ok
          (map_err (λ p. problem p "invalid checkpoint revision")
            (append_checkpoint l.0.1 c c.session))
          _ l.2 in
      let v =
        >>=-eq-ok
          (map_err ancestry_error (
            verify_checkpoint_ancestry
              (verify_journal storage journal_read resource sha256 event_bytes encode decode s) a.0
              c.id))
          _ a.2 in
      let e = >>=-eq-ok (map_err kernel_failed (encode a.0)) _ v.2 in
      let is = ok_injective e.2 in
      (
        l.0.1,
        a.0,
        l.1 ∙ ap (λ p. ok (p.0, l.0.1)) is,
        map_err-eq-ok _ _ a.1,
        map_err-eq-ok ancestry_error _ v.1,
        map_err-eq-ok kernel_failed _ e.1 ∙ ap (λ p. ok p.1) is,
      )

  put_prepared-ok :
      (c : CompactionCheckpoint) (r : Result StoreError (ℕ × Text)) (s : S)
      {d : CompactionCheckpoint} {s' : S}
      → put_prepared storage journal_read resource sha256 event_bytes encode decode c r s
        ≡ (ok d, s')
      → (revision : ℕ) × (content : Text) × (r ≡ ok (revision, content))
        × (d ≡ c)
        × IsCommit
            (storage.contents s)
            c.session
            (edit_of ledger_key revision content)
            (storage.contents s')
  put_prepared-ok c (err e) s h = absurd (refused_ne (ap (λ q. q.0) h))
    where
      refused_ne :
          {e : StoreError} {d : CompactionCheckpoint}
          → ◌≢◌ {A = Result StoreError CompactionCheckpoint} (err e) (ok d)
      refused_ne k = cc
  put_prepared-ok c (ok (revision, content)) s h =
      let sent = storage.transact (single c.session (edit_of ledger_key revision content)) s in
      let k = >>=-eq-ok (map_err map_storage sent.0) _ (ap (λ q. q.0) h) in
      let g = guard-eq-ok (acknowledges (one_record k.0) revision content) _ (ok c) k.2 in
      (
        revision,
        content,
        refl,
        sym (ok_injective g.1),
        storage.transact_ok s c.session (edit_of ledger_key revision content)
            (ends-eq sent (map_err-eq-ok map_storage _ k.1) (ap (λ q. q.1) h)),
      )

  -- A checkpoint that the store takes is answered as it was given; it was the next one of the
  -- session's ledger; the sources of its whole lineage, from the first checkpoint on to itself,
  -- have been verified against the journal before the commit; and the ledger that is loaded
  -- afterwards is the old one followed by it. The codec of ledgers decodes what it encoded, and the
  -- provider authorizes the session.
  pub put_checkpoint-load :
      (round : RoundTrips encode decode) (c : CompactionCheckpoint) (s : S)
      {d : CompactionCheckpoint} {s' : S}
      → storage.Serves c.session
      → put_checkpoint storage journal_read resource sha256 event_bytes encode decode c s
        ≡ (ok d, s')
      → (history lineage : List CompactionCheckpoint) × (d ≡ c)
        × (load storage journal_read resource sha256 event_bytes encode decode c.session s
            ≡ ok (length history, history))
        × IsNext c.session history c
        × IsLineage c.session (history ++ c ∷ []) lineage c.id
        × All
            (λ a.
              verify_journal storage journal_read resource sha256 event_bytes encode decode s a
              ≡ ok tt)
            lineage
        × (load storage journal_read resource sha256 event_bytes encode decode c.session s'
            ≡ ok (length (history ++ c ∷ []), history ++ c ∷ []))
  unfolding put_checkpoint
  put_checkpoint-load round c s {s' = s'} served h =
      let (revision, content, prepared, same, commit) = put_prepared-ok c _ s h in
      let (history, updated, found, appended, verified, encoded) = prepare-found c s prepared in
      let (grown, old, next, linear, valid) =
        append_checkpoint-IsLedger history c c.session appended in
      let is = load-IsLoaded c.session s found in
      let (lineage, whole, all_verified) =
        verify_checkpoint_ancestry-IsLineage
          (verify_journal storage journal_read resource sha256 event_bytes encode decode s) updated
          c.session c.id valid verified in
      let long : revision + 1 ≡ length updated =
        ap (λ n. n + 1) is.counted ∙ sym (length-append history (c ∷ [])) ∙ ap length grown in
      let stored =
        commit.stored ∙ ap (λ n. some (record { revision = n; data_bytes = content })) long in
      let back =
        stored-load c.session s' updated content served is.allowed stored
          (round updated content encoded) valid in
      (
        history,
        lineage,
        same,
        found ∙ ap (λ n. ok (n, history)) is.counted,
        next,
        subst (λ hs. IsLineage c.session hs lineage c.id) (sym grown) whole,
        all_verified,
        back ∙ ap (λ hs. ok (length hs, hs)) (sym grown),
      )

  -- The latest checkpoint that is answered is the last one of the session's ledger, and the sources
  -- of its whole lineage have just been verified against the journal.
  pub latest-IsLineage :
      (session : Text) (s : S) {c : CompactionCheckpoint}
      → latest storage journal_read resource sha256 event_bytes encode decode session s ≡ ok c
      → (history lineage : List CompactionCheckpoint) × (load storage journal_read resource sha256
            event_bytes encode decode session s
          ≡ ok (length history, history))
        × (last_of history ≡ some c)
        × IsLineage session history lineage c.id
        × All
            (λ a.
              verify_journal storage journal_read resource sha256 event_bytes encode decode s a
              ≡ ok tt)
            lineage
  unfolding latest newest_checkpoint verify_source_ancestry
  latest-IsLineage session s h =
      let l =
        >>=-eq-ok (load storage journal_read resource sha256 event_bytes encode decode session s) _
          h in
      let is = load-IsLoaded session s l.1 in
      let n =
        >>=-eq-ok
          (map_err (λ p. problem p "no valid latest checkpoint") (newest_checkpoint l.0.1 session))
          _ l.2 in
      let newest = >>=-eq-ok (validate_ledger l.0.1 session) _ (map_err-eq-ok _ _ n.1) in
      let v =
        >>=-eq-ok
          (map_err ancestry_error (
            verify_checkpoint_ancestry
              (verify_journal storage journal_read resource sha256 event_bytes encode decode s)
              l.0.1 n.0.id))
          _ n.2 in
      let same = ok_injective v.2 in
      let (lineage, whole, all_verified) =
        verify_checkpoint_ancestry-IsLineage
          (verify_journal storage journal_read resource sha256 event_bytes encode decode s) l.0.1
          session n.0.id is.valid (map_err-eq-ok ancestry_error _ v.1) in
      (
        l.0.1,
        lineage,
        l.1 ∙ ap (λ m. ok (m, l.0.1)) is.counted,
        ok_or-eq-ok _ _ newest.2 ∙ ap (λ d. some d) same,
        subst (λ d. IsLineage session l.0.1 lineage d.id) same whole,
        all_verified,
      )
