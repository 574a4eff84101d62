-- ===== src/Basic/EventJournal/Answered.antt =====
-- When the handlers of the journal answer (crates/phenix-plugin-event-journal/src/lib.rs).
use phenix_ai.Prelude.{
  ◌+◌, ◌≤◌, ◌<◌, ◌≡◌, ◌≢◌, refl, sym, ap, ◌∙◌, Option, none, some, List, [], ◌∷◌, ◌++◌, length,
  length-append, u64_max,
}
use phenix_ai.Prelude.Order.{Text}
use phenix_ai.Contract.Failure.{Failure, Result, ok, err, ok_injective}
use phenix_ai.Compaction.Journal.{Event}
use phenix_ai.Basic.Errors.{BasicError, domain, not_found, check_session}
use phenix_ai.Basic.Storage.{StoredRecord, Storage, revision_of}
use phenix_ai.Basic.Storage.Commit.{transact_one-done}
use phenix_ai.Basic.Events.{JournalAppend}
use phenix_ai.Basic.Events.Numbered.{
  IsJournal, AllSubmitted, numbered, append_checked-ok, append_checked-done, length-numbered,
}
use phenix_ai.Basic.EventJournal.{journal_key, loaded, load, commit_events, append, tail_of}
use phenix_ai.Basic.EventJournal.Append.{journal, recorded, tail_of-length}

module _ {S : Type 0} (storage : Storage S) (resource : Result Failure (Option Text))
    (encode : List Event → Result Failure Text) (decode : Text → Result Failure (List Event)) where
  loaded-missing :
      (e : BasicError)
      → e.code ≡ not_found
      → loaded storage resource encode decode (err (domain e)) ≡ ok (0, [])
  loaded-missing e h = rw h refl

  load_from :
      (session : Text) (s : S) (held : Option StoredRecord) {old : List Event}
      → storage.Serves session
      → storage.contents s session journal_key ≡ held
      → recorded storage resource encode decode held ≡ ok old
      → load storage resource encode decode session s ≡ ok (revision_of held, old)
  unfolding load
  load_from session s none served at h =
      let (e, missing, code) =
        storage.read_absent s (record { session = session; key = journal_key }) served at in
      rw missing (loaded-missing e code ∙ ap (λ es. ok (0, es)) (ok_injective h))
  load_from session s (some r) served at h =
      rw (storage.read_stored s (record { session = session; key = journal_key }) served at, h) refl

  -- A served session's journal is loaded.
  pub load-done :
      (session : Text) (s : S) {old : List Event}
      → storage.Serves session
      → journal storage resource encode decode s session ≡ ok old
      → load storage resource encode decode session s
        ≡ ok (revision_of (storage.contents s session journal_key), old)
  load-done session s served h =
      load_from session s (storage.contents s session journal_key) served refl h

  commit_events-done :
      (session : Text) (updated events : List Event) (s : S)
      → storage.Serves session
      → revision_of (storage.contents s session journal_key) < u64_max
      → {content : Text} → encode updated ≡ ok content
      → (commit_events storage resource encode decode session
          (revision_of (storage.contents s session journal_key))
          updated
          events
          s).0
        ≡ ok (tail_of updated)
  commit_events-done session updated [] s served room e = refl
  commit_events-done session updated (d ∷ events) s served room {content} e = rw (
    e,
    transact_one-done storage session journal_key
        (revision_of (storage.contents s session journal_key)) content s served has_key refl room,
  )
    where
      has_key : journal_key ≢ []
      has_key h = cc

  -- `append` answers the number of the last event on every journal that is numbered from 1 without
  -- a gap, for all events of runs of the session that have no number yet, when the host and the
  -- storage provider authorize the session, the numbers and the revision of the journal last, and
  -- the codec encodes the journal with the events added.
  pub append-done :
      (request : JournalAppend) (s : S) {old : List Event} {content : Text}
      → check_session resource request.session ≡ ok tt
      → storage.Serves request.session
      → journal storage resource encode decode s request.session ≡ ok old
      → IsJournal request.session 0 old
      → AllSubmitted request.session request.events
      → length old + length request.events ≤ u64_max
      → revision_of (storage.contents s request.session journal_key) < u64_max
      → encode (old ++ numbered (length old) request.events) ≡ ok content
      → (append storage resource encode decode request s).0
        ≡ ok (length old + length request.events)
  unfolding append
  append-done request s {old = old} allowed served at j own room revisions encodes =
      let (updated, done) = append_checked-done old request j own room in
      let (_, _, grown, j') = append_checked-ok old request done in
      rw (allowed, load-done request.session s served at, done)
        (commit_events-done request.session updated request.events s served revisions
            (ap encode (sym grown) ∙ encodes)
          ∙ ap (λ n. ok n)
              (tail_of-length request.session updated j'
                ∙ ap length (sym grown)
                ∙ length-append old (numbered (length old) request.events)
                ∙ ap (λ m. length old + m) (length-numbered (length old) request.events)))
