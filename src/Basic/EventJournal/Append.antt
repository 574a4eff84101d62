-- ===== src/Basic/EventJournal/Append.antt =====
-- The journal that the storage service keeps, and what `append` adds to it
-- (crates/phenix-plugin-event-journal/src/lib.rs).
use phenix_ai.Prelude.{
  ℕ, ◌+◌, ◌≡◌, ◌≢◌, refl, sym, ap, subst, ◌∙◌, ◌⊎◌, inl, inr, Bool, true, false, Option, none, some,
  List, [], ◌∷◌, ◌++◌, length, length-append, arith, Bool-cases,
}
use phenix_ai.Prelude.Order.{Text}
use mathlib.Core.List.{append-nil}
use phenix_ai.Contract.Failure.{Failure, Result, ok, err, >>=-eq-ok, ok_injective}
use phenix_ai.Compaction.Journal.{Event}
use phenix_ai.Basic.Errors.{
  ErrorCode, BasicError, CallError, domain, kernel, CallResult, map_err, map_err-eq-ok, not_found,
  check_session,
}
use phenix_ai.Basic.Call.{lift-ends, continue-ends, ends-ne, ends-eq, ends-ok, ends-err}
use phenix_ai.Basic.Storage.{
  StoredRecord, Storage, SameContents, revision_of, transact_one, RoundTrips,
}
use phenix_ai.Basic.Storage.Commit.{transact_one-ok, transact_one-domain}
use phenix_ai.Basic.Events.{JournalAppend, append_checked}
use phenix_ai.Basic.Events.Numbered.{
  IsJournal, AllSubmitted, numbered, append_checked-ok, length-numbered,
}
use phenix_ai.Basic.EventJournal.{
  journal_key, is_not_found, corrupt, tail_of, loaded, load, commit_events, append,
}

code_missing : (c : ErrorCode) → elim c [ not_found ↦ true | _ ↦ false ] ≡ true → c ≡ not_found
code_missing c h = ground arith

pub missing_code :
    (e : CallError)
    → is_not_found e ≡ true
    → (b : BasicError) × (e ≡ domain b) × (b.code ≡ not_found)
missing_code (kernel f) h = cc
missing_code (domain e) h = (e, refl, code_missing e.code h)

pub tail_of-journal :
    (session : Text) (n : ℕ) (e : Event) (events : List Event)
    → IsJournal session n (e ∷ events)
    → tail_of (e ∷ events) ≡ n + length (e ∷ events)
tail_of-journal session n e [] j = j.0.number
tail_of-journal session n e (d ∷ events) j =
    tail_of-journal session (n + 1) d events j.1 ∙ omega arith

pub tail_of-length :
    (session : Text) (events : List Event)
    → IsJournal session 0 events
    → tail_of events ≡ length events
tail_of-length session [] j = refl
tail_of-length session (e ∷ events) j = tail_of-journal session 0 e events j ∙ omega arith

module _ {S : Type 0} (storage : Storage S) (resource : Result Failure (Option Text))
    (encode : List Event → Result Failure Text) (decode : Text → Result Failure (List Event)) where
  -- The journal that a record holds; where there is none, the empty one.
  abbrev pub recorded : Option StoredRecord → Result Failure (List Event)
  recorded none = ok []
  recorded (some r) = decode r.data_bytes

  abbrev pub journal : S → Text → Result Failure (List Event)
  journal s session = recorded (storage.contents s session journal_key)

  loaded-journal :
      (session : Text) (s : S) (answer : CallResult StoredRecord) {revision : ℕ}
      {events : List Event}
      → storage.read s (record { session = session; key = journal_key }) ≡ answer
      → loaded storage resource encode decode answer ≡ ok (revision, events)
      → (journal s session ≡ ok events)
        × (revision_of (storage.contents s session journal_key) ≡ revision)
  loaded-journal session s (ok r) h k =
      let stored = storage.read_ok s (record { session = session; key = journal_key }) h in
      let l =
        >>=-eq-ok (map_err corrupt (decode r.data_bytes)) (λ events. ok (r.revision, events)) k in
      let d = map_err-eq-ok corrupt (decode r.data_bytes) l.1 in
      let same = ok_injective l.2 in
      (ap recorded stored ∙ d ∙ ap (λ p. ok p.1) same, ap revision_of stored ∙ ap (λ p. p.0) same)
  loaded-journal session s (err e) h k = elim (Bool-cases (is_not_found e)) [
    | inl missing ↦
        let (b, same, code) = missing_code e missing in
        let absent =
          storage.read_missing s (record { session = session; key = journal_key })
            (h ∙ ap (λ q. err q) same) code in
        let same' = empty_of (is_not_found e) e missing k in
        (ap recorded absent ∙ ap (λ p. ok p.1) same', ap revision_of absent ∙ ap (λ p. p.0) same')
    | inr other ↦ absurd (refused_of (is_not_found e) e other k)
  ]
    where
      empty_of :
          (b : Bool) (e : CallError) {p : ℕ × List Event}
          → b ≡ true
          → ◌≡◌ {A = CallResult (ℕ × List Event)}
              (elim b [ true ↦ ok (0, []) | false ↦ err e ])
              (ok p)
          → (0, []) ≡ p
      empty_of true e h k = ok_injective k
      empty_of false e h k = cc

      refused_of :
          (b : Bool) (e : CallError) {p : ℕ × List Event}
          → b ≡ false
          → ◌≢◌ {A = CallResult (ℕ × List Event)}
              (elim b [ true ↦ ok (0, []) | false ↦ err e ])
              (ok p)
      refused_of true e h k = cc
      refused_of false e h k = cc

  -- What `load` answers is the journal that is stored, with its revision.
  pub load-journal :
      (session : Text) (s : S) {revision : ℕ} {events : List Event}
      → load storage resource encode decode session s ≡ ok (revision, events)
      → (journal s session ≡ ok events)
        × (revision_of (storage.contents s session journal_key) ≡ revision)
  unfolding load
  load-journal session s h = loaded-journal session s _ refl h

  -- How `append` gets to its commit.
  append_cases :
      (request : JournalAppend) (s : S) {q : CallResult ℕ × S}
      → append storage resource encode decode request s ≡ q
      → ((e : CallError) × ((err e, s) ≡ q))
        ⊎ ((revision : ℕ) × (old updated : List Event) × (load storage resource encode decode
                request.session s
              ≡ ok (revision, old))
            × (append_checked old request ≡ ok updated)
            × (commit_events storage resource encode decode request.session revision updated
                  request.events s
                ≡ q))
  unfolding append
  append_cases request s h = elim (lift-ends (check_session resource request.session) _ s h) [
    | inr (e, f, g) ↦ inl (e, g)
    | inl (u, f, g) ↦
        elim (continue-ends (load storage resource encode decode request.session s) _ s g) [
          | inr (e, f', g') ↦ inl (e, g')
          | inl (stored, f', g') ↦
              elim (lift-ends (map_err domain (append_checked stored.1 request)) _ s g') [
                | inr (e, f'', g'') ↦ inl (e, g'')
                | inl (updated, f'', g'') ↦
                    inr (stored.0, stored.1, updated, f', map_err-eq-ok domain _ f'', g'')
              ]
        ]
  ]

  -- Everywhere but at the journal of the session, the storage holds what it held.
  abbrev pub ElsewhereSame : S → Text → S → Type 0
  ElsewhereSame s session s' =
      (i k : Text)
      → (i ≢ session) ⊎ (k ≢ journal_key)
      → storage.contents s' i k ≡ storage.contents s i k

  commit_events-ok :
      (session : Text) (revision : ℕ) (updated events : List Event) (s : S) {n : ℕ} {s' : S}
      → RoundTrips encode decode
      → (events ≡ [] → journal s session ≡ ok updated)
      → commit_events storage resource encode decode session revision updated events s ≡ (ok n, s')
      → (n ≡ tail_of updated) × (journal s' session ≡ ok updated) × ElsewhereSame s session s'
  commit_events-ok session revision updated [] s round same h =
      let (counted, stays) = ends-ok h in
      (
        sym counted,
        subst (λ t. journal t session ≡ ok updated) stays (same refl),
        λ i k far. ap (λ t. storage.contents t i k) (sym stays),
      )
  commit_events-ok session revision updated (e ∷ events) s round same h =
      elim (lift-ends (map_err kernel (encode updated)) _ s h) [
        | inr (e, f, g) ↦ absurd (ends-ne g)
        | inl (content, f, g) ↦
            elim (continue-ends (transact_one storage session journal_key revision content s).0 _
              (transact_one storage session journal_key revision content s).1 g) [
                | inr (e, f', g') ↦ absurd (ends-ne g')
                | inl (acknowledged, f', g') ↦
                    let (counted, stays) = ends-ok g' in
                    let commit =
                      transact_one-ok storage session journal_key revision content s
                        (ends-eq _ f' stays) in
                    (
                      sym counted,
                      ap recorded commit.stored
                          ∙ round updated content (map_err-eq-ok kernel (encode updated) f),
                      λ i k far. commit.others i k far,
                    )
              ]
      ]

  -- When `append` answers a number, the journal that was stored was numbered from 1 without a gap
  -- and the submitted events are of runs of the session and had no number; the journal stored now
  -- is the old one followed by them in their order, with the numbers that follow; the answer is the
  -- number of the last event; and no other record has changed. The codec is one that decodes what
  -- it encoded.
  pub append-ok :
      (round : RoundTrips encode decode) (request : JournalAppend) (s : S) {n : ℕ} {s' : S}
      → append storage resource encode decode request s ≡ (ok n, s')
      → (old : List Event) × (journal s request.session ≡ ok old)
        × IsJournal request.session 0 old
        × AllSubmitted request.session request.events
        × (journal s' request.session ≡ ok (old ++ numbered (length old) request.events))
        × (n ≡ length old + length request.events)
        × ElsewhereSame s request.session s'
  unfolding numbered
  append-ok round request s h = elim (append_cases request s h) [
    | inl (e, g) ↦ absurd (ends-ne g)
    | inr (revision, old, updated, l, a, c) ↦
        let (stored, at) = load-journal request.session s l in
        let (j, own, grown, j') = append_checked-ok old request a in
        let (counted, holds, others) =
          commit_events-ok request.session revision updated request.events s round
            (λ none.
              stored
              ∙ ap (λ es. ok es)
                  (sym (append-nil old)
                    ∙ ap (λ es. old ++ numbered (length old) es) (sym none)
                    ∙ grown))
            c in
        (
          old,
          stored,
          j,
          own,
          holds ∙ ap (λ es. ok es) (sym grown),
          counted
              ∙ tail_of-length request.session updated j'
              ∙ ap length (sym grown)
              ∙ length-append old (numbered (length old) request.events)
              ∙ ap (λ m. length old + m) (length-numbered (length old) request.events),
          others,
        )
  ]

  commit_events-domain :
      (session : Text) (revision : ℕ) (updated events : List Event) (s : S) {e : BasicError}
      {s' : S}
      → commit_events storage resource encode decode session revision updated events s
        ≡ (err (domain e), s')
      → SameContents (storage.contents s) (storage.contents s')
  commit_events-domain session revision updated [] s h = absurd (ends-ne (sym h))
  commit_events-domain session revision updated (e ∷ events) s h =
      elim (lift-ends (map_err kernel (encode updated)) _ s h) [
        | inr (e, f, g) ↦ λ i k. ap (λ t. storage.contents t i k) (sym (ap (λ q. q.1) g))
        | inl (content, f, g) ↦
            elim (continue-ends (transact_one storage session journal_key revision content s).0 _
              (transact_one storage session journal_key revision content s).1 g) [
                | inr (e, f', g') ↦
                    transact_one-domain storage session journal_key revision content s
                      (ends-eq _ (f' ∙ ap (λ q. err q) (ends-err g').0) (ends-err g').1)
                | inl (acknowledged, f', g') ↦ absurd (ends-ne (sym g'))
              ]
      ]

  -- When `append` answers a domain error, a conflict with another writer included, the storage
  -- holds what it held.
  pub append-domain :
      (request : JournalAppend) (s : S) {e : BasicError} {s' : S}
      → append storage resource encode decode request s ≡ (err (domain e), s')
      → SameContents (storage.contents s) (storage.contents s')
  append-domain request s h = elim (append_cases request s h) [
    | inl (e, g) ↦ λ i k. ap (λ t. storage.contents t i k) (sym (ap (λ q. q.1) g))
    | inr (revision, old, updated, l, a, c) ↦
        commit_events-domain request.session revision updated request.events s c
  ]
