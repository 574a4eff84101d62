-- ===== src/Basic/EventJournal/Observer.antt =====
-- The offsets that observers save (crates/phenix-plugin-event-journal/src/lib.rs).
use phenix_ai.Prelude.{
  ℕ, ◌+◌, ◌≤◌, ◌≡◌, ◌≢◌, refl, sym, ap, subst, ◌∙◌, ◌⊎◌, inl, inr, Bool, true, false, not, ◌&&◌,
  Option, List, ◌++◌, arith, ltb, leb, ◌==◌, ==_iff, checked_add, checked_add-eq-some,
}
use phenix_ai.Prelude.Order.{Text, text_ord, =?_refl, ascii}
use phenix_ai.Contract.Failure.{
  Failure, Result, ok, guard, ok_or, >>=-eq-ok, guard-eq-ok, ok_or-eq-ok, ok_injective,
}
use phenix_ai.Contract.Schema.{identifier}
use phenix_ai.Compaction.Journal.{Event}
use phenix_ai.Basic.Errors.{
  CallError, domain, kernel, map_err, map_err-eq-ok, check_session, error, conflict,
}
use phenix_ai.Basic.Call.{lift-ends, continue-ends, ends-ne, ends-eq, ends-ok}
use phenix_ai.Basic.Storage.{Storage, IsCommit, RoundTrips, transact_one}
use phenix_ai.Basic.Storage.Commit.{edit_of, transact_one-ok}
use phenix_ai.Basic.Events.{validate}
use phenix_ai.Basic.EventJournal.{
  ObserverRequest, ObserverCheckpoint, journal_key, observer_key, is_saved, load, load_observer,
  saved_checkpoint, checkpoint_observer, advance, save, tail_of,
}
use phenix_ai.Basic.EventJournal.Append.{load-journal, recorded}
use phenix_ai.Basic.EventJournal.Answered.{load-done}

abbrev pub request_of : ObserverCheckpoint → ObserverRequest
request_of c = record { session = c.session; observer = c.observer }

between : (a b c : ℕ) → (not (ltb b a) && leb b c) ≡ true → (a ≤ b) × (b ≤ c)
between a b c h = ground arith

observer_key-ne :
    (observer : Text) {key : Text} → observer_key observer ≡ ok key → journal_key ≢ key
unfolding observer_key
observer_key-ne observer h k =
    let g = guard-eq-ok (identifier observer) _ (ok (ascii "event-observer.v1." ++ observer)) h in
    differs (k ∙ sym (ok_injective g.1))
  where
    differs : journal_key ≢ ascii "event-observer.v1." ++ observer
    differs h = cc

guard-true : (b : Bool) (e : CallError) {u : Unit {0}} → guard b e ≡ ok u → b ≡ true
guard-true true e h = refl
guard-true false e h = cc

module _ {S : Type 0} (storage : Storage S) (resource : Result Failure (Option Text))
    (encode : List Event → Result Failure Text) (decode : Text → Result Failure (List Event))
    (encode_observer : ObserverCheckpoint → Result Failure Text)
    (decode_observer : Text → Result Failure ObserverCheckpoint) where
  -- The saved checkpoint and the state when the offset has moved: one commit of it.
  pub record Advances (s : S) (current saved : ObserverCheckpoint) (s' : S) : Type 0 where
    pub key : Text
    pub content : Text
    pub keyed : observer_key saved.observer ≡ ok key
    pub encoded : encode_observer saved ≡ ok content
    pub next : saved.revision ≡ current.revision + 1
    pub commit :
        IsCommit
          (storage.contents s)
          saved.session
          (edit_of key current.revision content)
          (storage.contents s')

  advance-ok :
      (request current : ObserverCheckpoint) (s : S) {saved : ObserverCheckpoint} {s' : S}
      → advance storage resource encode decode encode_observer decode_observer request current s
        ≡ (ok saved, s')
      → (revision : ℕ) × (record request { revision = revision } ≡ saved)
        × Advances s current saved s'
  advance-ok request current s {s' = s'} h =
      elim (lift-ends
        (ok_or (checked_add current.revision 1)
          (domain (error conflict "observer revision overflow")))
        _ s h) [
          | inr (e, f, g) ↦ absurd (ends-ne g)
          | inl (revision, f, g) ↦
              let saved : ObserverCheckpoint = record request { revision = revision } in
              elim (lift-ends (map_err kernel (encode_observer saved)) _ s g) [
                | inr (e, f1, g1) ↦ absurd (ends-ne g1)
                | inl (content, f1, g1) ↦ elim (lift-ends (observer_key request.observer) _ s g1) [
                  | inr (e, f2, g2) ↦ absurd (ends-ne g2)
                  | inl (key, f2, g2) ↦
                      elim (continue-ends
                        (transact_one storage request.session key current.revision content s).0 _
                        (transact_one storage request.session key current.revision content s).1
                        g2) [
                          | inr (e, f3, g3) ↦ absurd (ends-ne g3)
                          | inl (n, f3, g3) ↦ (
                            revision,
                            (ends-ok g3).0,
                            subst (λ c. Advances s current c s') (ends-ok g3).0
                                (record {
                                  key = key;
                                  content = content;
                                  keyed = f2;
                                  encoded = map_err-eq-ok kernel (encode_observer saved) f1;
                                  next = checked_add-eq-some current.revision 1 (ok_or-eq-ok _ _ f);
                                  commit =
                                      transact_one-ok storage request.session key current.revision
                                        content s (ends-eq _ f3 (ends-ok g3).1);
                                }),
                          )
                        ]
                ]
              ]
        ]

  last_step :
      (request current : ObserverCheckpoint) (s : S) (b : Bool) {saved : ObserverCheckpoint}
      {s' : S}
      → (request.offset == current.offset) ≡ b
      → save storage resource encode decode encode_observer decode_observer b request current s
        ≡ (ok saved, s')
      → ((request.offset ≡ current.offset) × (current ≡ saved) × (s ≡ s'))
        ⊎ ((revision : ℕ) × (record request { revision = revision } ≡ saved)
            × Advances s current saved s')
  last_step request current s true e h = inl ((==_iff _ _).0 e, (ends-ok h).0, (ends-ok h).1)
  last_step request current s false e h = inr (advance-ok request current s h)

  -- What a checkpoint that is answered has found and left.
  pub checkpoint_cases :
      (request : ObserverCheckpoint) (s : S) {saved : ObserverCheckpoint} {s' : S}
      → checkpoint_observer storage resource encode decode encode_observer decode_observer request s
        ≡ (ok saved, s')
      → (current : ObserverCheckpoint) × (tail : ℕ) × (load_observer storage resource encode decode
            encode_observer decode_observer
            (request_of request)
            s
          ≡ ok (current, tail))
        × (request.revision ≡ current.revision)
        × (current.offset ≤ request.offset)
        × (request.offset ≤ tail)
        × (((request.offset ≡ current.offset) × (current ≡ saved) × (s ≡ s'))
            ⊎ ((revision : ℕ) × (record request { revision = revision } ≡ saved)
                × Advances s current saved s'))
  unfolding checkpoint_observer
  checkpoint_cases request s h = elim (lift-ends (check_session resource request.session) _ s h) [
    | inr (e, f, g) ↦ absurd (ends-ne g)
    | inl (u, f, g) ↦
        elim (continue-ends
          (load_observer storage resource encode decode encode_observer decode_observer
            (request_of request) s)
          _ s g) [
            | inr (e, f1, g1) ↦ absurd (ends-ne g1)
            | inl (current, f1, g1) ↦
                elim (lift-ends (guard (request.revision == current.0.revision) _) _ s g1) [
                  | inr (e, f2, g2) ↦ absurd (ends-ne g2)
                  | inl (u2, f2, g2) ↦
                      elim (lift-ends
                        (guard
                          (not (ltb request.offset current.0.offset)
                            && leb request.offset current.1)
                          _)
                        _ s g2) [
                          | inr (e, f3, g3) ↦ absurd (ends-ne g3)
                          | inl (u3, f3, g3) ↦
                              let range =
                                between current.0.offset request.offset current.1
                                  (guard-true _ _ f3) in
                              (
                                current.0,
                                current.1,
                                f1,
                                (==_iff _ _).0 (guard-true _ _ f2),
                                range.0,
                                range.1,
                                last_step request current.0 s (request.offset == current.0.offset)
                                    refl g3,
                              )
                        ]
                ]
          ]
  ]

  -- What was found of an observer: its journal, and its key.
  load_observer-found :
      (request : ObserverRequest) (s : S) {current : ObserverCheckpoint} {tail : ℕ}
      → load_observer storage resource encode decode encode_observer decode_observer request s
        ≡ ok (current, tail)
      → (revision : ℕ) × (events : List Event) × (load storage resource encode decode
            request.session s
          ≡ ok (revision, events))
        × (validate events request.session ≡ ok tt)
        × (tail_of events ≡ tail)
  unfolding load_observer
  load_observer-found request s h =
      let k = >>=-eq-ok (observer_key request.observer) _ h in
      let l = >>=-eq-ok (load storage resource encode decode request.session s) _ k.2 in
      let v = >>=-eq-ok (map_err domain (validate l.0.1 request.session)) _ l.2 in
      let c =
        >>=-eq-ok
          (saved_checkpoint storage resource encode decode encode_observer decode_observer request
            (tail_of l.0.1) (storage.read s (record { session = request.session; key = k.0 })))
          _ v.2 in
      (l.0.0, l.0.1, l.1, map_err-eq-ok domain _ v.1, ap (λ p. p.1) (ok_injective c.2))

  accepted :
      (saved : ObserverCheckpoint) (n tail : ℕ)
      → saved.revision ≡ n + 1
      → saved.offset ≤ tail
      → is_saved (request_of saved) (n + 1) tail saved ≡ true
  accepted saved n tail h k =
      rw (=?_refl saved.session, =?_refl saved.observer, h) (ground (arith, k))

  -- A saved checkpoint is loaded again.
  loads_back :
      (round : RoundTrips encode_observer decode_observer) (current saved : ObserverCheckpoint)
      (s s' : S) {revision : ℕ} {events : List Event}
      → storage.Serves saved.session
      → Advances s current saved s'
      → load storage resource encode decode saved.session s ≡ ok (revision, events)
      → validate events saved.session ≡ ok tt
      → saved.offset ≤ tail_of events
      → load_observer storage resource encode decode encode_observer decode_observer
          (request_of saved)
          s'
        ≡ ok (saved, tail_of events)
  unfolding load_observer
  loads_back round current saved s s' {events = events} served moved loaded valid within =
      let kept =
        moved.commit.others saved.session journal_key
          (inr (observer_key-ne saved.observer moved.keyed)) in
      let stays =
        ap (recorded storage resource encode decode) kept
        ∙ (load-journal storage resource encode decode saved.session s loaded).0 in
      let back =
        storage.read_stored s' (record { session = saved.session; key = moved.key }) served
          moved.commit.stored in
      rw
        (
          moved.keyed,
          load-done storage resource encode decode saved.session s' served stays,
          valid,
          back,
          round saved moved.content moved.encoded,
          accepted saved current.revision (tail_of events) moved.next within,
        )
        refl

  -- A checkpoint of an observer that is answered is ahead of or at the one it replaces, is within
  -- the journal, and is what the observer loads afterwards, with the journal's tail unchanged. The
  -- codecs decode what they encoded, and the provider authorizes the session.
  pub checkpoint_observer-load_observer :
      (round : RoundTrips encode_observer decode_observer) (request : ObserverCheckpoint) (s : S)
      {saved : ObserverCheckpoint} {s' : S}
      → storage.Serves request.session
      → checkpoint_observer storage resource encode decode encode_observer decode_observer request s
        ≡ (ok saved, s')
      → (current : ObserverCheckpoint) × (tail : ℕ) × (load_observer storage resource encode decode
            encode_observer decode_observer
            (request_of request)
            s
          ≡ ok (current, tail))
        × (current.offset ≤ saved.offset)
        × (saved.offset ≤ tail)
        × (saved.offset ≡ request.offset)
        × (load_observer storage resource encode decode encode_observer decode_observer
              (request_of request)
              s'
            ≡ ok (saved, tail))
  checkpoint_observer-load_observer round request s {saved = saved} {s' = s'} served h =
      let (current, tail, found, same, low, high, step) = checkpoint_cases request s h in
      elim step [
        | inl (at, kept, stays) ↦ (
          current,
          tail,
          found,
          subst (λ c. current.offset ≤ c.offset) kept (omega arith),
          subst (λ c. c.offset ≤ tail) kept (omega (arith, at, high)),
          ap (λ c. c.offset) (sym kept) ∙ sym at,
          subst
              (λ t.
                load_observer storage resource encode decode encode_observer decode_observer
                  (request_of request) t
                ≡ ok (saved, tail))
              stays (found ∙ ap (λ c. ok (c, tail)) kept),
        )
        | inr (revision, is, moved) ↦
            let (n, events, loaded, valid, end) =
              load_observer-found (request_of request) s found in
            let new : ObserverCheckpoint = record request { revision = revision } in
            let back =
              loads_back round current new s s' served
                (subst (λ c. Advances s current c s') (sym is) moved) loaded valid
                (subst (λ m. request.offset ≤ m) (sym end) high) in
            (
              current,
              tail,
              found,
              subst (λ c. current.offset ≤ c.offset) is low,
              subst (λ c. c.offset ≤ tail) is high,
              ap (λ c. c.offset) (sym is),
              back ∙ ap (λ c. ok (c, tail_of events)) is ∙ ap (λ m. ok (saved, m)) end,
            )
      ]
