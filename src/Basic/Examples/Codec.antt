-- ===== src/Basic/Examples/Codec.antt =====
-- A codec of events and of observers' checkpoints, for the tests.
use phenix_ai.Prelude.{
  ℕ, zero, suc, ◌≡◌, refl, sym, ap, ◌∙◌, List, [], ◌∷◌, ◌++◌, length, take, drop,
}
use phenix_ai.Prelude.Order.{Text}
use phenix_ai.Contract.Failure.{Failure, Result, ok, ok_injective}
use phenix_ai.Compaction.Journal.{
  Event, EventKind, prompt_accepted, model_started, text_delta, assistant_reply, tool_started,
  tool_finished, answer, failed, cancelled,
}
use phenix_ai.Basic.Storage.{RoundTrips}
use phenix_ai.Basic.EventJournal.{ObserverCheckpoint}

unfoldable pub put : Text → Text → Text
put t rest = length t ∷ t ++ rest

abbrev pub got : Text → Text × Text
got [] = ([], [])
got (n ∷ xs) = (take n xs, drop n xs)

pub take-append : (t rest : Text) → take (length t) (t ++ rest) ≡ t
take-append [] rest = refl
take-append (c ∷ t) rest = ap (λ s. c ∷ s) (take-append t rest)

pub drop-append : (t rest : Text) → drop (length t) (t ++ rest) ≡ rest
drop-append [] rest = refl
drop-append (c ∷ t) rest = drop-append t rest

got-put : (t rest : Text) → got (put t rest) ≡ (t, rest)
unfolding put
got-put t rest = rw (take-append t rest, drop-append t rest) refl

abbrev kind_number : EventKind → ℕ
kind_number prompt_accepted = 0
kind_number model_started = 1
kind_number text_delta = 2
kind_number assistant_reply = 3
kind_number tool_started = 4
kind_number tool_finished = 5
kind_number answer = 6
kind_number failed = 7
kind_number cancelled = 8

abbrev kind_at : List EventKind → ℕ → EventKind
kind_at [] n = cancelled
kind_at (k ∷ ks) zero = k
kind_at (k ∷ ks) (suc n) = kind_at ks n

abbrev kind_of : ℕ → EventKind
kind_of = kind_at (
    prompt_accepted ∷ model_started ∷ text_delta ∷ assistant_reply ∷ tool_started ∷ tool_finished
    ∷ answer ∷ failed ∷ [])

kind_of-kind_number : (k : EventKind) → kind_of (kind_number k) ≡ k
kind_of-kind_number prompt_accepted = refl
kind_of-kind_number model_started = refl
kind_of-kind_number text_delta = refl
kind_of-kind_number assistant_reply = refl
kind_of-kind_number tool_started = refl
kind_of-kind_number tool_finished = refl
kind_of-kind_number answer = refl
kind_of-kind_number failed = refl
kind_of-kind_number cancelled = refl

unfoldable pub put_event : Event → Text → Text
unfolding put
put_event e rest =
    e.sequence
    ∷ kind_number e.kind
    ∷ put e.session (put e.run (put e.call_id (put e.text (put e.data_bytes rest))))

abbrev fields : ℕ → ℕ → Text → Event × Text
fields n k xs =
    let (session, xs1) = got xs in
    let (run, xs2) = got xs1 in
    let (call_id, xs3) = got xs2 in
    let (text, xs4) = got xs3 in
    let (content, rest) = got xs4 in
    (
      record {
        sequence = n;
        session = session;
        run = run;
        kind = kind_of k;
        call_id = call_id;
        text = text;
        data_bytes = content;
      },
      rest,
    )

abbrev got_event : Text → Event × Text
got_event (n ∷ k ∷ xs) = fields n k xs
got_event (n ∷ []) = fields n 0 []
got_event [] = fields 0 0 []

got_event-put_event : (e : Event) (rest : Text) → got_event (put_event e rest) ≡ (e, rest)
unfolding put_event
got_event-put_event e rest =
    rw
      (
        take-append e.session,
        drop-append e.session,
        take-append e.run,
        drop-append e.run,
        take-append e.call_id,
        drop-append e.call_id,
        take-append e.text,
        drop-append e.text,
        take-append e.data_bytes,
        drop-append e.data_bytes,
        kind_of-kind_number e.kind,
      )
      refl

put_events : List Event → Text
put_events [] = []
put_events (e ∷ events) = put_event e (put_events events)

got_events : ℕ → Text → List Event
got_events zero xs = []
got_events (suc n) xs = let (e, rest) = got_event xs in e ∷ got_events n rest

got_events-put_events :
    (events : List Event) → got_events (length events) (put_events events) ≡ events
unfolding put_events got_events
got_events-put_events [] = refl
got_events-put_events (e ∷ events) =
    rw (got_event-put_event e (put_events events), got_events-put_events events) refl

unfoldable pub encode : List Event → Result Failure Text
unfolding put_events
encode events = ok (length events ∷ put_events events)

unfoldable pub decode : Text → Result Failure (List Event)
unfolding got_events
decode [] = ok []
decode (n ∷ xs) = ok (got_events n xs)

unfoldable pub encode_observer : ObserverCheckpoint → Result Failure Text
unfolding put
encode_observer c = ok (c.offset ∷ c.revision ∷ put c.session (put c.observer []))

abbrev checkpoint_from : ℕ → ℕ → Text → ObserverCheckpoint
checkpoint_from n m xs =
    let (session, rest) = got xs in
    let (observer, end) = got rest in
    record { session = session; observer = observer; offset = n; revision = m }

unfoldable pub decode_observer : Text → Result Failure ObserverCheckpoint
decode_observer (n ∷ m ∷ xs) = ok (checkpoint_from n m xs)
decode_observer (n ∷ []) = ok (checkpoint_from n 0 [])
decode_observer [] = ok (checkpoint_from 0 0 [])

pub codec-RoundTrips : RoundTrips encode decode
unfolding encode decode
codec-RoundTrips events content h =
    ap decode (sym (ok_injective h)) ∙ ap (λ es. ok es) (got_events-put_events events)

pub observer_codec-RoundTrips : RoundTrips encode_observer decode_observer
unfolding encode_observer decode_observer
observer_codec-RoundTrips c content h =
    ap decode_observer (sym (ok_injective h))
    ∙ rw (take-append c.session, drop-append c.session, take-append c.observer []) refl
