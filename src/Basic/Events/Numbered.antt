-- ===== src/Basic/Events/Numbered.antt =====
-- Journals numbered from 1 without a gap (crates/phenix-plugin-event-journal/src/lib.rs).
use mathlib.Core.List.{append-nil, append_assoc}
use phenix_ai.Prelude.{
  ℕ, suc, ◌+◌, ◌≤◌, ◌≡◌, refl, sym, ap, subst, ◌∙◌, Bool, true, false, not, ◌&&◌, some, List, [],
  ◌∷◌, ◌++◌, ◌==◌, ==_iff, length, length-append, u64_max, arith, All, checked_add,
}
use phenix_ai.Prelude.Order.{Text, text_ord, ◌=?◌, =?_iff}
use phenix_ai.Contract.Failure.{ok, ok_or, >>=-eq-ok, guard-eq-ok, ok_or-eq-ok, ok_injective}
use phenix_ai.Compaction.Journal.{Event}
use phenix_ai.Basic.Events.{
  JournalAppend, storage_error, next_number, is_own, validate_from, validate, append_events,
  append_checked,
}

-- An event of a run of this session, with this number.
pub record IsNumbered (session : Text) (n : ℕ) (e : Event) : Type 0 where
  pub number : e.sequence ≡ n
  pub own : e.session ≡ session
  pub has_run : (length e.run == 0) ≡ false

-- The events after the first `n` of a journal.
abbrev pub IsJournal : Text → ℕ → List Event → Type 0
IsJournal session n [] = Unit
IsJournal session n (e ∷ events) = IsNumbered session (n + 1) e × IsJournal session (n + 1) events

-- The submitted events with the numbers that follow `n`.
unfoldable pub numbered : ℕ → List Event → List Event
numbered n [] = []
numbered n (e ∷ events) = record e { sequence = n + 1 } ∷ numbered (n + 1) events

next_number-eq-some : (n : ℕ) {m : ℕ} → next_number n ≡ some m → m ≡ n + 1
unfolding checked_add
next_number-eq-some n h = ground arith

pub next_number-room : (n : ℕ) → n + 1 ≤ u64_max → next_number n ≡ some (n + 1)
unfolding checked_add
next_number-room n h = ground arith

three : (a b c : Bool) → (a && b && not c) ≡ true → (a ≡ true) × (b ≡ true) × (c ≡ false)
three true true false h = (refl, refl, refl)
three true true true h = cc
three true false c h = cc
three false b c h = cc

is_own-IsNumbered :
    (n : ℕ) (session : Text) (e : Event) → is_own n session e ≡ true → IsNumbered session n e
is_own-IsNumbered n session e h =
    let (a, b, c) = three (e.sequence == n) (e.session =? session) (length e.run == 0) h in
    record { number = (==_iff _ _).0 a; own = (=?_iff _ _).0 b; has_run = c }

own : (n : ℕ) (session : Text) (e : Event) → IsNumbered session n e → is_own n session e ≡ true
own n session e h =
    rw ((==_iff e.sequence n).1 h.number, (=?_iff e.session session).1 h.own, h.has_run)

pub validate-IsJournal :
    (n : ℕ) (events : List Event) (session : Text)
    → validate_from n events session ≡ ok tt
    → IsJournal session n events
unfolding validate_from
validate-IsJournal n [] session h = tt
validate-IsJournal n (e ∷ events) session h =
    let k = >>=-eq-ok (ok_or (next_number n) storage_error) _ h in
    let l = guard-eq-ok _ _ _ k.2 in
    let m = next_number-eq-some n (ok_or-eq-ok _ _ k.1) in
    (
      is_own-IsNumbered (n + 1) session e (subst (λ i. is_own i session e ≡ true) m l.0),
      validate-IsJournal (n + 1) events session l.1,
    )

-- A numbered journal that the numbers of 64 bits reach is valid.
pub IsJournal-validate :
    (n : ℕ) (events : List Event) (session : Text)
    → IsJournal session n events
    → n + length events ≤ u64_max
    → validate_from n events session ≡ ok tt
unfolding validate_from
IsJournal-validate n [] session j room = refl
IsJournal-validate n (e ∷ events) session j room = rw (
  next_number-room n (omega (arith, room)),
  own (n + 1) session e j.0,
  IsJournal-validate (n + 1) events session j.1 (omega (arith, room)),
)

pub length-numbered : (n : ℕ) (events : List Event) → length (numbered n events) ≡ length events
unfolding numbered
length-numbered n [] = refl
length-numbered n (e ∷ events) = ap suc (length-numbered (n + 1) events)

pub IsJournal-append :
    (session : Text) (n : ℕ) (xs ys : List Event)
    → IsJournal session n xs
    → IsJournal session (n + length xs) ys
    → IsJournal session n (xs ++ ys)
IsJournal-append session n [] ys j k = subst (λ i. IsJournal session i ys) (omega arith) k
IsJournal-append session n (x ∷ xs) ys j k = (
  j.0,
  IsJournal-append session (n + 1) xs ys j.1 (subst (λ i. IsJournal session i ys) (omega arith) k),
)

-- A submitted event: it has no number yet, and is of a run of the session.
abbrev pub AllSubmitted : Text → List Event → Type 0
AllSubmitted session = All (IsNumbered session 0)

pub numbered-IsJournal :
    (session : Text) (n : ℕ) (events : List Event)
    → AllSubmitted session events
    → IsJournal session n (numbered n events)
unfolding numbered
numbered-IsJournal session n [] a = tt
numbered-IsJournal session n (e ∷ events) a = (
  record { number = refl; own = a.0.own; has_run = a.0.has_run },
  numbered-IsJournal session (n + 1) events a.1,
)

append_events-numbered :
    (session : Text) (events updated : List Event) {all : List Event}
    → append_events session events updated ≡ ok all
    → (updated ++ numbered (length updated) events ≡ all) × AllSubmitted session events
unfolding append_events numbered
append_events-numbered session [] updated h = (append-nil updated ∙ ok_injective h, tt)
append_events-numbered session (e ∷ events) updated h =
    let k = guard-eq-ok _ _ _ h in
    let l = >>=-eq-ok (ok_or (next_number (length updated)) _) _ k.1 in
    let m = next_number-eq-some (length updated) (ok_or-eq-ok _ _ l.1) in
    let e' : Event = record e { sequence = l.0 } in
    let rest = append_events-numbered session events (updated ++ e' ∷ []) l.2 in
    (
      ap (λ i. updated ++ record e { sequence = i } ∷ numbered i events) (sym m)
          ∙ sym (append_assoc updated (e' ∷ []) (numbered l.0 events))
          ∙ ap (λ i. (updated ++ e' ∷ []) ++ numbered i events)
              (m ∙ sym (length-append updated (e' ∷ [])))
          ∙ rest.0,
      (is_own-IsNumbered 0 session e k.0, rest.1),
    )

append_events-done :
    (session : Text) (events updated : List Event)
    → AllSubmitted session events
    → length updated + length events ≤ u64_max
    → (all : List Event) × (append_events session events updated ≡ ok all)
unfolding append_events
append_events-done session [] updated a room = (updated, refl)
append_events-done session (e ∷ events) updated a room =
    let e' : Event = record e { sequence = length updated + 1 } in
    let rest =
      append_events-done session events (updated ++ e' ∷ []) a.1
        (omega (arith, room, length-append updated (e' ∷ []))) in
    (
      rest.0,
      rw (own 0 session e a.0, next_number-room (length updated) (omega (arith, room))) rest.1,
    )

-- `append_checked` succeeds only on a journal of the session that is numbered from 1 without a gap
-- and on events of its runs that have no number yet; it keeps every earlier event, adds the new
-- ones in their order with the numbers that follow, and the result is such a journal again.
pub append_checked-ok :
    (existing : List Event) (request : JournalAppend) {all : List Event}
    → append_checked existing request ≡ ok all
    → IsJournal request.session 0 existing
      × AllSubmitted request.session request.events
      × (existing ++ numbered (length existing) request.events ≡ all)
      × IsJournal request.session 0 all
unfolding append_checked
append_checked-ok existing request h =
    let k = >>=-eq-ok (validate existing request.session) _ h in
    let j = validate-IsJournal 0 existing request.session k.1 in
    let (grown, own) = append_events-numbered request.session request.events existing k.2 in
    (
      j,
      own,
      grown,
      subst (IsJournal request.session 0) grown (
          IsJournal-append request.session 0 existing _ j (
            subst (λ i. IsJournal request.session i (numbered (length existing) request.events))
              (omega arith)
              (numbered-IsJournal request.session (length existing) request.events own))),
    )

-- As long as the numbers of 64 bits last, events without a number are accepted behind a numbered
-- journal.
pub append_checked-done :
    (existing : List Event) (request : JournalAppend)
    → IsJournal request.session 0 existing
    → AllSubmitted request.session request.events
    → length existing + length request.events ≤ u64_max
    → (all : List Event) × (append_checked existing request ≡ ok all)
unfolding append_checked
append_checked-done existing request j a room =
    let done = append_events-done request.session request.events existing a room in
    (done.0, rw (IsJournal-validate 0 existing request.session j (omega (arith, room))) done.1)
