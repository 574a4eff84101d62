-- ===== src/Basic/EventJournal/ReadBack.antt =====
-- Readers see what was appended (crates/phenix-plugin-event-journal/src/lib.rs).
use phenix_ai.Prelude.{
  ℕ, ◌+◌, ◌≤◌, ◌<◌, ◌≡◌, refl, sym, ap, subst, ◌∙◌, Option, List, [], ◌∷◌, ◌++◌, length,
  length-append, drop, u64_max, arith,
}
use phenix_ai.Prelude.Order.{Text}
use phenix_ai.Contract.Failure.{Failure, Result, ok}
use phenix_ai.Compaction.Journal.{Event}
use phenix_ai.Basic.Errors.{check_session}
use phenix_ai.Basic.Storage.{Storage, RoundTrips}
use phenix_ai.Basic.Events.{JournalAppend, min}
use phenix_ai.Basic.Events.Numbered.{
  IsJournal, numbered, numbered-IsJournal, IsJournal-append, length-numbered,
}
use phenix_ai.Basic.Events.Paging.{page_from-at, page_at, take-length-le}
use phenix_ai.Basic.EventJournal.{append, read_page}
use phenix_ai.Basic.EventJournal.Append.{append-ok}
use phenix_ai.Basic.EventJournal.Answered.{load-done}

drop_old : (old new : List Event) → drop (length old) (old ++ new) ≡ new
drop_old [] new = refl
drop_old (e ∷ old) new = drop_old old new

capped : (a b limit : ℕ) → b ≤ limit → min (a + limit) (a + b) ≡ a + b
capped a b limit h = ground (arith, h)

from_zero : (n : ℕ) → n ≡ 0 + n
from_zero n = omega arith

-- The page behind the old events holds all the new ones.
page_at-new :
    (old new : List Event) (limit : ℕ)
    → length new ≤ limit
    → page_at (old ++ new) (length old) limit
      ≡ record { events = new; next = length old + length new }
page_at-new old new limit h =
    rw
      (
        drop_old old new,
        take-length-le limit new h,
        length-append old new,
        capped (length old) (length new) limit h,
      )
      refl

module _ {S : Type 0} (storage : Storage S) (resource : Result Failure (Option Text))
    (encode : List Event → Result Failure Text) (decode : Text → Result Failure (List Event)) where
  -- What a successful append has added is exactly what a reader at the old tail gets next: a page
  -- from the last number before the append, with a positive limit that takes all the submitted
  -- events, holds them in order with their new numbers and ends at the number that the append
  -- answered; reading changes nothing. The host and the provider authorize the session, the numbers
  -- of 64 bits last, and the codec decodes what it encoded.
  pub append-read_page :
      (round : RoundTrips encode decode) (request : JournalAppend) (limit : ℕ) (s : S) {n : ℕ}
      {s' : S}
      → check_session resource request.session ≡ ok tt
      → storage.Serves request.session
      → 0 < limit
      → length request.events ≤ limit
      → n ≤ u64_max
      → append storage resource encode decode request s ≡ (ok n, s')
      → (old : List Event) × (n ≡ length old + length request.events)
        × (read_page storage resource encode decode
              (record { session = request.session; offset = length old; limit = limit })
              s'
            ≡ (ok (record { events = numbered (length old) request.events; next = n }), s'))
  unfolding read_page
  append-read_page round request limit s {n = n} {s' = s'} allowed served positive enough room h =
      let (old, before, j, own, after, counted, others) =
        append-ok storage resource encode decode round request s h in
      let new = numbered (length old) request.events in
      let all_new = IsJournal-append request.session 0 old new j (
        subst (λ i. IsJournal request.session i new) (from_zero (length old))
          (numbered-IsJournal request.session (length old) request.events own)) in
      let same = length-numbered (length old) request.events in
      let page =
        page_from-at (old ++ new)
          (record { session = request.session; offset = length old; limit = limit }) all_new
          (omega (arith, length-append old new, same, counted, room))
          (omega (arith, length-append old new)) positive in
      let shown = page_at-new old new limit (omega (arith, same, enough)) in
      (
        old,
        counted,
        rw (allowed, load-done storage resource encode decode request.session s' served after, page)
            (ap (λ p. (ok p, s'))
              (shown
                ∙ ap (λ m. record { events = new; next = m })
                    (ap (λ m. length old + m) same ∙ sym counted))),
      )
