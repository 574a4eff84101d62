-- ===== src/Basic/Events/Paging.antt =====
-- Readers that follow the cursor of their pages (crates/phenix-plugin-event-journal/src/lib.rs).
use mathlib.Core.List.{append-nil}
use phenix_ai.Prelude.{
  ℕ, zero, suc, ◌+◌, ◌-◌, ◌≤◌, ◌<◌, ◌≡◌, refl, sym, ap, ◌∙◌, true, not, some, List, [], ◌∷◌, ◌++◌,
  ◌==◌, leb, ltb, length, take, drop, u64_max, arith, All, inl, inr, Bool-cases, ltb→lt,
}
use phenix_ai.Prelude.Order.{Text}
use phenix_ai.Contract.Failure.{Result, ok, ◌>>=◌}
use phenix_ai.Compaction.Journal.{Event}
use phenix_ai.Basic.Errors.{BasicError}
use phenix_ai.Basic.Events.{
  JournalQuery, EventPage, page_from, page_between, min, saturating_add, get_elem?, sequence_or,
  to_u64,
}
use phenix_ai.Basic.Events.Numbered.{IsJournal, IsJournal-validate}

get_elem?-number :
    (session : Text) (n i : ℕ) (events : List Event) (default : ℕ)
    → IsJournal session n events
    → i < length events
    → sequence_or default (get_elem? events i) ≡ n + i + 1
get_elem?-number session n i [] default j h = omega (arith, h)
get_elem?-number session n zero (e ∷ events) default j h = j.0.number ∙ omega arith
get_elem?-number session n (suc i) (e ∷ events) default j h =
    get_elem?-number session (n + 1) i events default j.1 (omega (arith, h)) ∙ omega arith

-- Where a page that starts at this offset ends.
abbrev pub end_of : List Event → ℕ → ℕ → ℕ
end_of events offset limit = min (offset + limit) (length events)

-- The page of a committed journal that starts at an offset within it.
abbrev pub page_at : List Event → ℕ → ℕ → EventPage
page_at events offset limit = record {
  events = take limit (drop offset events);
  next = end_of events offset limit;
}

same_end :
    (offset limit n : ℕ)
    → n ≤ u64_max
    → min (saturating_add offset limit) n ≡ min (offset + limit) n
same_end offset limit n h = ground arith

pub take-length-le : (n : ℕ) (events : List Event) → length events ≤ n → take n events ≡ events
take-length-le zero [] h = refl
take-length-le zero (e ∷ events) h = absurd (omega (arith, h))
take-length-le (suc n) [] h = refl
take-length-le (suc n) (e ∷ events) h =
    ap (λ es. e ∷ es) (take-length-le n events (omega (arith, h)))

length-drop : (n : ℕ) (events : List Event) → length (drop n events) ≡ length events - n
length-drop zero events = omega arith
length-drop (suc n) [] = omega arith
length-drop (suc n) (e ∷ events) = length-drop n events ∙ omega arith

positive : (n : ℕ) → 0 < n → not (n == 0) ≡ true
positive n h = ground arith

to_u64-room : (n : ℕ) → n ≤ u64_max → to_u64 n ≡ some n
to_u64-room n h = ground arith

le→leb : (a b : ℕ) → a ≤ b → leb a b ≡ true
le→leb a b h = ground arith

drop-length-le : (n : ℕ) (events : List Event) → length events ≤ n → drop n events ≡ []
drop-length-le zero [] h = refl
drop-length-le zero (e ∷ events) h = absurd (omega (arith, h))
drop-length-le (suc n) [] h = refl
drop-length-le (suc n) (e ∷ events) h = drop-length-le n events (omega (arith, h))

next-end :
    (session : Text) (events : List Event) (offset end : ℕ)
    → IsJournal session 0 events
    → offset ≤ end
    → end ≤ length events
    → (page_between events offset end).next ≡ end
next-end session events offset end j h k = elim (Bool-cases (ltb offset end)) [
  | inl below ↦
      let less = ltb→lt offset end below in
      rw below (
        get_elem?-number session 0 (end - 1) events offset j (omega (arith, less, k))
        ∙ omega (arith, less))
  | inr above ↦ rw above (ground (arith, h))
]

page_between-to :
    (session : Text) (events : List Event) (offset end : ℕ)
    → IsJournal session 0 events
    → offset ≤ end
    → end ≤ length events
    → page_between events offset end
      ≡ record { events = take (end - offset) (drop offset events); next = end }
page_between-to session events offset end j h k =
    ap (λ n. record { events = take (end - offset) (drop offset events); next = n })
      (next-end session events offset end j h k)

take-rest :
    (n m : ℕ) (events : List Event)
    → length events ≤ n
    → length events ≤ m
    → take n events ≡ take m events
take-rest n m events h k = take-length-le n events h ∙ sym (take-length-le m events k)

same_page :
    (events : List Event) (offset limit : ℕ)
    → offset ≤ length events
    → take (end_of events offset limit - offset) (drop offset events)
      ≡ take limit (drop offset events)
same_page events offset limit h = elim (Bool-cases (leb (offset + limit) (length events))) [
  | inl within ↦ rw within (ap (λ n. take n (drop offset events)) (omega arith))
  | inr past ↦
      let over : length events < offset + limit = ground (arith, past) in
      rw past (
        take-rest (length events - offset) limit (drop offset events)
          (omega (arith, length-drop offset events))
          (omega (arith, length-drop offset events, over)))
]

page_between-at :
    (session : Text) (events : List Event) (offset limit : ℕ)
    → IsJournal session 0 events
    → offset ≤ length events
    → page_between events offset (end_of events offset limit) ≡ page_at events offset limit
page_between-at session events offset limit j h =
    page_between-to session events offset (end_of events offset limit) j (ground (arith, h))
      (ground (arith, h))
    ∙ ap (λ es. record { events = es; next = end_of events offset limit })
        (same_page events offset limit h)

-- On a committed journal, every query with a positive limit and an offset within the journal gets
-- the next `limit` events after that offset, fewer only at the tail, and the offset where they end.
pub page_from-at :
    (events : List Event) (query : JournalQuery)
    → IsJournal query.session 0 events
    → length events ≤ u64_max
    → query.offset ≤ length events
    → 0 < query.limit
    → page_from events query ≡ ok (page_at events query.offset query.limit)
unfolding page_from
page_from-at events query j room h l = rw (
  IsJournal-validate 0 events query.session j (omega (arith, room)),
  positive query.limit l,
  to_u64-room (length events) room,
  le→leb query.offset (length events) h,
  same_end query.offset query.limit (length events) room,
  page_between-at query.session events query.offset query.limit j h,
)

-- A reader that asks for pages of the given limits, each from the offset that the page before it
-- answered.
abbrev pub replay : Text → List Event → ℕ → List ℕ → Result BasicError (List Event)
replay session events offset [] = ok []
replay session events offset (limit ∷ limits) = do
  page ← page_from events (record { session = session; offset = offset; limit = limit })
  rest ← replay session events page.next limits
  ok (page.events ++ rest)

suc_add : (n m : ℕ) → suc n + m ≡ suc (n + m)
suc_add n m = omega arith

drop_add : (n m : ℕ) (events : List Event) → drop (n + m) events ≡ drop m (drop n events)
drop_add zero m events = ap (λ i. drop i events) (omega arith)
drop_add (suc n) m [] =
    ap (λ i. drop i []) (suc_add n m)
    ∙ drop-length-le (suc (n + m)) [] (omega arith)
    ∙ sym (drop-length-le m [] (omega arith))
drop_add (suc n) m (e ∷ events) = ap (λ i. drop i (e ∷ events)) (suc_add n m) ∙ drop_add n m events

take-drop : (n : ℕ) (events : List Event) → take n events ++ drop n events ≡ events
take-drop zero events = refl
take-drop (suc n) [] = refl
take-drop (suc n) (e ∷ events) = ap (λ es. e ∷ es) (take-drop n events)

take-drop-rest :
    (events : List Event) (offset limit : ℕ)
    → offset ≤ length events
    → take limit (drop offset events) ++ drop (end_of events offset limit) events
      ≡ drop offset events
take-drop-rest events offset limit h = elim (Bool-cases (leb (offset + limit) (length events))) [
  | inl within ↦ rw within (
      ap (λ es. take limit (drop offset events) ++ es) (drop_add offset limit events)
      ∙ take-drop limit (drop offset events))
  | inr past ↦
      let over : length events < offset + limit = ground (arith, past) in
      rw
        (
          past,
          drop-length-le (length events) events (omega arith),
          take-length-le limit (drop offset events)
              (omega (arith, length-drop offset events, over)),
        )
        (append-nil (drop offset events))
]

next_enough :
    (offset limit n k : ℕ) → n ≤ offset + suc k → 0 < limit → n ≤ min (offset + limit) n + k
next_enough offset limit n k h l = ground (arith, h, l)

-- A reader that starts at an offset within a committed journal and asks for at least as many pages
-- as events are left, with whatever positive limits, is never refused and sees every event after
-- its offset exactly once, in order.
pub replay-all :
    (session : Text) (events : List Event) (offset : ℕ) (limits : List ℕ)
    → IsJournal session 0 events
    → length events ≤ u64_max
    → offset ≤ length events
    → All (λ limit. 0 < limit) limits
    → length events ≤ offset + length limits
    → replay session events offset limits ≡ ok (drop offset events)
replay-all session events offset [] j room h l enough =
    ap ok (sym (drop-length-le offset events (omega (arith, enough))))
replay-all session events offset (limit ∷ limits) j room h l enough = rw (
  page_from-at events (record { session = session; offset = offset; limit = limit }) j room h l.0,
  replay-all session events (end_of events offset limit) limits j room (ground (arith, h)) l.1
      (next_enough offset limit (length events) (length limits) enough l.0),
  take-drop-rest events offset limit h,
)
