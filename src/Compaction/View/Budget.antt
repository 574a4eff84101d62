-- ===== src/Compaction/View/Budget.antt =====
-- What a compacted view shows, and what it costs.
use phenix_ai.Prelude.{
  ℕ, ◌+◌, ◌≤◌, ◌≡◌, refl, sym, ap, subst, ◌∙◌, Bool, true, false, ◌||◌, some, List, [], ◌∷◌, ◌++◌,
  map, leb, arith, if◌then◌else◌, length, any, retain, checked_add, checked_add-eq-some,
  Option-cases, inl, inr,
}
use mathlib.Core.List.{append-nil, append_assoc}
use phenix_ai.Prelude.Order.{text_ord}
use phenix_ai.Contract.Failure.{
  Result, ok, ok_or, >>=-eq-ok, guard-eq-ok, ok_or-eq-ok, ok_injective,
}
use phenix_ai.Compaction.Checkpoint.{CompactionCheckpoint}
use phenix_ai.Compaction.Journal.{Event}
use phenix_ai.Compaction.View.{
  ContextPart, summary, original, ViewProblem, over_budget, Visibility, is_summarized, is_retained,
  is_excluded, same_visibility, visibility, event_size, Collected, push, collect_as, collect_event,
  collect,
}

-- The size of what is shown.
abbrev pub part_size : ContextPart → ℕ
part_size (summary id text sources) = length text
part_size (original event) = length event.text + length event.data_bytes + length event.call_id

abbrev pub total : List ContextPart → ℕ
total [] = 0
total (part ∷ parts) = part_size part + total parts

abbrev pub retained_here : CompactionCheckpoint → Event → Bool
retained_here c event = same_visibility (visibility c event.sequence) is_retained

abbrev pub summarized_here : CompactionCheckpoint → Event → Bool
summarized_here c event = same_visibility (visibility c event.sequence) is_summarized

-- The specification: one summary in front if it stands for any event, then the retained events.
abbrev pub originals : CompactionCheckpoint → List Event → List ContextPart
originals c events = map original (retain (retained_here c) events)

abbrev pub heading : CompactionCheckpoint → List Event → List ContextPart
heading c events =
    if any (summarized_here c) events then summary c.id c.summary c.summarized ∷ [] else []

total-append : (xs ys : List ContextPart) → total (xs ++ ys) ≡ total xs + total ys
total-append [] ys = omega arith
total-append (x ∷ xs) ys = omega (arith, total-append xs ys)

pub event_size-eq-some :
    (event : Event) (n : ℕ) → event_size event ≡ some n → n ≡ part_size (original event)
unfolding event_size
event_size-eq-some event n h =
    elim (Option-cases (checked_add (length event.text) (length event.data_bytes))) [
      | inl over ↦ absurd (ground (arith, over, h))
      | inr (m, e) ↦
          let j : checked_add m (length event.call_id) ≡ some n = rw (e, event_size) at h in
          omega (
            arith,
            checked_add-eq-some (length event.text) (length event.data_bytes) e,
            checked_add-eq-some m (length event.call_id) j,
          )
    ]

push-eq-ok :
    (part : ContextPart) (size : ℕ) (emitted : Bool) (k k' : Collected)
    → push part size emitted k ≡ ok k'
    → (k'.bytes ≡ k.bytes + size)
      × (k'.parts ≡ k.parts ++ part ∷ [])
      × (k'.summary_emitted ≡ emitted)
push-eq-ok part size emitted k k' h =
    let (n, e, j) = >>=-eq-ok (ok_or (checked_add k.bytes size) over_budget) _ h in
    let sum =
      checked_add-eq-some k.bytes size (ok_or-eq-ok (checked_add k.bytes size) over_budget e) in
    (
      sym (ap (λ (x : Collected). x.bytes) (ok_injective j)) ∙ sum,
      sym (ap (λ (x : Collected). x.parts) (ok_injective j)),
      sym (ap (λ (x : Collected). x.summary_emitted) (ok_injective j)),
    )

-- One round adds a part, or none, with its size.
abbrev pub round : CompactionCheckpoint → Event → Visibility → Bool → List ContextPart
round c event is_summarized true = []
round c event is_summarized false = summary c.id c.summary c.summarized ∷ []
round c event is_retained emitted = original event ∷ []
round c event is_excluded emitted = []

abbrev Advanced : CompactionCheckpoint → Event → Visibility → Bool → Collected → Collected → Type 0
Advanced c event v emitted k k' =
    (k'.bytes ≡ k.bytes + total (round c event v emitted))
    × (k'.parts ≡ k.parts ++ round c event v emitted)
    × (k'.summary_emitted ≡ (emitted || same_visibility v is_summarized))

unmoved :
    (k k' : Collected)
    → ◌≡◌ {A = Result ViewProblem Collected} (ok k) (ok k')
    → (k'.bytes ≡ k.bytes + 0)
      × (k'.parts ≡ k.parts ++ [])
      × (k'.summary_emitted ≡ k.summary_emitted)
unmoved k k' h =
    let same : k ≡ k' = ok_injective h in
    (
      omega (arith, ap (λ (x : Collected). x.bytes) same),
      ap (λ (x : Collected). x.parts) (sym same) ∙ sym (append-nil k.parts),
      ap (λ (x : Collected). x.summary_emitted) (sym same),
    )

collect_as-Advanced :
    (c : CompactionCheckpoint) (event : Event) (v : Visibility) (emitted : Bool) (k k' : Collected)
    → k.summary_emitted ≡ emitted
    → collect_as c event v k ≡ ok k'
    → Advanced c event v emitted k k'
unfolding collect_as
collect_as-Advanced c event is_summarized true k k' e h =
    let quiet : collect_as c event is_summarized k ≡ ok k = ground (arith, e) in
    let (b, p, s) = unmoved k k' (sym quiet ∙ h) in (b, p, s ∙ e)
collect_as-Advanced c event is_summarized false k k' e h =
    let (b, p, s) =
      push-eq-ok (summary c.id c.summary c.summarized) (length c.summary) true k k' (rw e at h) in
    (omega (arith, b), p, s)
collect_as-Advanced c event is_retained emitted k k' e h =
    let (size, found, j) = >>=-eq-ok (ok_or (event_size event) over_budget) _ h in
    let known = event_size-eq-some event size (ok_or-eq-ok (event_size event) over_budget found) in
    let (b, p, s) = push-eq-ok (original event) size k.summary_emitted k k' j in
    (omega (arith, b, known), p, s ∙ e ∙ ground arith)
collect_as-Advanced c event is_excluded emitted k k' e h =
    let (b, p, s) = unmoved k k' h in (b, p, s ∙ e ∙ ground arith)

-- What all the rounds add.
abbrev pub rounds : CompactionCheckpoint → List Event → Bool → List ContextPart
rounds c [] emitted = []
rounds c (event ∷ events) emitted =
    round c event (visibility c event.sequence) emitted
    ++ rounds c events (emitted || summarized_here c event)

pub collect-rounds :
    (c : CompactionCheckpoint) (max_bytes : ℕ) (events : List Event) (k k' : Collected)
    → k.bytes ≤ max_bytes
    → collect c max_bytes events k ≡ ok k'
    → (k'.bytes ≤ max_bytes)
      × (k'.bytes ≡ k.bytes + total (rounds c events k.summary_emitted))
      × (k'.parts ≡ k.parts ++ rounds c events k.summary_emitted)
unfolding collect
collect-rounds c max_bytes [] k k' l h =
    let same : k ≡ k' = ok_injective h in
    (
      subst (λ (x : Collected). x.bytes ≤ max_bytes) same l,
      omega (arith, ap (λ (x : Collected). x.bytes) same),
      ap (λ (x : Collected). x.parts) (sym same) ∙ sym (append-nil k.parts),
    )
collect-rounds c max_bytes (event ∷ events) k k' l h =
    let v = visibility c event.sequence in
    let (k1, one, j) = >>=-eq-ok (collect_event c event k) _ h in
    let (fits, j2) = guard-eq-ok (leb k1.bytes max_bytes) over_budget _ j in
    let (b, p, s) = collect_as-Advanced c event v k.summary_emitted k k1 refl one in
    let (m, total_rest, parts_rest) =
      collect-rounds c max_bytes events k1 k' (ground (arith, fits)) j2 in
    let mine = round c event v k.summary_emitted in
    let rest : rounds c events k1.summary_emitted
        ≡ rounds c events (k.summary_emitted || summarized_here c event) =
      ap (rounds c events) s in
    (
      m,
      omega (
        arith,
        b,
        total_rest,
        ap total rest,
        total-append mine (rounds c events (k.summary_emitted || summarized_here c event)),
      ),
      parts_rest
          ∙ rw (p, rest)
              (append_assoc k.parts mine
                (rounds c events (k.summary_emitted || summarized_here c event))),
    )
