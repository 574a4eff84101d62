-- ===== src/Basic/Session/Reconcile.antt =====
-- What reconciling a tool call does to a snapshot (crates/phenix-plugin-basic-session/src/lib.rs).
use phenix_ai.Prelude.{
  ℕ, zero, suc, ◌≡◌, ◌≢◌, refl, sym, ap, subst, ◌∙◌, Bool, true, false, not, ◌&&◌, Option, none,
  some, List, [], ◌∷◌, ◌++◌, ◌==◌, length, position, is_some, All, arith, Bool-cases, inl, inr,
  Option-cases,
}
use phenix_ai.Prelude.Order.{Text, text_ord, ◌=?◌, =?_iff}
use phenix_ai.Prelude.Map.{Map, get, insert, get-insert}
use phenix_ai.Contract.Failure.{ok, ok_or, >>=-eq-ok, guard-eq-ok, ok_or-eq-ok, ok_injective}
use phenix_ai.Basic.Errors.{error, not_found}
use phenix_ai.Basic.Session.{
  ToolCall, tool_result, RunStatus, run_indeterminate, SessionSnapshot, ReconcileTool, is_running,
  is_indeterminate, fresh_ids, well_formed_snapshot, remove_at, status_after, resolved,
  reconcile_snapshot,
}

-- Where the first element that passes the test stands, and what is left without it.
pub record IsSplit (p : ToolCall → Bool) (calls : List ToolCall) (left : List ToolCall)
    : Type 0 where
  pub before : List ToolCall
  pub call : ToolCall
  pub after : List ToolCall
  pub whole : before ++ call ∷ after ≡ calls
  pub rest : before ++ after ≡ left
  pub passes : p call ≡ true
  pub first : All (λ c. p c ≡ false) before

some_injective : {i j : ℕ} → ◌≡◌ {A = Option ℕ} (some i) (some j) → i ≡ j
some_injective h = cc

none_ne : {i : ℕ} → ◌≢◌ {A = Option ℕ} none (some i)
none_ne h = cc

position-IsSplit :
    (p : ToolCall → Bool) (calls : List ToolCall) {n : ℕ}
    → position p calls ≡ some n
    → IsSplit p calls (remove_at n calls)
unfolding position
position-IsSplit p [] h = cc
position-IsSplit p (c ∷ calls) {n = n} h = elim (Bool-cases (p c)) [
  | inl hit ↦
      let here : zero ≡ n = some_injective (sym (rw hit refl) ∙ h) in
      subst (λ i. IsSplit p (c ∷ calls) (remove_at i (c ∷ calls))) here
        (record {
          before = [];
          call = c;
          after = calls;
          whole = refl;
          rest = refl;
          passes = hit;
          first = tt;
        })
  | inr miss ↦ elim (Option-cases (position p calls)) [
    | inl nowhere ↦ absurd (none_ne (sym (rw (miss, nowhere) refl) ∙ h))
    | inr (m, there) ↦
        let later : suc m ≡ n = some_injective (sym (rw (miss, there) refl) ∙ h) in
        let split = position-IsSplit p calls there in
        subst (λ i. IsSplit p (c ∷ calls) (remove_at i (c ∷ calls))) later
          (record {
            before = c ∷ split.before;
            call = split.call;
            after = split.after;
            whole = ap (λ cs. c ∷ cs) split.whole;
            rest = ap (λ cs. c ∷ cs) split.rest;
            passes = split.passes;
            first = (miss, split.first);
          })
  ]
]

pub record IsReconciled (x : SessionSnapshot) (resolution : ReconcileTool) (y : SessionSnapshot)
    : Type 0 where
  pub same_session : x.session ≡ resolution.session
  pub stopped : x.status ≡ run_indeterminate
  pub removed : IsSplit (λ c. c.id =? resolution.call_id) x.pending y.pending
  pub recorded : y.history ≡ x.history ++ tool_result resolution.call_id resolution.outcome ∷ []
  pub status : y.status ≡ status_after y.pending run_indeterminate
  pub same_run : (y.run ≡ x.run) × (y.session ≡ x.session) × (y.revision ≡ x.revision)

status_of : (s : RunStatus) → is_indeterminate s ≡ true → s ≡ run_indeterminate
status_of s h = ground arith

pub three : (a b c : Bool) → (a && b && c) ≡ true → (a ≡ true) × (b ≡ true) × (c ≡ true)
three true true c h = (refl, refl, h)
three true false c h = cc
three false b c h = cc

reconciled :
    (x : SessionSnapshot) (resolution : ReconcileTool) {y : SessionSnapshot}
    → reconcile_snapshot x resolution ≡ ok y
    → (n : ℕ) × (x.session ≡ resolution.session)
      × (x.status ≡ run_indeterminate)
      × (position (λ c. c.id =? resolution.call_id) x.pending ≡ some n)
      × (resolved x resolution n ≡ y)
unfolding reconcile_snapshot
reconciled x resolution h =
    let k = guard-eq-ok _ _ _ h in
    let l =
      >>=-eq-ok
        (ok_or (position (λ c. c.id =? resolution.call_id) x.pending)
          (error not_found "pending tool call not found"))
        _ k.1 in
    let (same, stopped, named) = three _ _ _ k.0 in
    (l.0, (=?_iff _ _).0 same, status_of x.status stopped, ok_or-eq-ok _ _ l.1, ok_injective l.2)

-- A snapshot is only reconciled while its outcome is indeterminate, by the identity of a pending
-- call of its own session: the first pending call of that identity is removed and its outcome is
-- added to the history; the session runs again exactly when nothing is pending any more.
pub reconcile_snapshot-IsReconciled :
    (x : SessionSnapshot) (resolution : ReconcileTool) {y : SessionSnapshot}
    → reconcile_snapshot x resolution ≡ ok y
    → IsReconciled x resolution y
reconcile_snapshot-IsReconciled x resolution h =
    let (n, same, stopped, found, is) = reconciled x resolution h in
    subst (IsReconciled x resolution) is (record {
      same_session = same;
      stopped = stopped;
      removed = position-IsSplit _ x.pending found;
      recorded = refl;
      status = ap (status_after (remove_at n x.pending)) stopped;
      same_run = (refl, refl, refl);
    })

pub all_three : {a b c : Bool} → a ≡ true → b ≡ true → c ≡ true → (a && b && c) ≡ true
all_three h k l = rw (h, k, l) refl

none_of : (o : Option (Unit {0})) → not (is_some o) ≡ true → o ≡ none
none_of none h = refl
none_of (some u) h = cc

absent : (o : Option (Unit {0})) → o ≡ none → not (is_some o) ≡ true
absent o h = rw h refl

inserted :
    (k i : Text) (small big : Map Text (Unit {0}))
    → (get k big ≡ none → get k small ≡ none)
    → get k (insert i tt big) ≡ none
    → get k (insert i tt small) ≡ none
inserted k i small big within h =
    ground (arith, get-insert i k tt big, get-insert i k tt small, within)

earlier :
    (k i : Text) (seen : Map Text (Unit {0})) → get k (insert i tt seen) ≡ none → get k seen ≡ none
earlier k i seen h = ground (arith, get-insert i k tt seen)

fresh_ids_mono :
    (small big : Map Text (Unit {0})) (calls : List ToolCall)
    → ((k : Text) → get k big ≡ none → get k small ≡ none)
    → fresh_ids big calls ≡ true
    → fresh_ids small calls ≡ true
unfolding fresh_ids
fresh_ids_mono small big [] within h = refl
fresh_ids_mono small big (c ∷ calls) within h =
    let (a, b, r) = three _ _ _ h in
    all_three a (absent _ (within c.id (none_of _ b))) (
      fresh_ids_mono (insert c.id tt small) (insert c.id tt big) calls
        (λ k. inserted k c.id small big (within k)) r)

fresh_ids-remove_at :
    (seen : Map Text (Unit {0})) (n : ℕ) (calls : List ToolCall)
    → fresh_ids seen calls ≡ true
    → fresh_ids seen (remove_at n calls) ≡ true
unfolding fresh_ids
fresh_ids-remove_at seen n [] h = refl
fresh_ids-remove_at seen zero (c ∷ calls) h =
    fresh_ids_mono seen (insert c.id tt seen) calls (λ k. earlier k c.id seen)
      (three (not (length c.id == 0)) (not (is_some (get c.id seen))) _ h).2
fresh_ids-remove_at seen (suc n) (c ∷ calls) h =
    let (a, b, r) = three (not (length c.id == 0)) (not (is_some (get c.id seen))) _ h in
    all_three a b (fresh_ids-remove_at (insert c.id tt seen) n calls r)

left_well_formed :
    (left : List ToolCall) (no_run : Bool)
    → fresh_ids [] left ≡ true
    → (not (is_running (status_after left run_indeterminate) && no_run) && fresh_ids [] left)
      ≡ not (length left == 0 && no_run)
left_well_formed [] no_run h = rw h (both_true (not no_run))
  where
    both_true : (b : Bool) → (b && true) ≡ b
    both_true true = refl
    both_true false = refl
left_well_formed (c ∷ left) no_run h = rw h (ground arith)

second : (a b : Bool) → (a && b) ≡ true → b ≡ true
second true b h = h
second false b h = cc

-- Reconciling a call of a well-formed snapshot leaves a well-formed one, unless that was the last
-- pending call and the snapshot names no run.
pub reconcile_snapshot-well_formed_snapshot :
    (x : SessionSnapshot) (resolution : ReconcileTool) {y : SessionSnapshot}
    → well_formed_snapshot x ≡ true
    → reconcile_snapshot x resolution ≡ ok y
    → well_formed_snapshot y ≡ not (length y.pending == 0 && length x.run == 0)
unfolding well_formed_snapshot
reconcile_snapshot-well_formed_snapshot x resolution w h =
    let (n, same, stopped, found, is) = reconciled x resolution h in
    let left = remove_at n x.pending in
    let unique = fresh_ids-remove_at [] n x.pending (second _ (fresh_ids [] x.pending) w) in
    let holds : well_formed_snapshot (resolved x resolution n)
        ≡ not (length left == 0 && length x.run == 0) =
      rw stopped (left_well_formed left (length x.run == 0) unique) in
    subst (λ y. well_formed_snapshot y ≡ not (length y.pending == 0 && length x.run == 0)) is holds
