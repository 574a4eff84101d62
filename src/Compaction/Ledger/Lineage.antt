-- ===== src/Compaction/Ledger/Lineage.antt =====
-- Ledgers are linear (crates/phenix-plugin-compaction-checkpoints/src/lib.rs).
use mathlib.Core.List.{append_assoc, append-nil}
use phenix_ai.Prelude.{
  ℕ, ◌+◌, ◌≤◌, ◌≡◌, refl, sym, ap, subst, ◌∙◌, Bool, true, false, not, ◌&&◌, Option, none, some,
  List, [], ◌∷◌, ◌++◌, leb, ltb, ltb→lt, ◌==◌, ==_iff, length, length-append, arith, checked_add,
}
use phenix_ai.Prelude.Order.{Text, text_ord, =?_iff, =?_refl}
use phenix_ai.Contract.Failure.{
  Result, ok, err, guard, ok_or, ◌>>◌, >>=-eq-ok, guard-eq-ok, ok_or-eq-ok, ok_injective,
}
use phenix_ai.Basic.Events.{next_number}
use phenix_ai.Compaction.Checkpoint.{CompactionCheckpoint, Checked, validate_checkpoint}
use phenix_ai.Compaction.Ledger.{
  CheckpointStoreProblem, storage_failed, conflict, is_ok, last_id, same_id, knows, is_next,
  check_ledger, validate_ledger, append_checkpoint, max_checkpoints,
}

-- The next checkpoint of a session behind `older`: it is valid, has the next revision, names the
-- last one as its parent, and has an identity of its own.
pub record IsNext (session : Text) (older : List CompactionCheckpoint) (c : CompactionCheckpoint)
    : Type 0 where
  pub valid : validate_checkpoint c ≡ ok tt
  pub own : c.session ≡ session
  pub counted : c.revision ≡ length older + 1
  pub parent : c.parent_checkpoint ≡ last_id older
  pub fresh : knows c.id older ≡ false

-- Every checkpoint is the next one behind those before it.
abbrev pub IsLedger : Text → List CompactionCheckpoint → List CompactionCheckpoint → Type 0
IsLedger session older [] = Unit
IsLedger session older (c ∷ history) =
    IsNext session older c × IsLedger session (older ++ c ∷ []) history

is_ok-eq : (r : Checked) → is_ok r ≡ true → r ≡ ok tt
is_ok-eq (ok u) h = refl
is_ok-eq (err e) h = cc

same_id-eq : (a b : Option Text) → same_id a b ≡ true → a ≡ b
same_id-eq none none h = refl
same_id-eq none (some b) h = cc
same_id-eq (some a) none h = cc
same_id-eq (some a) (some b) h = ap some ((=?_iff a b).0 h)

same_id_refl : (a : Option Text) → same_id a a ≡ true
same_id_refl none = refl
same_id_refl (some a) = =?_refl a

five :
    (a b c d e : Bool)
    → (a && b && c && d && not e) ≡ true
    → (a ≡ true) × (b ≡ true) × (c ≡ true) × (d ≡ true) × (e ≡ false)
five a b c d e h = ground arith

next_number-eq : (n : ℕ) {m : ℕ} → next_number n ≡ some m → m ≡ n + 1
unfolding checked_add
next_number-eq n h = ground arith

next_number-some : (n : ℕ) → n ≤ max_checkpoints → next_number n ≡ some (n + 1)
unfolding checked_add
next_number-some n h = ground arith

is_next-IsNext :
    (session : Text) (older : List CompactionCheckpoint) (n : ℕ) (c : CompactionCheckpoint)
    → n ≡ length older + 1
    → is_next session older n c ≡ true
    → IsNext session older c
is_next-IsNext session older n c e h =
    let (valid, own, counted, parent, fresh) =
      five (is_ok (validate_checkpoint c)) _ _ _ (knows c.id older) h in
    record {
      valid = is_ok-eq _ valid;
      own = (=?_iff _ _).0 own;
      counted = (==_iff c.revision n).0 counted ∙ e;
      parent = same_id-eq _ _ parent;
      fresh = fresh;
    }

IsNext-is_next :
    (session : Text) (older : List CompactionCheckpoint) (c : CompactionCheckpoint)
    → IsNext session older c
    → is_next session older (length older + 1) c ≡ true
IsNext-is_next session older c n =
    rw
      (
        n.valid,
        (=?_iff c.session session).1 n.own,
        (==_iff c.revision (length older + 1)).1 n.counted,
        n.parent,
        same_id_refl (last_id older),
        n.fresh,
      )
      refl

pub check_ledger-IsLedger :
    (session : Text) (older history : List CompactionCheckpoint)
    → check_ledger session older history ≡ ok tt
    → IsLedger session older history
unfolding check_ledger
check_ledger-IsLedger session older [] h = tt
check_ledger-IsLedger session older (c ∷ history) h =
    let k = >>=-eq-ok (ok_or (next_number (length older)) storage_failed) _ h in
    let l = guard-eq-ok _ _ _ k.2 in
    (
      is_next-IsNext session older k.0 c (next_number-eq _ (ok_or-eq-ok _ _ k.1)) l.0,
      check_ledger-IsLedger session (older ++ c ∷ []) history l.1,
    )

IsLedger-check_ledger :
    (session : Text) (older history : List CompactionCheckpoint)
    → IsLedger session older history
    → length older + length history ≤ max_checkpoints
    → check_ledger session older history ≡ ok tt
unfolding check_ledger
IsLedger-check_ledger session older [] l h = refl
IsLedger-check_ledger session older (c ∷ history) l h =
    rw
      (
        next_number-some (length older) (omega (arith, h)),
        IsNext-is_next session older c l.0,
        IsLedger-check_ledger session (older ++ c ∷ []) history l.1
            (omega (arith, h, length-append older (c ∷ []))),
      )
      refl

IsLedger-append :
    (session : Text) (older history : List CompactionCheckpoint) (c : CompactionCheckpoint)
    → IsLedger session older history
    → IsNext session (older ++ history) c
    → IsLedger session older (history ++ c ∷ [])
IsLedger-append session older [] c l n =
    (subst (λ os. IsNext session os c) (append-nil older) n, tt)
IsLedger-append session older (d ∷ history) c l n = (
  l.0,
  IsLedger-append session (older ++ d ∷ []) history c l.1
      (subst (λ os. IsNext session os c) (sym (append_assoc older (d ∷ []) history)) n),
)

after_two :
    {B : Type 0} (first : Result CheckpointStoreProblem (Unit {0})) (t : Bool)
    (e : CheckpointStoreProblem) (rest : Result CheckpointStoreProblem B) {b : B}
    → (first >> (guard t e >> rest)) ≡ ok b
    → (first ≡ ok tt) × (t ≡ true) × (rest ≡ ok b)
after_two first t e rest h =
    let k = >>=-eq-ok first (λ u. guard t e >> rest) h in
    let g = guard-eq-ok t e rest k.2 in (k.1, g.0, g.1)

three : (a b c : Bool) → (a && b && not c) ≡ true → (a ≡ true) × (b ≡ true) × (c ≡ false)
three a b c h = ground arith

-- A linear ledger within the bound is accepted.
pub accepted :
    (session : Text) (history : List CompactionCheckpoint)
    → IsLedger session [] history
    → length history ≤ max_checkpoints
    → validate_ledger history session ≡ ok tt
unfolding validate_ledger
accepted session history l h =
    rw (within (length history) h) (IsLedger-check_ledger session [] history l (omega (arith, h)))
  where
    within : (n : ℕ) → n ≤ max_checkpoints → leb n max_checkpoints ≡ true
    within n k = ground arith

-- A checkpoint that is appended is the next one of a ledger of the session that is linear:
-- revisions from 1 in order, each checkpoint but the first with the one before it as its parent,
-- all identities different. The ledger keeps its earlier checkpoints, is linear again, and is
-- accepted when it is loaded.
pub append_checkpoint-IsLedger :
    (history : List CompactionCheckpoint) (c : CompactionCheckpoint) (session : Text)
    {updated : List CompactionCheckpoint}
    → append_checkpoint history c session ≡ ok updated
    → (history ++ c ∷ [] ≡ updated)
      × IsLedger session [] history
      × IsNext session history c
      × IsLedger session [] updated
      × (validate_ledger updated session ≡ ok tt)
unfolding append_checkpoint validate_ledger
append_checkpoint-IsLedger history c session h =
    let (v, g1, h1) = after_two _ _ _ _ h in
    let bounded =
      guard-eq-ok (leb (length history) max_checkpoints) _ (check_ledger session [] history) v in
    let ledger = check_ledger-IsLedger session [] history bounded.1 in
    let g2 = guard-eq-ok _ _ _ h1 in
    let g3 = guard-eq-ok _ _ _ g2.1 in
    let g4 = guard-eq-ok (ltb (length history) max_checkpoints) conflict _ g3.1 in
    let m = >>=-eq-ok (ok_or (next_number (length history)) conflict) _ g4.1 in
    let g5 = guard-eq-ok _ conflict (ok (history ++ c ∷ [])) m.2 in
    let (counted, linked, fresh) = three (c.revision == m.0) _ (knows c.id history) g5.0 in
    let next : IsNext session history c = record {
      valid = is_ok-eq _ g3.0;
      own = (=?_iff _ _).0 g1;
      counted = (==_iff c.revision m.0).0 counted ∙ next_number-eq _ (ok_or-eq-ok _ _ m.1);
      parent = same_id-eq _ _ linked;
      fresh = fresh;
    } in
    let grown = IsLedger-append session [] history c ledger next in
    let is = ok_injective g5.1 in
    let room = ltb→lt (length history) max_checkpoints g4.0 in
    (
      is,
      ledger,
      next,
      subst (IsLedger session []) is grown,
      subst (λ l. validate_ledger l session ≡ ok tt) is
          (accepted session (history ++ c ∷ []) grown
            (omega (arith, room, length-append history (c ∷ [])))),
    )
