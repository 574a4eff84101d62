-- ===== src/Compaction/Ledger/Ancestry.antt =====
-- The verification of a checkpoint with all its ancestors
-- (crates/phenix-plugin-compaction-checkpoints/src/lib.rs).
use phenix_ai.Prelude.{
  ℕ, zero, suc, ◌≡◌, ◌≢◌, refl, sym, ap, subst, ◌∙◌, Option, none, some, List, [], ◌∷◌, ◌++◌, leb,
  length, take, position, All, Bool-cases, Option-cases, inl, inr,
}
use phenix_ai.Prelude.Order.{Text, text_ord, ◌=?◌, =?_iff}
use phenix_ai.Contract.Failure.{Result, ok, err, ok_or, >>=-eq-ok, guard-eq-ok, ok_or-eq-ok}
use phenix_ai.Compaction.Checkpoint.{CompactionCheckpoint}
use phenix_ai.Compaction.Ledger.{
  check_ledger, validate_ledger, missing_checkpoint, from_source, verify_each,
  verify_checkpoint_ancestry, max_checkpoints,
}
use phenix_ai.Compaction.Ledger.Lineage.{IsLedger, check_ledger-IsLedger}

IsLedger-take :
    (session : Text) (older history : List CompactionCheckpoint) (n : ℕ)
    → IsLedger session older history
    → IsLedger session older (take n history)
IsLedger-take session older history zero l = tt
IsLedger-take session older [] (suc n) l = tt
IsLedger-take session older (c ∷ history) (suc n) l =
    (l.0, IsLedger-take session (older ++ c ∷ []) history n l.1)

some_injective : {i j : ℕ} → ◌≡◌ {A = Option ℕ} (some i) (some j) → i ≡ j
some_injective h = cc

none_ne : {i : ℕ} → ◌≢◌ {A = Option ℕ} none (some i)
none_ne h = cc

-- What stands before and after the first checkpoint with the identity.
abbrev Split : Text → List CompactionCheckpoint → ℕ → Type 0
Split id history n =
    (before : List CompactionCheckpoint) × (found : CompactionCheckpoint) × (after : List
      CompactionCheckpoint)
    × ((before ++ found ∷ after ≡ history)
        × (before ++ found ∷ [] ≡ take (suc n) history)
        × (found.id ≡ id))

Split-at :
    (id : Text) (history : List CompactionCheckpoint) {n : ℕ}
    → position (λ c. c.id =? id) history ≡ some n
    → Split id history n
unfolding position
Split-at id [] h = cc
Split-at id (c ∷ history) {n = n} h = elim (Bool-cases (c.id =? id)) [
  | inl hit ↦
      let here : zero ≡ n = some_injective (sym (rw hit refl) ∙ h) in
      subst (Split id (c ∷ history)) here ([], c, history, (refl, refl, (=?_iff c.id id).0 hit))
  | inr miss ↦ elim (Option-cases (position (λ d. d.id =? id) history)) [
    | inl nowhere ↦ absurd (none_ne (sym (rw (miss, nowhere) refl) ∙ h))
    | inr (m, there) ↦
        let later : suc m ≡ n = some_injective (sym (rw (miss, there) refl) ∙ h) in
        let (before, found, after, (whole, last, named)) = Split-at id history there in
        subst (Split id (c ∷ history)) later
          (c ∷ before, found, after, (ap (λ cs. c ∷ cs) whole, ap (λ cs. c ∷ cs) last, named))
  ]
]

-- Everything that passed the test before an element, and the element.
pub record IsLineage (session : Text) (history lineage : List CompactionCheckpoint) (id : Text)
    : Type 0 where
  pub before : List CompactionCheckpoint
  pub found : CompactionCheckpoint
  pub after : List CompactionCheckpoint
  pub whole : before ++ found ∷ after ≡ history
  pub last : before ++ found ∷ [] ≡ lineage
  pub named : found.id ≡ id
  pub linear : IsLedger session [] lineage

module _ {E : Type 0} (verify : CompactionCheckpoint → Result E (Unit {0})) where
  from_source-ok : (r : Result E (Unit {0})) → from_source verify r ≡ ok tt → r ≡ ok tt
  from_source-ok (ok u) h = refl
  from_source-ok (err e) h = cc

  verify_each-all :
      (history : List CompactionCheckpoint)
      → verify_each verify history ≡ ok tt
      → All (λ c. verify c ≡ ok tt) history
  unfolding verify_each
  verify_each-all [] h = tt
  verify_each-all (c ∷ history) h =
      let k = >>=-eq-ok (from_source verify (verify c)) _ h in
      (from_source-ok (verify c) k.1, verify_each-all history k.2)

  -- Ancestry that is verified is the whole lineage of the checkpoint with the identity: in a valid
  -- ledger the checkpoints up to it are linear themselves, from the first one on, end with it, and
  -- the source of each of them has been verified.
  pub verify_checkpoint_ancestry-IsLineage :
      (history : List CompactionCheckpoint) (session id : Text)
      → validate_ledger history session ≡ ok tt
      → verify_checkpoint_ancestry verify history id ≡ ok tt
      → (lineage : List CompactionCheckpoint) × IsLineage session history lineage id
        × All (λ c. verify c ≡ ok tt) lineage
  unfolding verify_checkpoint_ancestry validate_ledger
  verify_checkpoint_ancestry-IsLineage history session id v h =
      let bounded =
        guard-eq-ok (leb (length history) max_checkpoints) _ (check_ledger session [] history) v in
      let ledger = check_ledger-IsLedger session [] history bounded.1 in
      let k = >>=-eq-ok (ok_or (position (λ c. c.id =? id) history) missing_checkpoint) _ h in
      let split = Split-at id history (ok_or-eq-ok _ _ k.1) in
      let lineage = take (suc k.0) history in
      (
        lineage,
        record {
          before = split.0;
          found = split.1;
          after = split.2;
          whole = split.3.0;
          last = split.3.1;
          named = split.3.2;
          linear = IsLedger-take session [] history (suc k.0) ledger;
        },
        verify_each-all lineage k.2,
      )
