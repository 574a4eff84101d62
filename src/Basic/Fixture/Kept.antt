-- ===== src/Basic/Fixture/Kept.antt =====
-- What a transaction of the fixture leaves behind
-- (crates/phenix-plugin-storage-fixture/src/lib.rs).
use phenix_ai.Prelude.{
  ℕ, ◌≡◌, ◌≢◌, refl, sym, ap, subst, ◌∙◌, Bool, true, false, not, ◌||◌, Option, none, some, List,
  [], ◌∷◌, ◌==◌, ==_iff, length, is_some, u64_max, All, All-map, arith, ◌⊎◌, inl, inr,
}
use phenix_ai.Prelude.Order.{Text, text_ord}
use phenix_ai.Prelude.Map.{Map, get, insert, get-insert, get-insert_self, get-insert_ne}
use phenix_ai.Contract.Failure.{
  Failure, Result, ok, err, guard, >>=-eq-ok, guard-eq-ok, ok_injective,
}
use phenix_ai.Basic.Errors.{CallError, CallResult, check_session}
use phenix_ai.Basic.Storage.{StoredRecord, StorageEdit, StorageTransaction, revision_of, Contents}
use phenix_ai.Basic.Fixture.{
  place_ord, Records, check_edit, check_edits, new_record, write_edits, new_records,
  check_transaction, transact, write_checked,
}

-- What the records hold of each session.
abbrev pub contents : Records → Contents
contents records session key = get (session, key) records

pub place_ne : {i j a b : Text} → (i ≢ a) ⊎ (j ≢ b) → ◌≢◌ {A = Text × Text} (i, j) (a, b)
place_ne (inl n) e = n (ap (λ p. p.0) e)
place_ne (inr n) e = n (ap (λ p. p.1) e)

-- An edit that is checked names a fresh key, expects the stored revision, and can be counted on.
pub record IsReady (records : Records) (session : Text) (e : StorageEdit) : Type 0 where
  pub has_key : (length e.key == 0) ≡ false
  pub prior : revision_of (get (session, e.key) records) ≡ e.expected
  pub room : (revision_of (get (session, e.key) records) == u64_max) ≡ false

-- No edit of the list is for this key.
abbrev pub Untouched : Text → List StorageEdit → Type 0
Untouched key = All (λ e. e.key ≢ key)

-- No two edits are for one key.
abbrev pub HasUnique : List StorageEdit → Type 0
HasUnique [] = Unit
HasUnique (e ∷ edits) = Untouched e.key edits × HasUnique edits

fresh_of :
    (b : Bool) (o : Option (Unit {0})) → not (b || is_some o) ≡ true → (b ≡ false) × (o ≡ none)
fresh_of true o h = cc
fresh_of false none h = (refl, refl)
fresh_of false (some u) h = cc

false_of : (b : Bool) → not b ≡ true → b ≡ false
false_of true h = cc
false_of false h = refl

passed : (b : Bool) (e : CallError) → guard b e ≡ ok tt → b ≡ true
passed true e h = refl
passed false e h = cc

check_edit-IsReady :
    (records : Records) (session : Text) (unique : Map Text (Unit {0})) (e : StorageEdit)
    → check_edit records session unique e ≡ ok tt
    → IsReady records session e × (get e.key unique ≡ none)
unfolding check_edit
check_edit-IsReady records session unique e h =
    let k = guard-eq-ok _ _ _ h in
    let l = guard-eq-ok _ _ _ k.1 in
    let fresh = fresh_of (length e.key == 0) (get e.key unique) k.0 in
    (
      record { has_key = fresh.0; prior = (==_iff _ _).0 l.0; room = false_of _ (passed _ _ l.1) },
      fresh.1,
    )

older :
    (k : Text) (unique : Map Text (Unit {0})) (j : Text)
    → get j (insert k tt unique) ≡ none
    → get j unique ≡ none
older k unique j h = ground (arith, get-insert k j tt unique)

other :
    (k : Text) (unique : Map Text (Unit {0})) (j : Text) → get j (insert k tt unique) ≡ none → j ≢ k
other k unique j h e =
    ground (arith, get-insert_self k tt unique, ap (λ i. get i (insert k tt unique)) e)

check_edits-IsReady :
    (records : Records) (session : Text) (unique : Map Text (Unit {0})) (edits : List StorageEdit)
    → check_edits records session unique edits ≡ ok tt
    → All (λ e. IsReady records session e × (get e.key unique ≡ none)) edits × HasUnique edits
unfolding check_edits
check_edits-IsReady records session unique [] h = (tt, tt)
check_edits-IsReady records session unique (e ∷ edits) h =
    let k = >>=-eq-ok (check_edit records session unique e) _ h in
    let here = check_edit-IsReady records session unique e (k.1 ∙ ap ok refl) in
    let rest = check_edits-IsReady records session (insert e.key tt unique) edits k.2 in
    (
      (here, All-map _ _ edits (λ d f. (f.0, older e.key unique d.key f.1)) rest.0),
      (All-map _ _ edits (λ d f. other e.key unique d.key f.1) rest.0, rest.1),
    )

-- The writes leave every other place as it was.
write_edits-others :
    (session : Text) (edits : List StorageEdit) (records : Records) (i k : Text)
    → (i ≢ session) ⊎ Untouched k edits
    → contents (write_edits session edits records) i k ≡ contents records i k
unfolding write_edits
write_edits-others session [] records i k far = refl
write_edits-others session (e ∷ edits) records i k (inl n) =
    write_edits-others session edits (insert (session, e.key) (new_record e) records) i k (inl n)
    ∙ get-insert_ne (session, e.key) (i, k) (new_record e) records (place_ne (inl n))
write_edits-others session (e ∷ edits) records i k (inr (n, ns)) =
    write_edits-others session edits (insert (session, e.key) (new_record e) records) i k (inr ns)
    ∙ get-insert_ne (session, e.key) (i, k) (new_record e) records (place_ne (inr (λ q. n (sym q))))

-- Every edit is stored when the writes are done.
write_edits-stored :
    (session : Text) (edits : List StorageEdit) (records : Records)
    → HasUnique edits
    → All
        (λ e. contents (write_edits session edits records) session e.key ≡ some (new_record e))
        edits
unfolding write_edits
write_edits-stored session [] records u = tt
write_edits-stored session (e ∷ edits) records u =
    let records' : Records = insert (session, e.key) (new_record e) records in
    (
      write_edits-others session edits records' session e.key (inr u.0)
          ∙ get-insert_self (session, e.key) (new_record e) records,
      write_edits-stored session edits records' u.1,
    )

-- An edit was made: it expected what was stored, which had a next revision, and is stored now.
pub record IsWritten (before : Records) (session : Text) (after : Records) (e : StorageEdit)
    : Type 0 where
  pub prior : revision_of (contents before session e.key) ≡ e.expected
  pub room : e.expected ≢ u64_max
  pub stored : contents after session e.key ≡ some (new_record e)

write_checked-ok :
    (request : StorageTransaction) (r : CallResult (Unit {0})) (records : Records)
    {rs : List StoredRecord} {after : Records}
    → write_checked request r records ≡ (ok rs, after)
    → (r ≡ ok tt)
      × (new_records request.edits ≡ rs)
      × (write_edits request.session request.edits records ≡ after)
write_checked-ok request (ok u) records h = (refl, ok_injective (ap (λ p. p.0) h), ap (λ p. p.1) h)
write_checked-ok request (err e) records h = absurd (not_ok e (ap (λ p. p.0) h))
  where
    not_ok :
        (e : CallError) {rs : List StoredRecord}
        → ◌≢◌ {A = CallResult (List StoredRecord)} (err e) (ok rs)
    not_ok e k = cc

write_checked-err :
    (request : StorageTransaction) (r : CallResult (Unit {0})) (records : Records) {e : CallError}
    {after : Records}
    → write_checked request r records ≡ (err e, after)
    → after ≡ records
write_checked-err request (ok u) records h = absurd (not_err (ap (λ p. p.0) h))
  where
    not_err :
        {rs : List StoredRecord} {e : CallError}
        → ◌≢◌ {A = CallResult (List StoredRecord)} (ok rs) (err e)
    not_err k = cc
write_checked-err request (err f) records h = sym (ap (λ p. p.1) h)

IsWritten-all :
    (before after : Records) (session : Text) (edits : List StorageEdit) (P : StorageEdit → Type 0)
    → All (λ e. IsReady before session e × P e) edits
    → All (λ e. contents after session e.key ≡ some (new_record e)) edits
    → All (IsWritten before session after) edits
IsWritten-all before after session [] P r w = tt
IsWritten-all before after session (e ∷ edits) P r w = (
  record {
    prior = r.0.0.prior;
    room = λ full. differs _ (r.0.0.prior ∙ full) r.0.0.room;
    stored = w.0;
  },
  IsWritten-all before after session edits P r.1 w.1,
)
  where
    differs : (n : ℕ) → n ≡ u64_max → (n == u64_max) ≡ false → ⊥
    differs n h k = ground arith

module _ (resource : Result Failure (Option Text)) where
  -- A transaction that the fixture accepts names its keys once; every edit expected the stored
  -- revision, which had a next one, and is stored under it; the answer is the new records in the
  -- order of the edits; and no other record changes.
  pub transact-ok :
      (request : StorageTransaction) (before : Records) {rs : List StoredRecord} {after : Records}
      → transact resource request before ≡ (ok rs, after)
      → HasUnique request.edits
        × All (IsWritten before request.session after) request.edits
        × (new_records request.edits ≡ rs)
        × ((i k : Text)
            → (i ≢ request.session) ⊎ Untouched k request.edits
            → contents after i k ≡ contents before i k)
  unfolding transact
  transact-ok request before h =
      let w = write_checked-ok request (check_transaction resource before request) before h in
      let c = >>=-eq-ok (check_session resource request.session) _ w.0 in
      let ready = check_edits-IsReady before request.session [] request.edits c.2 in
      let stored = write_edits-stored request.session request.edits before ready.1 in
      (
        ready.1,
        IsWritten-all before _ request.session request.edits _ ready.0 (
            subst
              (λ a. All (λ e. contents a request.session e.key ≡ some (new_record e)) request.edits)
              w.2 stored),
        w.1,
        λ i k far.
            subst (λ a. contents a i k ≡ contents before i k) w.2
              (write_edits-others request.session request.edits before i k far),
      )

  -- A transaction that the fixture refuses, for whatever reason and at whichever of its edits,
  -- leaves every record as it was.
  pub transact-err :
      (request : StorageTransaction) (before : Records) {e : CallError} {after : Records}
      → transact resource request before ≡ (err e, after)
      → after ≡ before
  unfolding transact
  transact-err request before h =
      write_checked-err request (check_transaction resource before request) before h
