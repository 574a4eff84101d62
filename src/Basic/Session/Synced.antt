-- ===== src/Basic/Session/Synced.antt =====
-- The live sessions agree with the storage (crates/phenix-plugin-basic-session/src/lib.rs).
use phenix_ai.Prelude.{
  ℕ, ◌+◌, ◌≡◌, ◌≢◌, refl, sym, ap, subst, ◌∙◌, inl, inr, Bool, true, false, not, ◌&&◌, Option, none,
  some, ◌==◌, ==_iff, checked_add, checked_add-eq-some, arith, Bool-cases,
}
use phenix_ai.Prelude.Order.{Text, text_ord, ◌=?◌, =?_iff}
use phenix_ai.Prelude.Map.{get, insert, get-insert, get-remove}
use phenix_ai.Contract.Failure.{
  Failure, Result, ok, err, guard, ok_or, >>=-eq-ok, guard-eq-ok, ok_or-eq-ok, ok_injective,
}
use phenix_ai.Basic.Errors.{
  CallError, domain, kernel, CallResult, map_err, map_err-eq-ok, error, check_session, conflict,
}
use phenix_ai.Basic.Call.{Call, continue-keeps, lift-ends, continue-ends, ends-eq}
use phenix_ai.Basic.Storage.{StoredRecord, Storage, RoundTrips, transact_one}
use phenix_ai.Basic.Storage.Commit.{transact_one-ok, transact_one-domain, transact_one-kernel}
use phenix_ai.Basic.EventJournal.{is_not_found}
use phenix_ai.Basic.EventJournal.Append.{missing_code}
use phenix_ai.Basic.Session.{
  SessionSnapshot, ReconcileTool, well_formed_snapshot, empty, reconcile_snapshot, is_indeterminate,
}
use phenix_ai.Basic.Session.Reconcile.{three, reconcile_snapshot-IsReconciled}
use phenix_ai.Basic.Session.Plugin.{
  record_key, Sessions, invalid_snapshot, restored, load, restore, current_or, current, commit,
  settle, commit_live, open_session, checkpoint_session, reconcile_session,
}

module _ {S : Type 0} (storage : Storage S) (resource : Result Failure (Option Text))
    (encode : SessionSnapshot → Result Failure Text)
    (decode : Text → Result Failure SessionSnapshot) where
  -- The snapshot that a record is of; where there is none, the empty one.
  abbrev pub IsSaved : Text → Option StoredRecord → SessionSnapshot → Type 0
  IsSaved session none x = x ≡ empty session
  IsSaved session (some r) x = (decode r.data_bytes ≡ ok x) × (x.revision ≡ r.revision)

  abbrev pub at : S → Text → Option StoredRecord
  at s session = storage.contents s session record_key

  -- Every live session is under its own identity, and is what the storage holds.
  abbrev pub IsSynced : Sessions × S → Type 0
  IsSynced (live, s) =
      (k : Text) (x : SessionSnapshot)
      → get k live ≡ some x
      → (x.session ≡ k) × IsSaved k (at s k) x

  restored_as :
      {session : Text} (b : Bool) (e : CallError) {x : SessionSnapshot}
      → b ≡ true
      → ◌≡◌ {A = CallResult SessionSnapshot}
          (elim b [ true ↦ ok (empty session) | false ↦ err e ])
          (ok x)
      → empty session ≡ x
  restored_as true e h k = ok_injective k
  restored_as false e h k = cc

  refused_as :
      (session : Text) (b : Bool) (e : CallError) {x : SessionSnapshot}
      → b ≡ false
      → ◌≢◌ {A = CallResult SessionSnapshot}
          (elim b [ true ↦ ok (empty session) | false ↦ err e ])
          (ok x)
  refused_as session true e h k = cc
  refused_as session false e h k = cc

  restored-IsSaved :
      (session : Text) (s : S) (answer : CallResult StoredRecord) {x : SessionSnapshot}
      → storage.read s (record { session = session; key = record_key }) ≡ answer
      → restored storage resource encode decode session answer ≡ ok x
      → (x.session ≡ session) × IsSaved session (at s session) x
  restored-IsSaved session s (ok r) h k =
      let stored = storage.read_ok s (record { session = session; key = record_key }) h in
      let l = >>=-eq-ok (map_err invalid_snapshot (decode r.data_bytes)) _ k in
      let g =
        guard-eq-ok
          (l.0.revision == r.revision && l.0.session =? session && well_formed_snapshot l.0) _
          (ok l.0) l.2 in
      let (counted, own, formed) = three _ _ _ g.0 in
      subst (λ y. (y.session ≡ session) × IsSaved session (at s session) y) (ok_injective g.1)
        (
          (=?_iff _ _).0 own,
          subst (λ o. IsSaved session o l.0) (sym stored)
              (map_err-eq-ok invalid_snapshot _ l.1, (==_iff _ _).0 counted),
        )
  restored-IsSaved session s (err e) {x = x} h k = elim (Bool-cases (is_not_found e)) [
    | inl missing ↦
        let (b, same, code) = missing_code e missing in
        let absent =
          storage.read_missing s (record { session = session; key = record_key })
            (h ∙ ap (λ q. err q) same) code in
        let is = restored_as (is_not_found e) e missing k in
        (ap (λ y. y.session) (sym is), subst (λ o. IsSaved session o x) (sym absent) (sym is))
    | inr other ↦ absurd (refused_as session (is_not_found e) e other k)
  ]

  load-IsSaved :
      (session : Text) (s : S) {x : SessionSnapshot}
      → load storage resource encode decode session s ≡ ok x
      → (x.session ≡ session) × IsSaved session (at s session) x
  unfolding load
  load-IsSaved session s h = restored-IsSaved session s _ refl h

  away : {k session : Text} → (k =? session) ≡ false → k ≢ session
  away {k = k} {session = session} miss e = false_ne (sym miss ∙ (=?_iff k session).1 e)
    where
      false_ne : false ≢ true
      false_ne h = cc

  inserted :
      (live : Sessions) (s : S) (session : Text) (x : SessionSnapshot)
      → x.session ≡ session
      → IsSaved session (at s session) x
      → ((k : Text) (y : SessionSnapshot)
          → k ≢ session
          → get k live ≡ some y
          → (y.session ≡ k) × IsSaved k (at s k) y)
      → IsSynced (insert session x live, s)
  inserted live s session x own saved others k y h = elim (Bool-cases (k =? session)) [
    | inl hit ↦
        let same = (=?_iff k session).0 hit in
        let it : x ≡ y = ground (arith, get-insert session k x live, hit, h) in
        subst (λ z. (z.session ≡ k) × IsSaved k (at s k) z) it
          (subst (λ i. (x.session ≡ i) × IsSaved i (at s i) x) (sym same) (own, saved))
    | inr miss ↦ others k y (away miss) (ground (arith, get-insert session k x live, miss, h))
  ]

  restore-IsSynced :
      (session : Text) (live : Sessions) (s : S) (r : CallResult SessionSnapshot)
      → load storage resource encode decode session s ≡ r
      → IsSynced (live, s)
      → IsSynced (restore storage resource encode decode session r (live, s)).1
  restore-IsSynced session live s (ok x) h synced =
      let (own, saved) = load-IsSaved session s h in
      inserted live s session x own saved (λ k y n found. synced k y found)
  restore-IsSynced session live s (err e) h synced = synced

  current-IsSynced :
      (session : Text) (live : Sessions) (s : S) (found : Option SessionSnapshot)
      → IsSynced (live, s)
      → IsSynced (current_or storage resource encode decode session found (live, s)).1
  current-IsSynced session live s (some x) synced = synced
  current-IsSynced session live s none synced =
      restore-IsSynced session live s (load storage resource encode decode session s) refl synced

  restore-own :
      (session : Text) (live : Sessions) (s : S) (r : CallResult SessionSnapshot)
      {x : SessionSnapshot}
      → load storage resource encode decode session s ≡ r
      → (restore storage resource encode decode session r (live, s)).0 ≡ ok x
      → x.session ≡ session
  restore-own session live s (ok y) h k = (load-IsSaved session s (h ∙ k)).0
  restore-own session live s (err e) h k = cc

  current-own :
      (session : Text) (live : Sessions) (s : S) (found : Option SessionSnapshot)
      {x : SessionSnapshot}
      → IsSynced (live, s)
      → get session live ≡ found
      → (current_or storage resource encode decode session found (live, s)).0 ≡ ok x
      → x.session ≡ session
  current-own session live s (some y) synced h k =
      (synced session _ (h ∙ ap (λ z. some z) (ok_injective k))).0
  current-own session live s none synced h k =
      restore-own session live s (load storage resource encode decode session s) refl k

  -- A commit touches no other session, however it ends, and what it answers is stored.
  abbrev pub OthersSame : S → Text → S → Type 0
  OthersSame s session s' = (k : Text) → k ≢ session → at s' k ≡ at s k

  transact-others :
      (session : Text) (expected : ℕ) (content : Text) (s : S) (r : CallResult ℕ) {s' : S}
      → transact_one storage session record_key expected content s ≡ (r, s')
      → OthersSame s session s'
  transact-others session expected content s (ok n) h k far =
      (transact_one-ok storage session record_key expected content s h).others k record_key
        (inl far)
  transact-others session expected content s (err (domain e)) h k far =
      transact_one-domain storage session record_key expected content s h k record_key
  transact-others session expected content s (err (kernel f)) h k far =
      elim (transact_one-kernel storage session record_key expected content s h) [
        | inl same ↦ same k record_key
        | inr commit ↦ commit.others k record_key (inl far)
      ]

  abbrev pub Committed : SessionSnapshot → CallResult SessionSnapshot → S → Type 0
  Committed x (ok y) s' =
      (y.session ≡ x.session)
      × (y.revision ≡ x.revision + 1)
      × IsSaved x.session (at s' x.session) y
  Committed x (err e) s' = Unit {0}

  abbrev pub Effect : SessionSnapshot → S → CallResult SessionSnapshot × S → Type 0
  Effect x s q = OthersSame s x.session q.1 × Committed x q.0 q.1

  none_some : {y : SessionSnapshot} → ◌≢◌ {A = Option SessionSnapshot} none (some y)
  none_some h = cc

  pub commit-effect :
      RoundTrips encode decode
      → (x : SessionSnapshot) (s : S) (r : CallResult SessionSnapshot) {s' : S}
      → commit storage resource encode decode x s ≡ (r, s')
      → OthersSame s x.session s' × Committed x r s'
  unfolding commit
  commit-effect round x s r h =
      elim (lift-ends
        (ok_or (checked_add x.revision 1) (domain (error conflict "session revision overflow"))) _ s
        h) [
          | inr (e, f, g) ↦ subst (Effect x s) g (λ k far. refl, tt)
          | inl (revision, f, g) ↦
              let next : SessionSnapshot = record x { revision = revision } in
              elim (lift-ends (map_err kernel (encode next)) _ s g) [
                | inr (e, f1, g1) ↦ subst (Effect x s) g1 (λ k far. refl, tt)
                | inl (content, f1, g1) ↦
                    let sent = transact_one storage x.session record_key x.revision content s in
                    elim (continue-ends sent.0 _ sent.1 g1) [
                      | inr (e, f2, g2) ↦ subst (Effect x s) g2 (
                        transact-others x.session x.revision content s (err e)
                            (ends-eq sent f2 refl),
                        tt,
                      )
                      | inl (n, f2, g2) ↦
                          let is = ends-eq sent f2 refl in
                          let commit =
                            transact_one-ok storage x.session record_key x.revision content s is in
                          let counted = checked_add-eq-some x.revision 1 (ok_or-eq-ok _ _ f) in
                          subst (Effect x s) g2 (
                            transact-others x.session x.revision content s (ok n) is,
                            (
                              refl,
                              counted,
                              subst (λ o. IsSaved x.session o next) (sym commit.stored)
                                  (
                                    round next content (map_err-eq-ok kernel (encode next) f1),
                                    counted,
                                  ),
                            ),
                          )
                    ]
              ]
        ]

  settle-IsSynced :
      (live : Sessions) (s : S) (x : SessionSnapshot) (r : CallResult SessionSnapshot) (s' : S)
      → IsSynced (live, s)
      → OthersSame s x.session s' × Committed x r s'
      → IsSynced (settle storage resource encode decode x.session live (r, s')).1
  settle-IsSynced live s x (ok y) s' synced effect =
      subst (λ i. IsSynced (insert i y live, s')) (sym effect.1.0)
        (inserted live s' x.session y effect.1.0 effect.1.2 (λ k z far found.
          let held = synced k z found in
          (held.0, subst (λ o. IsSaved k o z) (sym (effect.0 k far)) held.1)))
  settle-IsSynced live s x (err e) s' synced effect = λ k y h. elim (Bool-cases (k =? x.session)) [
    | inl hit ↦ absurd (none_some {y = y} (ground (arith, get-remove x.session k live, hit, h)))
    | inr miss ↦
        let held = synced k y (ground (arith, get-remove x.session k live, miss, h)) in
        (held.0, subst (λ o. IsSaved k o y) (sym (effect.0 k (away miss))) held.1)
  ]

  commit_live-IsSynced :
      RoundTrips encode decode
      → (session : Text) (x : SessionSnapshot) (w : Sessions × S) → x.session ≡ session
      → IsSynced w
      → IsSynced (commit_live storage resource encode decode session x w).1
  unfolding commit_live
  commit_live-IsSynced round session x w own synced =
      let ended = commit storage resource encode decode x w.1 in
      subst (λ i. IsSynced (settle storage resource encode decode i w.0 ended).1) own
        (settle-IsSynced w.0 w.1 x ended.0 ended.1 synced (commit-effect round x w.1 ended.0 refl))

  -- A call of the plugin.
  pub data Request : Type 0 where
    opens : Text → Request
    checkpoints : SessionSnapshot → Request
    reconciles : ReconcileTool → Request

  unfoldable pub handle : Request → Call (Sessions × S) SessionSnapshot
  handle (opens session) = open_session storage resource encode decode session
  handle (checkpoints x) = checkpoint_session storage resource encode decode x
  handle (reconciles r) = reconcile_session storage resource encode decode r

  current_keeps :
      (session : Text) (w : Sessions × S)
      → IsSynced w
      → IsSynced (current storage resource encode decode session w).1
  unfolding current
  current_keeps session w synced = current-IsSynced session w.0 w.1 (get session w.0) synced

  pub current_own :
      (session : Text) (w : Sessions × S) {x : SessionSnapshot}
      → IsSynced w
      → (current storage resource encode decode session w).0 ≡ ok x
      → x.session ≡ session
  unfolding current
  current_own session w synced h = current-own session w.0 w.1 (get session w.0) synced refl h

  -- Whatever a call of the plugin is and however it ends, the live sessions agree with the storage
  -- afterwards if they did before: each is under its own identity, and is the snapshot that is
  -- stored, with its revision. A commit that fails, also one whose outcome is not known, leaves no
  -- live snapshot that the storage does not hold. The codec of snapshots decodes what it encoded.
  pub handle-IsSynced :
      (round : RoundTrips encode decode) (request : Request) (w : Sessions × S)
      → IsSynced w
      → IsSynced (handle request w).1
  unfolding handle open_session checkpoint_session reconcile_session
  handle-IsSynced round (opens session) w synced =
      continue-keeps IsSynced (check_session resource session) _ w synced
        (λ u h. current_keeps session w synced)
  handle-IsSynced round (checkpoints x) w synced =
      continue-keeps IsSynced (check_session resource x.session) _ w synced λ u h.
        let (r, w') = current storage resource encode decode x.session w in
        let synced' = current_keeps x.session w synced in
        continue-keeps IsSynced r _ w' synced' λ prior h1.
          continue-keeps IsSynced (guard (x.revision == prior.revision) _) _ w' synced' λ u1 h2.
            continue-keeps IsSynced
              (guard (not (is_indeterminate prior.status && not (is_indeterminate x.status))) _) _
              w' synced'
              λ u2 h3.
                continue-keeps IsSynced (guard (well_formed_snapshot x) _) _ w' synced'
                  λ u3 h4. commit_live-IsSynced round x.session x w' refl synced'
  handle-IsSynced round (reconciles r) w synced =
      continue-keeps IsSynced (check_session resource r.session) _ w synced λ u h.
        let (found, w') = current storage resource encode decode r.session w in
        let synced' = current_keeps r.session w synced in
        continue-keeps IsSynced found _ w' synced' λ prior h1.
          continue-keeps IsSynced (map_err domain (reconcile_snapshot prior r)) _ w' synced'
            λ next h2.
              let is = reconcile_snapshot-IsReconciled prior r (map_err-eq-ok domain _ h2) in
              commit_live-IsSynced round r.session next w' (is.same_run.1 ∙ is.same_session) synced'
