-- ===== src/Basic/Session/Answers.antt =====
-- What the handlers of the session plugin answer (crates/phenix-plugin-basic-session/src/lib.rs).
use phenix_ai.Prelude.{
  ℕ, ◌+◌, ◌≡◌, refl, sym, ap, subst, ◌∙◌, inl, inr, Bool, true, false, not, ◌&&◌, Option, none,
  some, [], ◌==◌, ==_iff, arith, checked_add,
}
use phenix_ai.Prelude.Order.{Text, text_ord, =?_iff}
use phenix_ai.Prelude.Map.{get}
use phenix_ai.Contract.Failure
use phenix_ai.Contract.Failure.{Failure, Result, ok, err, guard, ok_or, ok_injective}
use phenix_ai.Basic.Errors.{
  BasicError, CallError, domain, kernel, CallResult, map_err, map_err-eq-ok, error, check_session,
  conflict, not_found,
}
use phenix_ai.Basic.Call.{continue, lift-ends, continue-ends, ends-ne, ends-ok}
use phenix_ai.Basic.Storage.{StoredRecord, Storage, RoundTrips, transact_one}
use phenix_ai.Basic.Session.{
  RunStatus, run_indeterminate, SessionSnapshot, ReconcileTool, well_formed_snapshot, empty,
  reconcile_snapshot, is_indeterminate,
}
use phenix_ai.Basic.Session.Reconcile.{all_three, IsReconciled, reconcile_snapshot-IsReconciled}
use phenix_ai.Basic.Session.Plugin.{
  record_key, Sessions, restored, load, current, commit, settle, commit_live, open_session,
  checkpoint_session, reconcile_session,
}
use phenix_ai.Basic.Session.Synced.{IsSaved, IsSynced, at, commit-effect}

guard-true : (b : Bool) (e : CallError) {u : Unit {0}} → guard b e ≡ ok u → b ≡ true
guard-true true e h = refl
guard-true false e h = cc

stays_stopped :
    (p x : RunStatus)
    → not (is_indeterminate p && not (is_indeterminate x)) ≡ true
    → p ≡ run_indeterminate
    → x ≡ run_indeterminate
stays_stopped p x h k = ground arith

module _ {S : Type 0} (storage : Storage S) (resource : Result Failure (Option Text))
    (encode : SessionSnapshot → Result Failure Text)
    (decode : Text → Result Failure SessionSnapshot) where
  commit-next :
      (x : SessionSnapshot) (s : S) {y : SessionSnapshot} {s' : S}
      → commit storage resource encode decode x s ≡ (ok y, s')
      → (n : ℕ) × (record x { revision = n } ≡ y)
  unfolding commit
  commit-next x s h =
      elim (lift-ends
        (ok_or (checked_add x.revision 1) (domain (error conflict "session revision overflow"))) _ s
        h) [
          | inr (e, f, g) ↦ absurd (ends-ne g)
          | inl (n, f, g) ↦
              elim (lift-ends (map_err kernel (encode (record x { revision = n }))) _ s g) [
                | inr (e, f1, g1) ↦ absurd (ends-ne g1)
                | inl (content, f1, g1) ↦
                    let sent = transact_one storage x.session record_key x.revision content s in
                    elim (continue-ends sent.0 _ sent.1 g1) [
                      | inr (e, f2, g2) ↦ absurd (ends-ne g2)
                      | inl (m, f2, g2) ↦ (n, (ends-ok g2).0)
                    ]
              ]
        ]

  -- The snapshot that is answered after a commit of `x`: the next revision of it, stored and live.
  pub record IsAnswer (x : SessionSnapshot) (y : SessionSnapshot) (w : Sessions × S) : Type 0 where
    pub next : record x { revision = x.revision + 1 } ≡ y
    pub saved :
        IsSaved storage resource encode decode x.session
          (at storage resource encode decode w.1 x.session)
          y

  settle-IsAnswer :
      RoundTrips encode decode
      → (session : Text) (x : SessionSnapshot) (live : Sessions) (s : S)
        (r : CallResult SessionSnapshot) (s' : S) {y : SessionSnapshot} {w : Sessions × S}
      → commit storage resource encode decode x s ≡ (r, s')
      → settle storage resource encode decode session live (r, s') ≡ (ok y, w)
      → IsAnswer x y w
  settle-IsAnswer round session x live s (ok z) s' {y = y} {w = w} h k =
      let effect = commit-effect storage resource encode decode round x s (ok z) h in
      let (n, is) = commit-next x s h in
      let same = ok_injective (ap (λ q. q.0) k) in
      let counted : n ≡ x.revision + 1 = ap (λ c. c.revision) is ∙ effect.1.1 in
      record {
        next = ap (λ m. record x { revision = m }) (sym counted) ∙ is ∙ same;
        saved =
            subst
              (λ c.
                IsSaved storage resource encode decode x.session
                  (at storage resource encode decode w.1 x.session) c)
              same
              (subst
                (λ t.
                  IsSaved storage resource encode decode x.session
                    (at storage resource encode decode t x.session) z)
                (ap (λ q. q.1.1) k) effect.1.2);
      }
  settle-IsAnswer round session x live s (err e) s' h k = absurd (ends-ne k)

  commit_live-IsAnswer :
      RoundTrips encode decode
      → (session : Text) (x : SessionSnapshot) (w : Sessions × S) {y : SessionSnapshot}
        {w' : Sessions × S}
      → commit_live storage resource encode decode session x w ≡ (ok y, w')
      → IsAnswer x y w'
  unfolding commit_live
  commit_live-IsAnswer round session x w h =
      let ended = commit storage resource encode decode x w.1 in
      settle-IsAnswer round session x w.0 w.1 ended.0 ended.1 refl h

  -- A checkpoint that is answered was made of the current revision of its session and is well
  -- formed; it does not end a session's indeterminate outcome; and the answer is its next revision,
  -- which is what the storage now holds. The codec of snapshots decodes what it encoded.
  pub checkpoint_session-IsAnswer :
      (round : RoundTrips encode decode) (x : SessionSnapshot) (w : Sessions × S)
      {y : SessionSnapshot} {w' : Sessions × S}
      → checkpoint_session storage resource encode decode x w ≡ (ok y, w')
      → (prior : SessionSnapshot) × ((current storage resource encode decode x.session w).0
          ≡ ok prior)
        × (x.revision ≡ prior.revision)
        × (prior.status ≡ run_indeterminate → x.status ≡ run_indeterminate)
        × (well_formed_snapshot x ≡ true)
        × IsAnswer x y w'
  unfolding checkpoint_session
  checkpoint_session-IsAnswer round x w h =
      elim (lift-ends (check_session resource x.session) _ w h) [
        | inr (e, f, g) ↦ absurd (ends-ne g)
        | inl (u, f, g) ↦
            let found = current storage resource encode decode x.session w in
            elim (continue-ends found.0 _ found.1 g) [
              | inr (e, f1, g1) ↦ absurd (ends-ne g1)
              | inl (prior, f1, g1) ↦
                  elim (lift-ends (guard (x.revision == prior.revision) _) _ found.1 g1) [
                    | inr (e, f2, g2) ↦ absurd (ends-ne g2)
                    | inl (u2, f2, g2) ↦
                        elim (lift-ends
                          (guard
                            (not (is_indeterminate prior.status && not (is_indeterminate x.status)))
                            _)
                          _ found.1 g2) [
                            | inr (e, f3, g3) ↦ absurd (ends-ne g3)
                            | inl (u3, f3, g3) ↦
                                elim (lift-ends (guard (well_formed_snapshot x) _) _ found.1 g3) [
                                  | inr (e, f4, g4) ↦ absurd (ends-ne g4)
                                  | inl (u4, f4, g4) ↦ (
                                    prior,
                                    f1,
                                    (==_iff _ _).0 (guard-true _ _ f2),
                                    stays_stopped prior.status x.status (guard-true _ _ f3),
                                    guard-true _ _ f4,
                                    commit_live-IsAnswer round x.session x found.1 g4,
                                  )
                                ]
                          ]
                  ]
            ]
      ]

  -- A reconciliation that is answered is that of the session's current snapshot: it was
  -- indeterminate, one pending call of the given identity is gone from it and its outcome recorded;
  -- and the answer is the next revision of the result, which is what the storage now holds. The
  -- codec of snapshots decodes what it encoded.
  pub reconcile_session-IsAnswer :
      (round : RoundTrips encode decode) (request : ReconcileTool) (w : Sessions × S)
      {y : SessionSnapshot} {w' : Sessions × S}
      → reconcile_session storage resource encode decode request w ≡ (ok y, w')
      → (prior next : SessionSnapshot) × ((current storage resource encode decode request.session
            w).0
          ≡ ok prior)
        × IsReconciled prior request next
        × IsAnswer next y w'
  unfolding reconcile_session
  reconcile_session-IsAnswer round request w h =
      elim (lift-ends (check_session resource request.session) _ w h) [
        | inr (e, f, g) ↦ absurd (ends-ne g)
        | inl (u, f, g) ↦
            let found = current storage resource encode decode request.session w in
            elim (continue-ends found.0 _ found.1 g) [
              | inr (e, f1, g1) ↦ absurd (ends-ne g1)
              | inl (prior, f1, g1) ↦
                  elim (lift-ends (map_err domain (reconcile_snapshot prior request)) _ found.1
                    g1) [
                      | inr (e, f2, g2) ↦ absurd (ends-ne g2)
                      | inl (next, f2, g2) ↦ (
                        prior,
                        next,
                        f1,
                        reconcile_snapshot-IsReconciled prior request (map_err-eq-ok domain _ f2),
                        commit_live-IsAnswer round request.session next found.1 g2,
                      )
                    ]
            ]
      ]

  admitted :
      (b : Bool) (x : SessionSnapshot) (e : CallError)
      → b ≡ true
      → Failure.◌>>◌ (guard b e) (ok x) ≡ ok x
  admitted b x e h = rw h refl

  missing_restored :
      (session : Text) (e : BasicError)
      → e.code ≡ not_found
      → restored storage resource encode decode session (err (domain e)) ≡ ok (empty session)
  missing_restored session e h = rw h refl

  load_saved :
      (session : Text) (s : S) (o : Option StoredRecord) (x : SessionSnapshot)
      → storage.Serves session
      → at storage resource encode decode s session ≡ o
      → IsSaved storage resource encode decode session o x
      → x.session ≡ session
      → well_formed_snapshot x ≡ true
      → load storage resource encode decode session s ≡ ok x
  unfolding load
  load_saved session s none x served h saved own formed =
      let (e, missing, code) =
        storage.read_absent s (record { session = session; key = record_key }) served h in
      rw missing (missing_restored session e code ∙ ap (λ c. ok c) (sym saved))
  load_saved session s (some r) x served h saved own formed =
      rw (storage.read_stored s (record { session = session; key = record_key }) served h, saved.0)
        (admitted _ x _ (
          all_three ((==_iff x.revision r.revision).1 saved.1) ((=?_iff x.session session).1 own)
            formed))

  current_restart :
      (session : Text) (live : Sessions) (s : S) (x : SessionSnapshot)
      → get session live ≡ some x
      → load storage resource encode decode session s ≡ ok x
      → (current storage resource encode decode session (live, s)).0
        ≡ (current storage resource encode decode session ([], s)).0
  unfolding current get
  current_restart session live s x h k = rw (h, k) refl

  gated :
      (session : Text) (live : Sessions) (s : S) (r : CallResult (Unit {0}))
      → (current storage resource encode decode session (live, s)).0
        ≡ (current storage resource encode decode session ([], s)).0
      → (continue (λ u. current storage resource encode decode session) r (live, s)).0
        ≡ (continue (λ u. current storage resource encode decode session) r ([], s)).0
  gated session live s (ok u) h = h
  gated session live s (err e) h = refl

  -- A plugin that starts anew answers as the running one: where the live sessions agree with the
  -- storage and the live snapshot of a session is well formed, opening the session answers the same
  -- with and without the live sessions. The provider authorizes the session.
  pub open_session_restart :
      (session : Text) (live : Sessions) (s : S) (x : SessionSnapshot)
      → storage.Serves session
      → IsSynced storage resource encode decode (live, s)
      → get session live ≡ some x
      → well_formed_snapshot x ≡ true
      → (open_session storage resource encode decode session (live, s)).0
        ≡ (open_session storage resource encode decode session ([], s)).0
  unfolding open_session
  open_session_restart session live s x served synced h formed =
      let (own, saved) = synced session x h in
      gated session live s (check_session resource session) (
        current_restart session live s x h (
          load_saved session s (at storage resource encode decode s session) x served refl saved own
            formed))
