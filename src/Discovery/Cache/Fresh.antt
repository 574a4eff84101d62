-- ===== src/Discovery/Cache/Fresh.antt =====
-- What `view` shows after a refresh and after a failed one.
use phenix_ai.Prelude.{
  ℕ, ◌+◌, ◌≤◌, ◌<◌, ◌≡◌, ◌≢◌, refl, sym, ap, subst, ◌∙◌, ◌⊎◌, inl, inr, Bool, true, false, not,
  ◌&&◌, Option, none, some, List, ltb, leb, ◌==◌, arith, if◌then◌else◌, Option-cases, Bool-cases,
}
use phenix_ai.Prelude.Order.{◌=?◌, =?_iff}
use phenix_ai.Prelude.Map.{get, insert, get-insert, get-insert_self, get-insert_ne, get-All_key}
use phenix_ai.Prelude.Chars.{none_or}
use phenix_ai.Contract.Failure.{ok}
use phenix_ai.Discovery.Cache.{
  CatalogPage, CacheKey, key_ord, CachePolicy, Snapshot, CatalogCache, CatalogView, Freshness,
  fresh, stale, max_dynamic_ttl_seconds, outdated, is_dynamic, is_fresh, expiry, put, view,
  mark_stale,
}
use phenix_ai.Discovery.Cache.Put.{
  Accepted, put-Accepted, refreshed, mark_stale_absent, mark_stale_present,
}
use phenix_ai.Discovery.Cache.Valid.{IsValid, IsEntry, IsTimed}

-- What is shown of a stored snapshot.
abbrev pub shown : ℕ → ℕ → Snapshot → CatalogView
shown now credential_revision entry = record {
  page = entry.page;
  checked_at = entry.checked_at;
  revision = entry.revision;
  freshness = if is_fresh now credential_revision entry then fresh else stale;
}

abbrev shown_of : ℕ → ℕ → Option Snapshot → Option CatalogView
shown_of now credential none = none
shown_of now credential (some entry) = some (shown now credential entry)

view-get :
    (key : CacheKey) (now credential : ℕ) (cache : CatalogCache)
    → view key now credential cache ≡ shown_of now credential (get key cache.entries)
unfolding view
view-get key now credential cache = elim (Option-cases (get key cache.entries)) [
  | inl absent ↦ rw (absent, view)
  | inr (old, present) ↦ rw (present, view)
]

-- In a valid cache, a refresh that is accepted is newer than the snapshot that it replaces: its
-- time and its credential are not older and, if its policy is dynamic, not both the same; its
-- revision is greater.
pub put_newer :
    (key : CacheKey) (checked_at credential_revision : ℕ) (policy : CachePolicy)
    (page : CatalogPage) (cache cache' : CatalogCache) (revision : ℕ) (old : Snapshot)
    → IsValid cache
    → put key checked_at credential_revision policy page cache ≡ ok (revision, cache')
    → get key cache.entries ≡ some old
    → (old.checked_at ≤ checked_at)
      × (old.credential_revision ≤ credential_revision)
      × (is_dynamic policy ≡ true
          → (old.checked_at < checked_at) ⊎ (old.credential_revision < credential_revision))
      × (old.revision < revision)
unfolding outdated
put_newer key checked_at credential_revision policy page cache cache' revision old v h found =
    let a = put-Accepted key checked_at credential_revision policy page cache cache' revision h in
    let current : not (outdated policy checked_at credential_revision (some old)) ≡ true =
      subst (λ o. not (outdated policy checked_at credential_revision o) ≡ true) found a.current in
    let e = get-All_key (IsEntry cache.next_revision) key cache.entries old v.entries found in
    (
      ground arith,
      ground arith,
      (λ d. elim (Bool-cases (ltb old.checked_at checked_at)) [
        | inl later ↦ inl (ground arith)
        | inr same ↦ inr (ground arith)
      ]),
      omega (arith, a.next, e.revised),
    )

-- After an accepted refresh, every view of its key shows the refreshed page under the new revision,
-- fresh exactly for the credential that it was made with, from the time of the refresh until its
-- expiry; what the other keys show is as before.
pub put-view :
    (key : CacheKey) (checked_at credential_revision : ℕ) (policy : CachePolicy)
    (page : CatalogPage) (cache cache' : CatalogCache) (revision : ℕ)
    → put key checked_at credential_revision policy page cache ≡ ok (revision, cache')
    → (at : Option ℕ) × (expiry key checked_at policy ≡ ok at)
      × ((now credential : ℕ)
          → view key now credential cache'
            ≡ some (record {
              page = page;
              checked_at = checked_at;
              revision = revision;
              freshness =
                  if credential == credential_revision && leb checked_at now && none_or (ltb now) at
                  then fresh
                  else stale;
            }))
      × ((other : CacheKey) (now credential : ℕ)
          → other ≢ key
          → view other now credential cache' ≡ view other now credential cache)
unfolding view is_fresh
put-view key checked_at credential_revision policy page cache cache' revision h =
    let a = put-Accepted key checked_at credential_revision policy page cache cache' revision h in
    let s = refreshed key checked_at credential_revision policy page revision a.expires_at in
    (
      a.expires_at,
      a.expires,
      (λ now credential. rw a.result (
          view-get key now credential (stored a)
          ∙ ap (shown_of now credential) (get-insert_self key s cache.entries))),
      (λ other now credential ne. rw a.result (
          view-get other now credential (stored a)
          ∙ ap (shown_of now credential) (get-insert_ne key other s cache.entries ne)
          ∙ sym (view-get other now credential cache))),
    )
  where
    stored :
        Accepted key checked_at credential_revision policy page cache cache' revision → CatalogCache
    stored a = record {
      entries =
          insert key
            (refreshed key checked_at credential_revision policy page revision a.expires_at)
            cache.entries;
      next_revision = revision;
    }

-- The view of a snapshot that is marked, or of another one.
abbrev pub staled : Bool → Option CatalogView → Option CatalogView
staled marked none = none
staled marked (some seen) = some (if marked then record seen { freshness = stale } else seen)

staled_other : (o : Option CatalogView) → o ≡ staled false o
staled_other none = refl
staled_other (some seen) = refl

-- After a snapshot is marked stale, the views of its key, if it has one, show it as before but
-- stale, at every time and for every credential; the other keys show what they did.
pub mark_stale-view :
    (key other : CacheKey) (cache : CatalogCache) (now credential : ℕ)
    → view other now credential (mark_stale key cache).1
      ≡ staled (other =? key) (view other now credential cache)
unfolding is_fresh
mark_stale-view key other cache now credential = elim (Bool-cases (other =? key)) [
  | inr different ↦ rw different (
      kept different (Option-cases (get key cache.entries))
      ∙ staled_other (view other now credential cache))
  | inl same ↦ hit same (Option-cases (get key cache.entries))
]
  where
    marked : Snapshot → CatalogCache
    marked old = record cache {
      entries = insert key (record old { invalidated = true }) cache.entries;
    }

    kept :
        (other =? key) ≡ false
        → (get key cache.entries ≡ none) ⊎ ((old : Snapshot) × (get key cache.entries ≡ some old))
        → view other now credential (mark_stale key cache).1 ≡ view other now credential cache
    kept different (inl absent) = rw (mark_stale_absent key cache absent)
    kept different (inr (old, present)) = rw (mark_stale_present key cache present) (
        view-get other now credential (marked old)
        ∙ ap (shown_of now credential)
            (get-insert key other (record old { invalidated = true }) cache.entries ∙ rw different)
        ∙ sym (view-get other now credential cache))

    hit :
        (other =? key) ≡ true
        → (get key cache.entries ≡ none) ⊎ ((old : Snapshot) × (get key cache.entries ≡ some old))
        → view other now credential (mark_stale key cache).1
          ≡ staled (other =? key) (view other now credential cache)
    hit same (inl absent) =
        let here : get other cache.entries ≡ none =
          subst (λ k. get k cache.entries ≡ none) (sym ((=?_iff other key).0 same)) absent in
        rw (mark_stale_absent key cache absent, view-get other now credential cache, here)
    hit same (inr (old, present)) =
        let here : get other cache.entries ≡ some old =
          subst (λ k. get k cache.entries ≡ some old) (sym ((=?_iff other key).0 same)) present in
        let found : get other (marked old).entries ≡ some (record old { invalidated = true }) =
          get-insert key other (record old { invalidated = true }) cache.entries ∙ rw same in
        rw (mark_stale_present key cache present) (
          view-get other now credential (marked old)
          ∙ rw (found, view-get other now credential cache, here, same))

-- In a valid cache, what a connection with a profile shows as fresh was checked at or before the
-- present time and less than a day before it.
pub fresh_within_day :
    (cache : CatalogCache) (key : CacheKey) (now credential : ℕ) (profile : List ℕ)
    (seen : CatalogView)
    → IsValid cache
    → key.profile_id ≡ some profile
    → view key now credential cache ≡ some seen
    → seen.freshness ≡ fresh
    → (seen.checked_at ≤ now) × (now < seen.checked_at + max_dynamic_ttl_seconds)
unfolding view is_fresh
fresh_within_day cache key now credential profile seen v p h f =
    elim (Option-cases (get key cache.entries)) [
      | inl absent ↦ absurd (ground (arith, view-get key now credential cache, absent, h))
      | inr (old, present) ↦
          let same : ◌≡◌ {A = Option CatalogView} (some (shown now credential old)) (some seen) =
            ap (shown_of now credential) (sym present)
            ∙ sym (view-get key now credential cache)
            ∙ h in
          let timed =
            (get-All_key (IsEntry cache.next_revision) key cache.entries old v.entries
              present).timed in
          let eq : shown now credential old ≡ seen = cc in
          subst
            (λ (w : CatalogView).
              (w.checked_at ≤ now) × (now < w.checked_at + max_dynamic_ttl_seconds))
            eq (live old timed (ap (λ (w : CatalogView). w.freshness) eq ∙ f))
    ]
  where
    live :
        (old : Snapshot)
        → IsTimed key old.checked_at old.expires_at
        → ◌≡◌ {A = Freshness} (if is_fresh now credential old then fresh else stale) fresh
        → (old.checked_at ≤ now) × (now < old.checked_at + max_dynamic_ttl_seconds)
    live old timed h = elim (Option-cases old.expires_at) [
      | inl never ↦
          let none_here : key.profile_id ≡ none = subst (IsTimed key old.checked_at) never timed in
          absurd cc
      | inr (at, e) ↦
          let bound = subst (IsTimed key old.checked_at) e timed in
          let open_now : (if not old.invalidated
                  && credential == old.credential_revision
                  && leb old.checked_at now
                  && ltb now at
                then fresh
                else stale)
              ≡ fresh =
            subst
              (λ x.
                ◌≡◌ {A = Freshness}
                  (if not old.invalidated
                      && credential == old.credential_revision
                      && leb old.checked_at now
                      && none_or (ltb now) x
                    then fresh
                    else stale)
                  fresh)
              e h in
          ground (arith, bound.0, open_now)
    ]
