-- ===== src/Discovery/Cache/Put.antt =====
-- A `put` that succeeds: the checks that it has passed, and the cache that it leaves.
use phenix_ai.Prelude.{
  ℕ, ◌+◌, ◌<◌, ◌≡◌, ap, sym, subst, true, false, not, ◌&&◌, Option, none, some, leb, length,
  is_some, arith, u64_max, checked_add, checked_add-eq-some, checked_add-lt,
}
use phenix_ai.Prelude.Map.{get, insert}
use phenix_ai.Contract.Failure.{ok, ok_or, >>=-eq-ok, guard-eq-ok, ok_or-eq-ok, ok_injective}
use phenix_ai.Discovery.Cache.{
  CatalogPage, CacheKey, key_ord, CachePolicy, Snapshot, CatalogCache, revision_overflow,
  max_cached_identities, valid, validate_page, outdated, expiry, put, mark_stale,
}

module _ (key : CacheKey) (checked_at credential_revision : ℕ) (policy : CachePolicy)
    (page : CatalogPage) where
  -- The snapshot that a refresh stores.
  abbrev pub refreshed : ℕ → Option ℕ → Snapshot
  refreshed revision expires_at = record {
    page = page;
    checked_at = checked_at;
    expires_at = expires_at;
    credential_revision = credential_revision;
    revision = revision;
    invalidated = false;
  }

  pub record Accepted (cache cache' : CatalogCache) (revision : ℕ) : Type 0 where
    pub expires_at : Option ℕ
    pub identity : valid key ≡ true
    pub checked : validate_page page ≡ ok tt
    pub current :
        not (outdated policy checked_at credential_revision (get key cache.entries)) ≡ true
    pub room :
        not (
          leb max_cached_identities (length cache.entries) && not (is_some (get key cache.entries)))
        ≡ true
    pub expires : expiry key checked_at policy ≡ ok expires_at
    pub next : revision ≡ cache.next_revision + 1
    pub below : cache.next_revision < u64_max
    pub result : cache' ≡ record {
      entries = insert key (refreshed revision expires_at) cache.entries;
      next_revision = revision;
    }

  pub put-Accepted :
      (cache cache' : CatalogCache) (revision : ℕ)
      → put key checked_at credential_revision policy page cache ≡ ok (revision, cache')
      → Accepted cache cache' revision
  unfolding put
  put-Accepted cache cache' revision h =
      let (a, h1) = guard-eq-ok (valid key) _ _ h in
      let (_, b, h2) = >>=-eq-ok (validate_page page) _ h1 in
      let (c, h3) =
        guard-eq-ok (not (outdated policy checked_at credential_revision (get key cache.entries))) _
          _ h2 in
      let (d, h4) =
        guard-eq-ok
          (not (
            leb max_cached_identities (length cache.entries)
            && not (is_some (get key cache.entries))))
          _ _ h3 in
      let (e, f, h5) = >>=-eq-ok (expiry key checked_at policy) _ h4 in
      let (n, g, h6) =
        >>=-eq-ok (ok_or (checked_add cache.next_revision 1) revision_overflow) _ h5 in
      let r = ok_or-eq-ok (checked_add cache.next_revision 1) _ g in
      let same : n ≡ revision = ap (λ (p : ℕ × CatalogCache). p.0) (ok_injective h6) in
      record {
        expires_at = e;
        identity = a;
        checked = b;
        current = c;
        room = d;
        expires = f;
        next = omega (arith, same, checked_add-eq-some cache.next_revision 1 r);
        below = checked_add-lt cache.next_revision r;
        result =
            subst
              (λ m.
                cache'
                ≡ record { entries = insert key (refreshed m e) cache.entries; next_revision = m })
              same (sym (ap (λ (p : ℕ × CatalogCache). p.1) (ok_injective h6)));
      }

pub mark_stale_absent :
    (key : CacheKey) (cache : CatalogCache)
    → get key cache.entries ≡ none
    → mark_stale key cache ≡ (false, cache)
unfolding mark_stale
mark_stale_absent key cache h = rw (h, mark_stale)

pub mark_stale_present :
    (key : CacheKey) (cache : CatalogCache) {old : Snapshot}
    → get key cache.entries ≡ some old
    → mark_stale key cache ≡ (
      true,
      record cache { entries = insert key (record old { invalidated = true }) cache.entries },
    )
unfolding mark_stale
mark_stale_present key cache h = rw (h, mark_stale)
