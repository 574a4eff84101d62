-- ===== src/Discovery/Cache/Valid.antt =====
-- The invariant of the cache, and every state that its operations reach.
use phenix_ai.Prelude.{
  ℕ, ◌+◌, ◌≤◌, ◌<◌, ◌≡◌, sym, subst, true, not, ◌&&◌, Option, none, some, [], leb, length, is_some,
  arith, All, All-map, u64_max, checked_add, Option-cases, inl, inr,
}
use phenix_ai.Prelude.Map.{
  Map, IsSorted, get, insert, insert-IsSorted, remove-IsSorted, insert-All, remove-All, get-All_key,
  length-insert-le, length-insert_present, length-remove-le,
}
use phenix_ai.Contract.Failure.{ok}
use phenix_ai.Discovery.Cache.{
  CatalogPage, CacheKey, key_ord, CachePolicy, local_declared, dynamic, Snapshot, CatalogCache,
  max_cached_identities, max_dynamic_ttl_seconds, valid, validate_page, expiry, put, mark_stale,
  purge,
}
use phenix_ai.Discovery.Cache.Put.{put-Accepted, refreshed, mark_stale_absent, mark_stale_present}

-- A snapshot expires within a day of its refresh, and one that never does has no profile.
abbrev pub IsTimed : CacheKey → ℕ → Option ℕ → Type 0
IsTimed key checked_at none = key.profile_id ≡ none
IsTimed key checked_at (some at) =
    (at ≤ checked_at + max_dynamic_ttl_seconds) × (checked_at < at) × (at ≤ u64_max)

pub record IsEntry (last : ℕ) (e : CacheKey × Snapshot) : Type 0 where
  pub identity : valid e.0 ≡ true
  pub checked : validate_page e.1.page ≡ ok tt
  pub revised : e.1.revision ≤ last
  pub timed : IsTimed e.0 e.1.checked_at e.1.expires_at

pub record IsValid (cache : CatalogCache) : Type 0 where
  pub sorted : IsSorted cache.entries
  pub bounded : length cache.entries ≤ max_cached_identities
  pub entries : All (IsEntry cache.next_revision) cache.entries
  pub numbered : cache.next_revision ≤ u64_max

expiry-IsTimed :
    (key : CacheKey) (checked_at : ℕ) (policy : CachePolicy) (at : Option ℕ)
    → expiry key checked_at policy ≡ ok at
    → IsTimed key checked_at at
unfolding expiry checked_add
expiry-IsTimed key checked_at local_declared none h = ground arith
expiry-IsTimed key checked_at local_declared (some at) h = ground arith
expiry-IsTimed key checked_at (dynamic ttl_seconds) none h = ground arith
expiry-IsTimed key checked_at (dynamic ttl_seconds) (some at) h = ground arith

length-insert_room :
    (key : CacheKey) (s : Snapshot) (m : Map CacheKey Snapshot)
    → IsSorted m
    → length m ≤ max_cached_identities
    → not (leb max_cached_identities (length m) && not (is_some (get key m))) ≡ true
    → length (insert key s m) ≤ max_cached_identities
length-insert_room key s m sorted bounded room = elim (Option-cases (get key m)) [
  | inl absent ↦ ground (arith, length-insert-le key s m)
  | inr (old, present) ↦ omega (arith, length-insert_present key s old m sorted present)
]

IsEntry-later : (n : ℕ) (e : CacheKey × Snapshot) → IsEntry n e → IsEntry (n + 1) e
IsEntry-later n e h = record {
  identity = h.identity;
  checked = h.checked;
  revised = omega (arith, h.revised);
  timed = h.timed;
}

put-IsValid :
    (key : CacheKey) (checked_at credential_revision : ℕ) (policy : CachePolicy)
    (page : CatalogPage) (cache cache' : CatalogCache) (revision : ℕ)
    → IsValid cache
    → put key checked_at credential_revision policy page cache ≡ ok (revision, cache')
    → IsValid cache'
put-IsValid key checked_at credential_revision policy page cache cache' revision v h =
    let a = put-Accepted key checked_at credential_revision policy page cache cache' revision h in
    let s = refreshed key checked_at credential_revision policy page revision a.expires_at in
    let entry : IsEntry revision (key, s) = record {
      identity = a.identity;
      checked = a.checked;
      revised = omega arith;
      timed = expiry-IsTimed key checked_at policy a.expires_at a.expires;
    } in
    let older : All (IsEntry revision) cache.entries =
      subst (λ n. All (IsEntry n) cache.entries) (sym a.next)
        (All-map (IsEntry cache.next_revision) (IsEntry (cache.next_revision + 1)) cache.entries
          (IsEntry-later cache.next_revision) v.entries) in
    subst IsValid (sym a.result) (record {
      sorted = insert-IsSorted key s cache.entries v.sorted;
      bounded = length-insert_room key s cache.entries v.sorted v.bounded a.room;
      entries = insert-All (IsEntry revision) key s cache.entries entry older;
      numbered = omega (arith, a.next, a.below);
    })

mark_stale-IsValid :
    (key : CacheKey) (cache : CatalogCache) → IsValid cache → IsValid (mark_stale key cache).1
mark_stale-IsValid key cache v = elim (Option-cases (get key cache.entries)) [
  | inl absent ↦ rw (mark_stale_absent key cache absent) v
  | inr (old, present) ↦
      let e = get-All_key (IsEntry cache.next_revision) key cache.entries old v.entries present in
      let s : Snapshot = record old { invalidated = true } in
      let held : IsValid (record cache { entries = insert key s cache.entries }) = record {
        sorted = insert-IsSorted key s cache.entries v.sorted;
        bounded =
            omega
              (arith, v.bounded, length-insert_present key s old cache.entries v.sorted present);
        entries =
            insert-All (IsEntry cache.next_revision) key s cache.entries
              (record {
                identity = e.identity;
                checked = e.checked;
                revised = e.revised;
                timed = e.timed;
              })
              v.entries;
        numbered = v.numbered;
      } in
      rw (mark_stale_present key cache present) held
]

purge-IsValid :
    (key : CacheKey) (cache : CatalogCache) → IsValid cache → IsValid (purge key cache).1
unfolding purge
purge-IsValid key cache v = record {
  sorted = remove-IsSorted key cache.entries v.sorted;
  bounded = omega (arith, v.bounded, length-remove-le key cache.entries);
  entries = remove-All (IsEntry cache.next_revision) key cache.entries v.entries;
  numbered = v.numbered;
}

-- One call that changes the cache; a `put` that fails changes nothing.
pub data Step : CatalogCache → CatalogCache → Type 0 where
  putting :
      (key : CacheKey) (checked_at credential_revision : ℕ) (policy : CachePolicy)
      (page : CatalogPage) (cache cache' : CatalogCache) (revision : ℕ)
      → put key checked_at credential_revision policy page cache ≡ ok (revision, cache')
      → Step cache cache'
  marking : (key : CacheKey) (cache : CatalogCache) → Step cache (mark_stale key cache).1
  purging : (key : CacheKey) (cache : CatalogCache) → Step cache (purge key cache).1

abbrev pub new_cache : CatalogCache
new_cache = record { entries = []; next_revision = 0 }

pub data Reachable : CatalogCache → Type 0 where
  created : Reachable new_cache
  called : {cache cache' : CatalogCache} → Reachable cache → Step cache cache' → Reachable cache'

Step-IsValid : {cache cache' : CatalogCache} → Step cache cache' → IsValid cache → IsValid cache'
Step-IsValid (putting k t c p page cache cache' n h) v = put-IsValid k t c p page cache cache' n v h
Step-IsValid (marking key cache) v = mark_stale-IsValid key cache v
Step-IsValid (purging key cache) v = purge-IsValid key cache v

-- Every cache that calls of put, mark_stale and purge make from the empty one holds at most 512
-- snapshots, in the order of their keys, under valid identities, each with a validated page, a
-- revision that has been given out, and an expiry time within a day of its refresh; only a
-- connection without a profile has a snapshot that does not expire.
pub Reachable-IsValid : {cache : CatalogCache} → Reachable cache → IsValid cache
Reachable-IsValid created = record {
  sorted = tt;
  bounded = omega arith;
  entries = tt;
  numbered = omega arith;
}
Reachable-IsValid (called r s) = Step-IsValid s (Reachable-IsValid r)
