-- ===== src/Discovery/Cache/Examples.antt =====
-- A cache with one connection, refreshed and marked stale, and the theorems at it.
use phenix_ai.Prelude.{
  ℕ, ◌+◌, ◌≤◌, ◌<◌, ◌≡◌, ◌≢◌, ◌⊎◌, refl, true, false, ◌&&◌, Option, none, some, [], ◌∷◌, leb, ltb,
  ◌==◌, if◌then◌else◌, checked_add,
}
use phenix_ai.Prelude.Order.{compare_text, ascii, ◌=?◌}
use phenix_ai.Prelude.Map.{get, insert}
use phenix_ai.Prelude.Chars.{has_control, none_or}
use phenix_ai.Contract.Failure.{ok}
use phenix_ai.Discovery.Cache.{
  CatalogPage, CacheKey, key_ord, dynamic, Snapshot, CatalogCache, CatalogView, fresh, stale,
  max_dynamic_ttl_seconds, valid, valid_id, validate_page, models_size, field_size, outdated,
  is_dynamic, expiry, put, view, is_fresh, mark_stale,
}
use phenix_ai.Discovery.Cache.Valid.{
  IsValid, putting, Reachable, created, called, new_cache, Reachable-IsValid,
}
use phenix_ai.Discovery.Cache.Fresh.{put_newer, put-view, staled, mark_stale-view, fresh_within_day}

abbrev key : CacheKey
key = record {
  scope = ascii "user";
  provider_id = ascii "openai";
  connection_id = ascii "api";
  profile_id = some (ascii "work");
}

abbrev page : CatalogPage
page = record {
  models = record { id = ascii "m1"; label = ascii "Model" } ∷ [];
  next_provider_cursor = none;
}

abbrev stored : ℕ → ℕ → Snapshot
stored checked_at revision = record {
  page = page;
  checked_at = checked_at;
  expires_at = some (checked_at + 60);
  credential_revision = 1;
  revision = revision;
  invalidated = false;
}

abbrev holding : ℕ → ℕ → CatalogCache
holding checked_at revision = record {
  entries = (key, stored checked_at revision) ∷ [];
  next_revision = revision;
}

put_first : put key 100 1 (dynamic 60) page new_cache ≡ ok (1, holding 100 1)
unfolding put valid valid_id has_control validate_page models_size field_size outdated expiry
    checked_add get insert compare_text
put_first = refl

put_second : put key 130 1 (dynamic 60) page (holding 100 1) ≡ ok (2, holding 130 2)
unfolding put valid valid_id has_control validate_page models_size field_size outdated expiry
    checked_add get insert compare_text
put_second = refl

reached : Reachable (holding 100 1)
reached = called created (putting key 100 1 (dynamic 60) page new_cache (holding 100 1) 1 put_first)

Reachable-IsValid_example : IsValid (holding 100 1)
Reachable-IsValid_example = Reachable-IsValid reached

get_first : get key (holding 100 1).entries ≡ some (stored 100 1)
unfolding get compare_text
get_first = refl

put_newer_example :
    (100 ≤ 130) × (1 ≤ 1) × (is_dynamic (dynamic 60) ≡ true → (100 < 130) ⊎ (1 < 1)) × (1 < 2)
put_newer_example =
    put_newer key 130 1 (dynamic 60) page (holding 100 1) (holding 130 2) 2 (stored 100 1)
      (Reachable-IsValid reached) put_second get_first

put-view_example :
    (at : Option ℕ) × (expiry key 130 (dynamic 60) ≡ ok at)
    × ((now credential : ℕ)
        → view key now credential (holding 130 2)
          ≡ some (record {
            page = page;
            checked_at = 130;
            revision = 2;
            freshness =
                if credential == 1 && leb 130 now && none_or (ltb now) at then fresh else stale;
          }))
    × ((other : CacheKey) (now credential : ℕ)
        → other ≢ key
        → view other now credential (holding 130 2) ≡ view other now credential (holding 100 1))
put-view_example = put-view key 130 1 (dynamic 60) page (holding 100 1) (holding 130 2) 2 put_second

mark_stale-view_example :
    view key 120 1 (mark_stale key (holding 100 1)).1
    ≡ staled (key =? key) (view key 120 1 (holding 100 1))
mark_stale-view_example = mark_stale-view key key (holding 100 1) 120 1

abbrev seen : CatalogView
seen = record { page = page; checked_at = 100; revision = 1; freshness = fresh }

view_first : view key 120 1 (holding 100 1) ≡ some seen
unfolding view is_fresh get compare_text
view_first = refl

fresh_within_day_example : (100 ≤ 120) × (120 < 100 + max_dynamic_ttl_seconds)
fresh_within_day_example =
    fresh_within_day (holding 100 1) key 120 1 (ascii "work") seen (Reachable-IsValid reached) refl
      view_first refl
