-- ===== src/Discovery/Cache.antt =====
-- crates/phenix-provider-discovery/src/cache.rs: the catalog snapshots of the provider connections.
pub mod Valid
pub mod Put
pub mod Fresh
mod Examples
use phenix_ai.Prelude.{
  ℕ, ◌+◌, ◌*◌, ◌^◌, ◌≡◌, ap, Bool, true, false, not, ◌&&◌, ◌||◌, Option, none, some, List, [], ◌∷◌,
  ltb, leb, ◌==◌, if◌then◌else◌, length, is_some, checked_add,
}
use phenix_ai.Prelude.Order.{Ord, Text, text_ord, pair_ord, option_ord, ord_by, ◌=?◌}
use phenix_ai.Prelude.Map.{Map, get, insert, remove}
use phenix_ai.Prelude.Chars.{has_control, none_or}
use phenix_ai.Contract.Failure.{Result, ok, err, ◌>>=◌, ◌>>◌, guard, ok_or}

-- `CatalogModel` and `CatalogPage` of lib.rs, with its bounds.
pub record CatalogModel : Type 0 where
  pub id : Text
  pub label : Text

pub record CatalogPage : Type 0 where
  pub models : List CatalogModel
  pub next_provider_cursor : Option Text

abbrev pub max_models : ℕ
max_models = 4096

abbrev pub max_catalog_bytes : ℕ
max_catalog_bytes = 1024 * 1024

abbrev pub default_dynamic_ttl_seconds : ℕ
default_dynamic_ttl_seconds = 15 * 60

abbrev pub max_cached_identities : ℕ
max_cached_identities = 512

abbrev pub max_dynamic_ttl_seconds : ℕ
max_dynamic_ttl_seconds = 24 * 60 * 60

pub record CacheKey : Type 0 where
  pub scope : Text
  pub provider_id : Text
  pub connection_id : Text
  pub profile_id : Option Text

abbrev key_fields : CacheKey → Text × (Text × (Text × Option Text))
key_fields k = (k.scope, (k.provider_id, (k.connection_id, k.profile_id)))

abbrev key_of : Text × (Text × (Text × Option Text)) → CacheKey
key_of t = record {
  scope = t.0;
  provider_id = t.1.0;
  connection_id = t.1.1.0;
  profile_id = t.1.1.1;
}

abbrev fields_ord : Ord (Text × (Text × (Text × Option Text)))
fields_ord = pair_ord ⦃b = pair_ord ⦃b = pair_ord ⦃b = option_ord⦄⦄⦄

-- The derived `Ord` of `CacheKey`.
instance abbrev pub key_ord : Ord CacheKey
key_ord = ord_by ⦃b = fields_ord⦄ key_fields λ x y h. ap key_of h

-- The inner function `id` of `CacheKey::valid`.
unfoldable pub valid_id : Text → Bool
valid_id s = not (length s == 0) && leb (length s) 128 && not (has_control s)

-- `CacheKey::valid`
unfoldable pub valid : CacheKey → Bool
valid k =
    valid_id k.scope
    && valid_id k.provider_id
    && valid_id k.connection_id
    && none_or valid_id k.profile_id

pub data CachePolicy : Type 0 where
  local_declared : CachePolicy
  dynamic : ℕ → CachePolicy

pub data CacheError : Type 0 where
  invalid_identity invalid_policy too_many_identities revision_overflow invalid_catalog
        stale_refresh :
      CacheError

pub data Freshness : Type 0 where
  fresh stale : Freshness

pub record CatalogView : Type 0 where
  pub page : CatalogPage
  pub checked_at : ℕ
  pub revision : ℕ
  pub freshness : Freshness

pub record Snapshot : Type 0 where
  pub page : CatalogPage
  pub checked_at : ℕ
  pub expires_at : Option ℕ
  pub credential_revision : ℕ
  pub revision : ℕ
  pub invalidated : Bool

pub record CatalogCache : Type 0 where
  pub entries : Map CacheKey Snapshot
  pub next_revision : ℕ

-- `validate_page`: a field's size is added once it has passed its tests.
abbrev pub max_field_bytes : ℕ
max_field_bytes = 4096

unfoldable pub field_size : Text → ℕ → Result CacheError ℕ
field_size field size = do
  guard (not (length field == 0 || not (leb (length field) max_field_bytes) || has_control field))
      invalid_catalog
  ok_or (checked_add size (length field)) invalid_catalog

unfoldable pub models_size : List CatalogModel → Map Text (Unit {0}) → ℕ → Result CacheError ℕ
models_size [] ids size = ok size
models_size (model ∷ models) ids size = do
  size ← field_size model.id size
  size ← field_size model.label size
  guard (not (is_some (get model.id ids))) invalid_catalog
  models_size models (insert model.id tt ids) size

cursor_size : Option Text → ℕ → Result CacheError ℕ
cursor_size none size = ok size
cursor_size (some cursor) size = field_size cursor size

unfoldable pub validate_page : CatalogPage → Result CacheError (Unit {0})
unfolding cursor_size
validate_page page = do
  guard (leb (length page.models) max_models) invalid_catalog
  size ← models_size page.models [] 0
  size ← cursor_size page.next_provider_cursor size
  guard (leb size max_catalog_bytes) invalid_catalog

-- The refusal of a refresh that is older than the snapshot it would replace.
abbrev pub is_dynamic : CachePolicy → Bool
is_dynamic local_declared = false
is_dynamic (dynamic ttl_seconds) = true

unfoldable pub outdated : CachePolicy → ℕ → ℕ → Option Snapshot → Bool
outdated policy checked_at credential_revision none = false
outdated policy checked_at credential_revision (some existing) =
    ltb checked_at existing.checked_at
    || ltb credential_revision existing.credential_revision
    || (is_dynamic policy
        && checked_at == existing.checked_at
        && credential_revision == existing.credential_revision)

-- The expiry time that a policy gives.
abbrev pub selected_ttl : ℕ → ℕ
selected_ttl ttl_seconds = if ttl_seconds == 0 then default_dynamic_ttl_seconds else ttl_seconds

unfoldable pub expiry : CacheKey → ℕ → CachePolicy → Result CacheError (Option ℕ)
expiry key checked_at local_declared = do
  guard (not (is_some key.profile_id)) invalid_policy
  ok none
expiry key checked_at (dynamic ttl_seconds) = do
  guard (leb (selected_ttl ttl_seconds) max_dynamic_ttl_seconds) invalid_policy
  at ← ok_or (checked_add checked_at (selected_ttl ttl_seconds)) invalid_policy
  ok (some at)

-- `CatalogCache::put`: its state changes stand after the last early return.
unfoldable pub put :
    CacheKey
    → ℕ
    → ℕ
    → CachePolicy
    → CatalogPage
    → CatalogCache
    → Result CacheError (ℕ × CatalogCache)
put key checked_at credential_revision policy page cache = do
  guard (valid key) invalid_identity
  validate_page page
  guard (not (outdated policy checked_at credential_revision (get key cache.entries))) stale_refresh
  guard
      (not
        (leb max_cached_identities (length cache.entries) && not (is_some (get key cache.entries))))
      too_many_identities
  expires_at ← expiry key checked_at policy
  revision ← ok_or (checked_add cache.next_revision 1) revision_overflow
  let snapshot : Snapshot = record {
    page = page;
    checked_at = checked_at;
    expires_at = expires_at;
    credential_revision = credential_revision;
    revision = revision;
    invalidated = false;
  }
  ok (revision, record { entries = insert key snapshot cache.entries; next_revision = revision })

unfoldable pub is_fresh : ℕ → ℕ → Snapshot → Bool
is_fresh now credential_revision entry =
    not entry.invalidated
    && credential_revision == entry.credential_revision
    && leb entry.checked_at now
    && none_or (ltb now) entry.expires_at

-- `CatalogCache::view`
unfoldable pub view : CacheKey → ℕ → ℕ → CatalogCache → Option CatalogView
view key now credential_revision cache = elim (get key cache.entries) [
  | none ↦ none
  | some entry ↦ some (record {
    page = entry.page;
    checked_at = entry.checked_at;
    revision = entry.revision;
    freshness = if is_fresh now credential_revision entry then fresh else stale;
  })
]

-- `CatalogCache::mark_stale`
unfoldable pub mark_stale : CacheKey → CatalogCache → Bool × CatalogCache
mark_stale key cache = elim (get key cache.entries) [
  | none ↦ (false, cache)
  | some entry ↦ (
    true,
    record cache { entries = insert key (record entry { invalidated = true }) cache.entries },
  )
]

-- `CatalogCache::purge`
unfoldable pub purge : CacheKey → CatalogCache → Bool × CatalogCache
purge key cache =
    (is_some (get key cache.entries), record cache { entries = remove key cache.entries })

-- `CatalogCache::len` and `is_empty`
abbrev pub len : CatalogCache → ℕ
len cache = length cache.entries

abbrev pub is_empty : CatalogCache → Bool
is_empty cache = len cache == 0
