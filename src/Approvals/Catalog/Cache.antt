-- ===== src/Approvals/Catalog/Cache.antt =====
-- internal/approvals/catalog.go: the catalogs that the service keeps for a minute. Times are
-- nanoseconds since the zero time.
pub mod History
pub mod Bound
use dingtalk_oa_attachment_b.Prelude.{
  ℕ, ◌+◌, ◌*◌, Bool, true, false, ◌&&◌, ◌||◌, List, [], ◌∷◌, Option, none, some, Text, leb, ltb,
  length, is_empty, if◌then◌else◌,
}
use dingtalk_oa_attachment_b.Prelude.Assoc.{lookup, insert, erase, delete_where}
use dingtalk_oa_attachment_b.Domain.Errors.{Result, ok, err}
use dingtalk_oa_attachment_b.Domain.Search.{ApprovalCategory}

abbrev pub visible_catalog_cache_ttl : ℕ
visible_catalog_cache_ttl = 60 * 1000000000

abbrev pub max_visible_catalog_entries : ℕ
max_visible_catalog_entries = 1024

pub record CacheEntry : Type 0 where
  pub categories : List ApprovalCategory
  pub loaded_at : ℕ
  pub expires_at : ℕ

abbrev pub Cache : Type 0
Cache = List (Text × CacheEntry)

abbrev pub fresh : ℕ → Option CacheEntry → Option (List ApprovalCategory)
fresh now none = none
fresh now (some e) = if ltb now e.expires_at then some e.categories else none

-- cachedVisibleCatalog
unfoldable pub cached_visible_catalog : Cache → Text → ℕ → Option (List ApprovalCategory)
cached_visible_catalog cache key now = fresh now (lookup key cache)

-- The loop that finds the oldest entry. Go visits the entries of a map in any order, a new one for each
-- loop: the list is the map in the order of this loop, and may be listed anew before each call.
unfoldable pub oldest : Text → ℕ → Cache → Text
oldest key time [] = key
oldest key time ((k, e) ∷ rest) =
    let best : Text × ℕ =
      if is_empty key || ltb e.loaded_at time then (k, e.loaded_at) else (key, time) in
    oldest best.0 best.1 rest

unfoldable pub evict : Cache → Cache
evict cache = let key = oldest [] 0 cache in if is_empty key then cache else erase key cache

abbrev is_absent : Option CacheEntry → Bool
is_absent none = true
is_absent (some e) = false

-- Room for the entry of a key: at 1024 entries without the key, the oldest one goes.
unfoldable pub make_room : Text → Cache → Cache
make_room key cache =
    if is_absent (lookup key cache) && leb max_visible_catalog_entries (length cache)
    then evict cache
    else cache

abbrev pub new_entry : List ApprovalCategory → ℕ → CacheEntry
new_entry categories now = record {
  categories = categories;
  loaded_at = now;
  expires_at = now + visible_catalog_cache_ttl;
}

abbrev pub drop_expired : ℕ → Cache → Cache
drop_expired now cache = delete_where (λ k e. leb e.expires_at now) cache

-- storeVisibleCatalog
unfoldable pub store_visible_catalog : Cache → Text → List ApprovalCategory → ℕ → Cache
store_visible_catalog cache key categories now =
    insert key (new_entry categories now) (make_room key (drop_expired now cache))

-- The call that singleflight makes for a key; every request that waits for it gets its answer.
abbrev pub keep_loaded :
    Cache → Text → ℕ → Result (List ApprovalCategory) → Result (List ApprovalCategory) × Cache
keep_loaded cache key refresh (err f) = (err f, cache)
keep_loaded cache key refresh (ok categories) =
    (ok categories, store_visible_catalog cache key categories refresh)

unfoldable pub load_visible_catalog :
    Cache → Text → ℕ → Result (List ApprovalCategory) → Result (List ApprovalCategory) × Cache
load_visible_catalog cache key refresh fetched = elim (cached_visible_catalog cache key refresh) [
  | some categories ↦ (ok categories, cache)
  | none ↦ keep_loaded cache key refresh fetched
]

-- visibleCatalog, with the times of its two looks at the cache and what fetchVisibleCatalog would
-- return. A request whose context ends while it waits is not modelled.
unfoldable pub visible_catalog :
    Cache → Text → ℕ → ℕ → Result (List ApprovalCategory) → Result (List ApprovalCategory) × Cache
visible_catalog cache key now refresh fetched = elim (cached_visible_catalog cache key now) [
  | some categories ↦ (ok categories, cache)
  | none ↦ load_visible_catalog cache key refresh fetched
]
