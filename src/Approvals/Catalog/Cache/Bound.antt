-- ===== src/Approvals/Catalog/Cache/Bound.antt =====
-- How many catalogs the cache holds.
use dingtalk_oa_attachment_b.Prelude.{
  ℕ, ◌+◌, ◌≤◌, ◌≡◌, ◌≢◌, refl, ◌∙◌, ap, ◌⊎◌, false, List, [], ◌∷◌, none, Text, text_eq, leb, length,
  is_empty, arith, inl, inr, Option-cases, All,
}
use dingtalk_oa_attachment_b.Prelude.Assoc.{
  lookup, insert, NodupKeys, unless, lookup-delete_where, lookup-erase, lookup-insert,
  length-insert, length-insert_present, length-delete_where, length-erase_present,
}
use dingtalk_oa_attachment_b.Approvals.Catalog.Cache.History.{
  Store, VisitsAll, replay, replay-NodupKeys,
}
use dingtalk_oa_attachment_b.Domain.Search.{ApprovalCategory}
use dingtalk_oa_attachment_b.Approvals.Catalog.Cache.{
  Cache, CacheEntry, oldest, evict, make_room, new_entry, drop_expired, store_visible_catalog,
  max_visible_catalog_entries,
}

oldest_in :
    (key : Text) (time : ℕ) (c : Cache)
    → (oldest key time c ≡ key) ⊎ (lookup (oldest key time c) c ≢ none)
unfolding oldest lookup
oldest_in key time [] = inl refl
oldest_in key time ((k, e) ∷ rest) =
    ground (arith, oldest_in k e.loaded_at rest, oldest_in key time rest)

oldest_named :
    (key : Text) (time : ℕ) (c : Cache)
    → is_empty key ≡ false
    → lookup [] c ≡ none
    → is_empty (oldest key time c) ≡ false
unfolding oldest lookup
oldest_named key time [] n h = n
oldest_named key time ((k, e) ∷ rest) n h =
    ground (arith, oldest_named k e.loaded_at rest, oldest_named key time rest)

-- The loop finds an entry of every cache that is not empty.
oldest_found : (c : Cache) → lookup [] c ≡ none → 1 ≤ length c → lookup (oldest [] 0 c) c ≢ none
unfolding oldest lookup
oldest_found [] h n = ground arith
oldest_found ((k, e) ∷ rest) h n = ground (arith, oldest_in k e.loaded_at rest)

oldest_keyed : (c : Cache) → lookup [] c ≡ none → 1 ≤ length c → is_empty (oldest [] 0 c) ≡ false
unfolding oldest lookup
oldest_keyed [] h n = ground arith
oldest_keyed ((k, e) ∷ rest) h n = ground (arith, named k, oldest_named k e.loaded_at rest)
  where
    named : (s : Text) → (s ≡ []) ⊎ (is_empty s ≡ false)
    named [] = inl refl
    named (x ∷ xs) = inr refl

length-evict : (c : Cache) → lookup [] c ≡ none → 1 ≤ length c → length (evict c) + 1 ≤ length c
unfolding evict
length-evict c h n =
    ground (arith, oldest_keyed c h n, length-erase_present (oldest [] 0 c) c (oldest_found c h n))

-- A key that no entry has, unless it is the one that makes the room.
length-insert-make_room :
    (key : Text) (e : CacheEntry) (c : Cache)
    → lookup [] c ≡ none
    → length c ≤ max_visible_catalog_entries
    → length (insert key e (make_room key c)) ≤ max_visible_catalog_entries
unfolding make_room
length-insert-make_room key e c h n = elim (Option-cases (lookup key c)) [
  | inl absent ↦
      rw absent
        (ground (arith, length-insert key e c, length-insert key e (evict c), length-evict c h))
  | inr (x, present) ↦ rw present (ground (arith, length-insert_present key e c))
]

-- No entry has the empty key.
lookup-evict_nil : (c : Cache) → lookup [] c ≡ none → lookup [] (evict c) ≡ none
unfolding evict
lookup-evict_nil c h = ground (arith, lookup-erase (oldest [] 0 c) [] c)

-- storeVisibleCatalog keeps a cache without an empty key at 1024 entries at most, and without an empty
-- key, if the key that it stores is not empty.
store-length-le :
    (c : Cache) (key : Text) (categories : List ApprovalCategory) (now : ℕ)
    → key ≢ []
    → NodupKeys c
    → lookup [] c ≡ none
    → length c ≤ max_visible_catalog_entries
    → (length (store_visible_catalog c key categories now) ≤ max_visible_catalog_entries)
      × (lookup [] (store_visible_catalog c key categories now) ≡ none)
unfolding store_visible_catalog make_room
store-length-le c key categories now named u h n =
    let live = drop_expired now c in
    let live_nil : lookup [] live ≡ none =
      lookup-delete_where (λ k e. leb e.expires_at now) [] c u
      ∙ ap (unless (λ k e. leb e.expires_at now) []) h in
    (
      length-insert-make_room key (new_entry categories now) live live_nil
          (omega (arith, length-delete_where (λ k e. leb e.expires_at now) c, n)),
      ground (
        arith,
        lookup-insert key [] (new_entry categories now) (make_room key live),
        lookup-evict_nil live live_nil,
      ),
    )

-- After any list of stores with keys that are not empty, the cache has at most 1024 entries and none
-- with the empty key, for every order in which the loops of a store visit the entries, as long as they
-- visit each of them once.
pub length-replay-le :
    (h : List Store)
    → All VisitsAll h
    → All (λ s. s.key ≢ []) h
    → (length (replay h) ≤ max_visible_catalog_entries) × (lookup [] (replay h) ≡ none)
unfolding lookup
length-replay-le [] v named = (omega arith, refl)
length-replay-le (s ∷ before) v named =
    let earlier = length-replay-le before v.1 named.1 in
    let (nodup, same_lookup, same_length) = v.0 (replay before) (replay-NodupKeys before v.1) in
    store-length-le (s.visits (replay before)) s.key s.categories s.time named.0 nodup
      (same_lookup [] ∙ earlier.1) (omega (arith, same_length, earlier.0))
