-- ===== src/Approvals/Catalog/Cache/History.antt =====
-- The cache against the list of everything that was stored in it.
use dingtalk_oa_attachment_b.Prelude.{
  ℕ, ◌+◌, ◌<◌, ◌≡◌, refl, sym, ◌∙◌, ap, subst, Bool, List, [], ◌∷◌, Option, none, some, Text, ◌==◌,
  text_eq, leb, length, All, if◌then◌else◌, arith, inl, inr, Bool-cases, Option-cases,
}
use dingtalk_oa_attachment_b.Prelude.Assoc.{
  lookup, NodupKeys, unless, lookup-insert, lookup-erase, lookup-delete_where, insert-NodupKeys,
  erase-NodupKeys, delete_where-NodupKeys,
}
use dingtalk_oa_attachment_b.Domain.Search.{ApprovalCategory}
use dingtalk_oa_attachment_b.Approvals.Catalog.Cache.{
  Cache, CacheEntry, visible_catalog_cache_ttl, cached_visible_catalog, oldest, evict, make_room,
  new_entry, drop_expired, store_visible_catalog, fresh,
}

-- A call of storeVisibleCatalog, with the order in which its loops visit the entries of the map.
pub record Store : Type 0 where
  pub key : Text
  pub categories : List ApprovalCategory
  pub time : ℕ
  pub visits : Cache → Cache

-- The cache after these stores, the last one first.
abbrev pub replay : List Store → Cache
replay [] = []
replay (s ∷ before) = store_visible_catalog (s.visits (replay before)) s.key s.categories s.time

-- What Go promises of the loop over a map: it visits the entries of the map, each of them once.
abbrev pub VisitsAll : Store → Type 0
VisitsAll s =
    (c : Cache)
    → NodupKeys c
    → NodupKeys (s.visits c)
      × ((key : Text) → lookup key (s.visits c) ≡ lookup key c)
      × (length (s.visits c) ≡ length c)

abbrev pub last_store : Text → List Store → Option Store
last_store key [] = none
last_store key (s ∷ before) = if s.key == key then some s else last_store key before

-- The entry that a store leaves.
abbrev entry_of : Store → CacheEntry
entry_of s = new_entry s.categories s.time

pub evict-NodupKeys : (c : Cache) → NodupKeys c → NodupKeys (evict c)
unfolding evict
evict-NodupKeys c u = ground (arith, erase-NodupKeys (oldest [] 0 c) c u)

pub make_room-NodupKeys : (key : Text) (c : Cache) → NodupKeys c → NodupKeys (make_room key c)
unfolding make_room
make_room-NodupKeys key c u = ground (arith, evict-NodupKeys c u)

pub store-NodupKeys :
    (c : Cache) (key : Text) (categories : List ApprovalCategory) (now : ℕ)
    → NodupKeys c
    → NodupKeys (store_visible_catalog c key categories now)
unfolding store_visible_catalog
store-NodupKeys c key categories now u =
    insert-NodupKeys key (new_entry categories now) _
      (make_room-NodupKeys key _ (delete_where-NodupKeys (λ k e. leb e.expires_at now) c u))

lookup-evict :
    (key : Text) (c : Cache) (e : CacheEntry)
    → lookup key (evict c) ≡ some e
    → lookup key c ≡ some e
unfolding evict
lookup-evict key c e h = ground (arith, lookup-erase (oldest [] 0 c) key c)

lookup-make_room :
    (k key : Text) (c : Cache) (e : CacheEntry)
    → lookup key (make_room k c) ≡ some e
    → lookup key c ≡ some e
unfolding make_room
lookup-make_room k key c e h = ground (arith, lookup-evict key c e)

unless-some :
    (p : Text → CacheEntry → Bool) (key : Text) (o : Option CacheEntry) (e : CacheEntry)
    → unless p key o ≡ some e
    → o ≡ some e
unless-some p key none e h = h
unless-some p key (some x) e h = ground arith

lookup-store :
    (c : Cache) (k key : Text) (categories : List ApprovalCategory) (now : ℕ) (e : CacheEntry)
    → NodupKeys c
    → lookup key (store_visible_catalog c k categories now) ≡ some e
    → (if k == key then some (new_entry categories now) else lookup key c) ≡ some e
unfolding store_visible_catalog
lookup-store c k key categories now e u h = ground (
  arith,
  lookup-insert k key (new_entry categories now) (make_room k (drop_expired now c)),
  lookup-make_room k key (drop_expired now c) e,
  unless-some (λ j x. leb x.expires_at now) key (lookup key c) e,
  lookup-delete_where (λ j x. leb x.expires_at now) key c u,
)

pub replay-NodupKeys : (h : List Store) → All VisitsAll h → NodupKeys (replay h)
replay-NodupKeys [] v = tt
replay-NodupKeys (s ∷ before) v =
    store-NodupKeys (s.visits (replay before)) s.key s.categories s.time
      (v.0 (replay before) (replay-NodupKeys before v.1)).0

some_inj : {A : Type 0} {a b : A} → some a ≡ some b → a ≡ b
some_inj e = cc

fresh-some :
    (now : ℕ) (e : CacheEntry) (categories : List ApprovalCategory)
    → fresh now (some e) ≡ some categories
    → (e.categories ≡ categories) × (now < e.expires_at)
fresh-some now e categories h = ground arith

lookup-replay_step :
    (key : Text) (s : Store) (before : List Store) (e : CacheEntry)
    → All VisitsAll (s ∷ before)
    → lookup key (replay (s ∷ before)) ≡ some e
    → (if s.key == key then some (entry_of s) else lookup key (replay before)) ≡ some e
lookup-replay_step key s before e v h =
    let (nodup, same_lookup, _) = v.0 (replay before) (replay-NodupKeys before v.1) in
    ap (λ o. if s.key == key then some (entry_of s) else o) (sym (same_lookup key))
    ∙ lookup-store (s.visits (replay before)) s.key key s.categories s.time e nodup h

lookup-replay :
    (key : Text) (h : List Store) (e : CacheEntry)
    → All VisitsAll h
    → lookup key (replay h) ≡ some e
    → (s : Store) × (last_store key h ≡ some s) × (entry_of s ≡ e)
unfolding lookup
lookup-replay key [] e v h = ground arith
lookup-replay key (s ∷ before) e v h =
    let found = lookup-replay_step key s before e v h in
    elim (Bool-cases (s.key == key)) [
      | inl own ↦ (s, rw own refl, some_inj (rw own at found))
      | inr other ↦
          let (x, last, same) = lookup-replay key before e v.1 (rw other at found) in
          (x, rw other last, same)
    ]

-- What the cache answers for a key is what was last stored for that key, less than a minute before:
-- for every list of stores, in any order of time, and for every order in which the loops of a store
-- visit the entries, as long as they visit each of them once.
pub cached-replay :
    (key : Text) (now : ℕ) (h : List Store) (categories : List ApprovalCategory)
    → All VisitsAll h
    → cached_visible_catalog (replay h) key now ≡ some categories
    → (s : Store) × (last_store key h ≡ some s)
      × (s.categories ≡ categories)
      × (now < s.time + visible_catalog_cache_ttl)
unfolding cached_visible_catalog
cached-replay key now h categories v hit = elim (Option-cases (lookup key (replay h))) [
  | inl absent ↦ ground arith
  | inr (e, present) ↦
      let (s, last, same) = lookup-replay key h e v present in
      let (held, early) =
        fresh-some now e categories (rw (present, cached_visible_catalog) at hit) in
      (
        s,
        last,
        ap (λ x. x.categories) same ∙ held,
        subst (λ x. now < x.expires_at) (sym same) early,
      )
]
