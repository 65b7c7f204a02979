-- ===== src/Approvals/Tests/Listings.antt =====
-- Two sources that list the same approvals, a catalog of two pages, and a cache.
use dingtalk_oa_attachment_b.Prelude.{
  ◌+◌, ◌≤◌, ◌<◌, ◌≡◌, refl, ap, zero, suc, true, false, List, [], ◌∷◌, none, some, Text,
  Text-discrete, ℕ_discrete, lit, contains, text_eq, map, length, All, AreDistinct, drop, arith,
  inl, inr,
}
use dingtalk_oa_attachment_b.Prelude.Int.{pos, negsuc}
use dingtalk_oa_attachment_b.Prelude.Assoc.{lookup, insert, delete_where, NodupKeys}
use dingtalk_oa_attachment_b.Prelude.Sorting.{IsSorted, sort_by, put}
use dingtalk_oa_attachment_b.Runes.{
  trim_space, trim_left, trim_right, is_space, is_control, byte_len, rune_len, has_prefix, to_upper,
  text_lt,
}
use dingtalk_oa_attachment_b.Domain.Errors.{Result, ok, err}
use dingtalk_oa_attachment_b.Domain.Identifier.{normalize_process_instance_id, is_unsafe}
use dingtalk_oa_attachment_b.Domain.Approval.{User}
use dingtalk_oa_attachment_b.Domain.Search.{
  ApprovalCategory, ApprovalCategorySource, ApprovalInstanceIdQuery, ApprovalInstanceIdPage,
  VisibleApprovalTemplate, VisibleApprovalTemplateQuery, VisibleApprovalTemplatePage,
}
use dingtalk_oa_attachment_b.Approvals.Library.{subject, category_id}
use dingtalk_oa_attachment_b.Approvals.Candidates.{
  CursorSource, Candidate, count_active, advance, add_id, add_ids, list_source, list_sources,
  list_candidates,
}
use dingtalk_oa_attachment_b.Approvals.Candidates.Laws.{
  ids, IsNormalId, list_candidates-AreDistinct,
}
use dingtalk_oa_attachment_b.Approvals.Catalog.{
  is_invalid_template, category_lt, sort_visible_categories, new_category, add_category,
  add_template, add_templates, fetch_pages, fetch_visible_catalog, resolve_visible_category,
  max_visible_templates, max_visible_template_pages,
}
use dingtalk_oa_attachment_b.Approvals.Catalog.Order.{codes}
use dingtalk_oa_attachment_b.Approvals.Catalog.Fetching.{
  IsOffered, offered_code, listed, fetch_visible_catalog-IsCatalog,
}
use dingtalk_oa_attachment_b.Approvals.Catalog.Resolution.{resolve-fetch}
use dingtalk_oa_attachment_b.Approvals.Catalog.Cache.{
  Cache, cached_visible_catalog, store_visible_catalog, make_room, evict, oldest,
  visible_catalog_cache_ttl, max_visible_catalog_entries,
}
use dingtalk_oa_attachment_b.Approvals.Catalog.Cache.History.{
  Store, VisitsAll, replay, last_store, cached-replay,
}
use dingtalk_oa_attachment_b.Approvals.Catalog.Cache.Bound.{length-replay-le}
use dingtalk_oa_attachment_b.Approvals.Tests.Codec.{sample_library}

abbrev source : ApprovalCategorySource
source = record { process_code = lit "code" }

abbrev category : ApprovalCategory
category = record {
  id = lit "c";
  display_name = lit "name";
  directory_name = [];
  description = [];
  sources = source ∷ source ∷ [];
}

abbrev list_ids : ApprovalInstanceIdQuery → Result ApprovalInstanceIdPage
list_ids q = ok (record { process_instance_ids = lit "a" ∷ lit " b" ∷ []; next_token = none })

abbrev at_start : CursorSource
at_start = record { next_token = pos 0; done = false }

abbrev at_end : CursorSource
at_end = record { next_token = pos 0; done = true }

abbrev candidate : Text → Candidate
candidate id = record { process_instance_id = id; source = source }

abbrev candidates : List Candidate
candidates = candidate (lit "a") ∷ candidate (lit "b") ∷ []

two_candidates :
    list_candidates list_ids (pos 0) (pos 1) category (at_start ∷ at_start ∷ []) 5
    ≡ ok (at_end ∷ at_end ∷ [], candidates)
unfolding list_candidates list_sources list_source count_active advance add_id add_ids
    normalize_process_instance_id is_unsafe trim_space trim_left trim_right is_space is_control
    byte_len rune_len has_prefix to_upper Text-discrete ℕ_discrete
two_candidates = refl

list_candidates-AreDistinct_example :
    (length candidates ≤ 5)
    × All (IsNormalId) candidates
    × AreDistinct (ids candidates)
    × (length (at_end ∷ at_end ∷ []) ≡ length (at_start ∷ at_start ∷ []))
list_candidates-AreDistinct_example =
    list_candidates-AreDistinct list_ids (pos 0) (pos 1) category (at_start ∷ at_start ∷ []) 5
      (at_end ∷ at_end ∷ [], candidates) two_candidates

abbrev ann : User
ann = record { corp_id = lit "corp"; user_id = lit "ann"; union_id = []; display_name = [] }

abbrev template : Text → Text → VisibleApprovalTemplate
template code name = record { process_code = code; name = name; directory_name = [] }

-- The first page names the second, whose first template is on the first page as well.
abbrev list_templates : VisibleApprovalTemplateQuery → Result VisibleApprovalTemplatePage
list_templates q = elim q.next_token [
  | pos n ↦ elim n [
    | zero ↦
        ok (record { templates = template (lit "y") (lit "trip") ∷ []; next_token = some (pos 7) })
    | suc m ↦ ok (record {
      templates = template (lit " y ") (lit "again") ∷ template (lit "x") (lit "leave") ∷ [];
      next_token = none;
    })
  ]
  | negsuc n ↦ err []
]

abbrev leave : ApprovalCategory
leave = new_category sample_library [] ann (lit "x") (lit "leave") []

abbrev trip : ApprovalCategory
trip = new_category sample_library [] ann (lit "y") (lit "trip") []

two_categories : fetch_visible_catalog sample_library [] ann list_templates ≡ ok (leave ∷ trip ∷ [])
unfolding fetch_visible_catalog fetch_pages add_templates add_template add_category
    is_invalid_template sort_visible_categories sort_by put category_lt text_lt new_category
    category_id subject trim_space trim_left trim_right is_space byte_len rune_len Text-discrete
    ℕ_discrete
two_categories = refl

fetch_visible_catalog-IsCatalog_example :
    IsSorted category_lt (leave ∷ trip ∷ [])
    × AreDistinct (codes (leave ∷ trip ∷ []))
    × (length (leave ∷ trip ∷ []) ≤ max_visible_templates)
    × All (IsOffered sample_library [] ann) (leave ∷ trip ∷ [])
    × ((a : Text)
        → contains (codes (leave ∷ trip ∷ [])) a
          ≡ contains
              (map offered_code
                (listed sample_library [] ann list_templates max_visible_template_pages (pos 0)))
              a)
fetch_visible_catalog-IsCatalog_example =
    fetch_visible_catalog-IsCatalog sample_library [] ann list_templates (leave ∷ trip ∷ [])
      two_categories

-- The ID of the sample is the MAC itself, which ends in the process code.
distinct_codes :
    (a b : Text) → category_id sample_library [] ann a ≡ category_id sample_library [] ann b → a ≡ b
unfolding category_id subject
distinct_codes a b e = ap (drop (9 + (20 + (1 + (8 + 1))))) e

resolve-fetch_example : resolve_visible_category (leave ∷ trip ∷ []) trip.id ≡ some trip
resolve-fetch_example =
    resolve-fetch sample_library [] ann list_templates (leave ∷ trip ∷ []) trip
      (λ a b _ _ e. distinct_codes a b e) two_categories (inr (inl refl))

-- Another order of the entries: the first two of them change places.
abbrev swapped : Cache → Cache
swapped (x ∷ y ∷ rest) = y ∷ x ∷ rest
swapped c = c

swapped-NodupKeys : (c : Cache) → NodupKeys c → NodupKeys (swapped c)
unfolding lookup
swapped-NodupKeys [] u = u
swapped-NodupKeys (x ∷ []) u = u
swapped-NodupKeys ((k, e) ∷ (k', e') ∷ rest) u = ground arith

lookup-swapped : (c : Cache) (key : Text) → NodupKeys c → lookup key (swapped c) ≡ lookup key c
unfolding lookup
lookup-swapped [] key u = refl
lookup-swapped (x ∷ []) key u = refl
lookup-swapped ((k, e) ∷ (k', e') ∷ rest) key u = ground arith

length-swapped : (c : Cache) → length (swapped c) ≡ length c
length-swapped [] = refl
length-swapped (x ∷ []) = refl
length-swapped (x ∷ y ∷ rest) = refl

abbrev stores : List Store
stores =
    record { key = lit "bob"; categories = trip ∷ []; time = 7; visits = swapped }
    ∷ record { key = lit "ann"; categories = leave ∷ trip ∷ []; time = 5; visits = swapped }
    ∷ []

stores_visit : All VisitsAll stores
stores_visit = (visit, (visit, tt))
  where
    visit :
        (c : Cache)
        → NodupKeys c
        → NodupKeys (swapped c)
          × ((key : Text) → lookup key (swapped c) ≡ lookup key c)
          × (length (swapped c) ≡ length c)
    visit c u = (swapped-NodupKeys c u, λ key. lookup-swapped c key u, length-swapped c)

cached_for_ann : cached_visible_catalog (replay stores) (lit "ann") 9 ≡ some (leave ∷ trip ∷ [])
unfolding cached_visible_catalog store_visible_catalog make_room evict oldest lookup insert
    delete_where Text-discrete ℕ_discrete
cached_for_ann = refl

cached-replay_example :
    (s : Store) × (last_store (lit "ann") stores ≡ some s)
    × (s.categories ≡ leave ∷ trip ∷ [])
    × (9 < s.time + visible_catalog_cache_ttl)
cached-replay_example =
    cached-replay (lit "ann") 9 stores (leave ∷ trip ∷ []) stores_visit cached_for_ann

length-replay-le_example :
    (length (replay stores) ≤ max_visible_catalog_entries) × (lookup [] (replay stores) ≡ none)
length-replay-le_example =
    length-replay-le stores stores_visit (λ e. ground arith, (λ e. ground arith, tt))
