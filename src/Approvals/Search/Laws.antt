-- ===== src/Approvals/Search/Laws.antt =====
-- What a search returns.
use dingtalk_oa_attachment_b.Prelude.{
  ℕ, ◌≤◌, ◌≡◌, refl, sym, ap, subst, inl, inr, Bool, true, false, List, [], ◌∷◌, Option, some, Text,
  length, map, is_empty, text_eq, All, arith, Option-cases,
}
use dingtalk_oa_attachment_b.Prelude.Int.{ℤ}
use dingtalk_oa_attachment_b.Prelude.Sorting.{
  sort_by, IsSorted, sort_by-IsSorted, length-sort_by, All-sort_by,
}
use dingtalk_oa_attachment_b.Runes.{trim_space}
use dingtalk_oa_attachment_b.Domain.Audit.{is_blank}
use dingtalk_oa_attachment_b.Domain.Errors.{Result, ok, err, ◌>>=◌, only, invalid_input}
use dingtalk_oa_attachment_b.Domain.Errors.Inversion.{bind_ok, then_ok, refuse_ok, ok_inj}
use dingtalk_oa_attachment_b.Domain.Approval.{User, Approval, can_access}
use dingtalk_oa_attachment_b.Domain.Search.{ApprovalCategory, max_approval_search_page_size}
use dingtalk_oa_attachment_b.Approvals.Library.{approval_subject_hash}
use dingtalk_oa_attachment_b.Approvals.Catalog.{fetch_visible_catalog, resolve_visible_category}
use dingtalk_oa_attachment_b.Approvals.Catalog.Cache.{visible_catalog}
use dingtalk_oa_attachment_b.Approvals.Candidates.{
  Candidate, has_remaining_sources, list_candidates,
}
use dingtalk_oa_attachment_b.Approvals.Candidates.Laws.{list_candidates-AreDistinct}
use dingtalk_oa_attachment_b.Approvals.SearchLimiter.{SearchRateLimiter}
use dingtalk_oa_attachment_b.Approvals.Service.{Service, validate_authenticated_user}
use dingtalk_oa_attachment_b.Approvals.Authorization.{
  Item, item_of, Answers, Request, collect, authorize_candidates,
}
use dingtalk_oa_attachment_b.Approvals.Authorization.Outcomes.{shown}
use dingtalk_oa_attachment_b.Approvals.Authorization.Schedules.{
  IsCovering, shown_of, authorize_candidates-collect,
}
use dingtalk_oa_attachment_b.Approvals.Search.Order.{item_before_asymm}
use dingtalk_oa_attachment_b.Approvals.States.{SearchQuery, search_state}
use dingtalk_oa_attachment_b.Approvals.Search.{
  found_category, SearchResult, SearchWorld, Run, Listed, item_before, limit_of, check_search,
  list_page, search_request, provider_answers, search_result, cursor_of, authorized, search_allowed,
  limited, checked_search, search,
}

limit_of-le : (limit : ℤ) (n : ℕ) → limit_of limit ≡ ok n → n ≤ max_approval_search_page_size
unfolding limit_of
limit_of-le limit n e = ground arith

-- An item of an approval that the provider has, that the user may see and that has attachments.
abbrev pub IsShownItem : Service → User → Item → Type 0
IsShownItem service user item =
    (id : Text) × (a : Approval) × (service.provider.approval id ≡ ok a)
    × (can_access a user.user_id service.administrators ≡ true)
    × (is_empty a.attachments ≡ false)
    × (item ≡ item_of a)

module _ (service : Service) (r : Request) (answers : Answers) (candidates : List Candidate) where
  length-collect-le :
      (f : Candidate → Option Item) (cs : List Candidate)
      → length (collect service r answers candidates (map f cs)) ≤ length cs
  length-collect-le f [] = omega arith
  length-collect-le f (c ∷ cs) = elim (Option-cases (f c)) [
    | inl absent ↦ rw absent (omega (arith, length-collect-le f cs))
    | inr (item, present) ↦ rw present (omega (arith, length-collect-le f cs))
  ]

  All-collect :
      (P : Item → Type 0) (f : Candidate → Option Item) (cs : List Candidate)
      → ((c : Candidate) (item : Item) → f c ≡ some item → P item)
      → All P (collect service r answers candidates (map f cs))
  All-collect P f [] h = tt
  All-collect P f (c ∷ cs) h = elim (Option-cases (f c)) [
    | inl absent ↦ rw absent (All-collect P f cs h)
    | inr (item, present) ↦ rw present (h c item present, All-collect P f cs h)
  ]

  shown-IsShownItem :
      (id : Text) (answer : Result Approval) (item : Item)
      → service.provider.approval id ≡ answer
      → shown service r answer ≡ some item
      → IsShownItem service r.user item
  shown-IsShownItem id (err f) item e h = ground arith
  shown-IsShownItem id (ok a) item e h =
      let seen : (can_access a r.user.user_id service.administrators ≡ true)
          × (is_empty a.attachments ≡ false) =
        ground arith in
      let same : item ≡ item_of a = ground arith in (id, a, e, seen.0, seen.1, same)

module _ (service : Service) (run : Run) (user : User) where
  abbrev IsAnswer : SearchResult → Type 0
  IsAnswer result =
      (length result.items ≤ max_approval_search_page_size)
      × All (IsShownItem service user) result.items
      × IsSorted (item_before service.go) result.items

  -- Every candidate of a search has its goroutine.
  abbrev pub IsScheduled : Type 0
  IsScheduled =
      (r : Request) (cs : List Candidate)
      → IsCovering service r (provider_answers service run user) cs (run.schedule cs)

  search_result_ok :
      (l : Listed) (items : List Item) (result : SearchResult)
      → search_result service run user l items ≡ ok result
      → result.items ≡ sort_by (item_before service.go) items
  unfolding search_result
  search_result_ok l items result e =
      let (cursor, written, done) =
        bind_ok (cursor_of service run user (has_remaining_sources l.state.sources) l.state) _ e in
      sym (ap (λ x. x.items) (ok_inj done))

  sorted-IsAnswer :
      (items : List Item)
      → length items ≤ max_approval_search_page_size
      → All (IsShownItem service user) items
      → (result : SearchResult) → result.items ≡ sort_by (item_before service.go) items
      → IsAnswer result
  sorted-IsAnswer items few seen result same =
      subst
        (λ xs.
          (length xs ≤ max_approval_search_page_size)
          × All (IsShownItem service user) xs
          × IsSorted (item_before service.go) xs)
        (sym same)
        (
          omega (arith, length-sort_by (item_before service.go) items, few),
          All-sort_by (item_before service.go) (IsShownItem service user) items seen,
          sort_by-IsSorted (item_before service.go) items (item_before_asymm service.go),
        )

  authorized-IsAnswer :
      (request_id : Text) (l : Listed) (result : SearchResult)
      → IsScheduled
      → length l.candidates ≤ max_approval_search_page_size
      → (authorized service run user request_id (ok l)).0 ≡ ok result
      → IsAnswer result
  authorized-IsAnswer request_id l result scheduled few e =
      let r = search_request service run user l.state.keyword request_id in
      let answers = provider_answers service run user in
      let (items, returned, done) =
        bind_ok (authorize_candidates service r answers l.candidates (run.schedule l.candidates)).0
          _ e in
      let (same, _) =
        authorize_candidates-collect service r answers l.candidates (run.schedule l.candidates)
          items (scheduled r l.candidates) returned in
      let f = shown_of service r answers l.candidates in
      sorted-IsAnswer items
        (subst (λ xs. length xs ≤ max_approval_search_page_size) (sym same)
          (omega (arith, length-collect-le service r answers l.candidates f l.candidates, few)))
        (subst (All (IsShownItem service user)) (sym same) (
          All-collect service r answers l.candidates (IsShownItem service user) f l.candidates
            (λ c item h.
              shown-IsShownItem service r answers l.candidates c.process_instance_id
                (service.provider.approval c.process_instance_id) item refl h)))
        result (search_result_ok l items result done)

  list_page_few :
      (query : SearchQuery) (limit : ℕ) (categories : List ApprovalCategory) (l : Listed)
      → list_page service run user query limit categories ≡ ok l
      → length l.candidates ≤ limit
  unfolding list_page
  list_page_few query limit categories l e =
      let (category, found, e1) =
        bind_ok
          (found_category (resolve_visible_category categories (trim_space query.category_id))) _
          e in
      let (state, checked, e2) =
        bind_ok (search_state service category user run.checked run.read query) _ e1 in
      let (listed, asked, done) =
        bind_ok
          (list_candidates service.provider.list_ids state.start_ms state.end_ms category
            state.sources limit)
          _ e2 in
      let (few, _, _, _) =
        list_candidates-AreDistinct service.provider.list_ids state.start_ms state.end_ms category
          state.sources limit listed asked in
      subst (λ x. length x.candidates ≤ limit) (ok_inj done) few

  authorized_listed :
      (request_id : Text) (m : Result Listed) (result : SearchResult)
      → (authorized service run user request_id m).0 ≡ ok result
      → (l : Listed) × (m ≡ ok l) × ((authorized service run user request_id (ok l)).0 ≡ ok result)
  authorized_listed request_id (err f) result e = ground arith
  authorized_listed request_id (ok l) result e = (l, refl, e)

  search_allowed-IsAnswer :
      (query : SearchQuery) (request_id : Text) (limit : ℕ) (w : SearchWorld)
      (result : SearchResult)
      → IsScheduled
      → limit ≤ max_approval_search_page_size
      → (search_allowed service run user query request_id limit w).0 ≡ ok result
      → IsAnswer result
  unfolding search_allowed
  search_allowed-IsAnswer query request_id limit w result scheduled small e =
      let catalog =
        visible_catalog w.cache (approval_subject_hash service.go user) run.looked run.refreshed
          (fetch_visible_catalog service.go service.key user service.provider.list_templates) in
      let (l, listed, returned) =
        authorized_listed request_id (catalog.0 >>= list_page service run user query limit) result
          e in
      let (categories, _, page) =
        bind_ok catalog.0 (list_page service run user query limit) listed in
      authorized-IsAnswer request_id l result scheduled
        (omega (arith, list_page_few query limit categories l page, small)) returned

  limited-IsAnswer :
      (query : SearchQuery) (request_id : Text) (limit : ℕ) (w : SearchWorld)
      (result : SearchResult) (passed : Bool × SearchRateLimiter)
      → IsScheduled
      → limit ≤ max_approval_search_page_size
      → (limited service run user query request_id limit w passed).0 ≡ ok result
      → IsAnswer result
  limited-IsAnswer query request_id limit w result (false, limiter) scheduled small e = ground arith
  limited-IsAnswer query request_id limit w result (true, limiter) scheduled small e =
      search_allowed-IsAnswer query request_id limit (record w { limiter = limiter }) result
        scheduled small e

  checked_search-IsAnswer :
      (query : SearchQuery) (request_id : Text) (w : SearchWorld) (result : SearchResult)
      (checked : Result ℕ)
      → IsScheduled
      → ((limit : ℕ) → checked ≡ ok limit → limit ≤ max_approval_search_page_size)
      → (checked_search service run user query request_id w checked).0 ≡ ok result
      → IsAnswer result
  checked_search-IsAnswer query request_id w result (err f) scheduled small e = ground arith
  checked_search-IsAnswer query request_id w result (ok limit) scheduled small e =
      limited-IsAnswer query request_id limit w result _ scheduled (small limit refl) e

  check_search-le :
      (query : SearchQuery) (request_id : Text) (limit : ℕ)
      → check_search service run user query request_id ≡ ok limit
      → limit ≤ max_approval_search_page_size
  unfolding check_search
  check_search-le query request_id limit e =
      let e1 = then_ok (validate_authenticated_user user) _ e in
      let (_, e2) = refuse_ok (is_blank request_id) (only invalid_input) _ e1 in
      limit_of-le query.limit limit e2

  -- When Search returns a result, it has 20 items at most, they are in the order of the source, and each
  -- is that of an approval that the provider has, that the user may see and that has attachments: for
  -- every query, with a cursor or without, every state of the cache and the rate limiter, every answer
  -- of the provider and every schedule in which each candidate has its goroutine.
  pub search-IsShownItem :
      (query : SearchQuery) (request_id : Text) (w : SearchWorld) (result : SearchResult)
      → IsScheduled
      → (search service run user query request_id w).0 ≡ ok result
      → (length result.items ≤ max_approval_search_page_size)
        × All (IsShownItem service user) result.items
        × IsSorted (item_before service.go) result.items
  unfolding search
  search-IsShownItem query request_id w result scheduled e =
      checked_search-IsAnswer query request_id w result
        (check_search service run user query request_id) scheduled
        (check_search-le query request_id) e
