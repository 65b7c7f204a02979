-- ===== src/Approvals/Search.antt =====
-- internal/approvals/service.go: Search.
pub mod Order
pub mod Laws
use dingtalk_oa_attachment_b.Prelude.{
  ℕ, ◌*◌, Bool, true, false, ◌||◌, ◌&&◌, not, List, [], ◌∷◌, ◌++◌, Option, none, some, Text, lit,
  eqb, length, any, map, is_empty, if◌then◌else◌, ◌==◌, text_eq,
}
use dingtalk_oa_attachment_b.Prelude.Int.{
  ℤ, pos, is_negative, leb_int, ltb_int, eqb_int, plus, less, to_nat,
}
use dingtalk_oa_attachment_b.Prelude.Sorting.{sort_by}
use dingtalk_oa_attachment_b.Runes.{trim_space, text_lt}
use dingtalk_oa_attachment_b.Domain.Errors.{
  Result, ok, err, ◌>>=◌, ◌>>◌, refuse_if, only, invalid_input, not_found, rate_limited,
}
use dingtalk_oa_attachment_b.Domain.Approval.{User, Approval}
use dingtalk_oa_attachment_b.Domain.Audit.{AuditEvent, is_blank}
use dingtalk_oa_attachment_b.Domain.Search.{
  ApprovalCategory, ApprovalCategorySource, max_approval_search_page_size,
}
use dingtalk_oa_attachment_b.Approvals.Times.{day, minute, unix_milli, unix_milli_time, unix_time}
use dingtalk_oa_attachment_b.Approvals.Library.{
  Library, subject, approval_subject_hash, category_revision,
}
use dingtalk_oa_attachment_b.Approvals.Cursor.{CursorState, encode, decode}
use dingtalk_oa_attachment_b.Approvals.Candidates.{
  CursorSource, Candidate, list_candidates, has_remaining_sources,
}
use dingtalk_oa_attachment_b.Approvals.Catalog.{fetch_visible_catalog, resolve_visible_category}
use dingtalk_oa_attachment_b.Approvals.Catalog.Cache.{Cache, visible_catalog}
use dingtalk_oa_attachment_b.Approvals.SearchLimiter.{SearchRateLimiter, allow}
use dingtalk_oa_attachment_b.Approvals.Authorization.{Item, Request, Answers, authorize_candidates}
use dingtalk_oa_attachment_b.Approvals.Service.{
  Service, validate_authenticated_user, normalize_keyword,
}
use dingtalk_oa_attachment_b.Approvals.States.{SearchQuery, search_state}

abbrev pub default_search_page_size : ℕ
default_search_page_size = 20

abbrev pub min_search_page_size : ℕ
min_search_page_size = 10

pub record SearchResult : Type 0 where
  pub category_id : Text
  pub items : List Item
  pub next_cursor : Text

abbrev texts_before : Item → Item → Bool
texts_before a b =
    if a.create_time == b.create_time
    then text_lt b.process_instance_id a.process_instance_id
    else text_lt b.create_time a.create_time

-- The later creation comes first, then a time that could be parsed.
abbrev times_before : Bool → Option ℤ → Option ℤ → Bool
times_before texts (some s) (some t) = if eqb_int s t then texts else ltb_int t s
times_before texts (some s) none = true
times_before texts none (some t) = false
times_before texts none none = texts

-- The order of sort.SliceStable.
unfoldable pub item_before : Library → Item → Item → Bool
item_before go a b =
    times_before (texts_before a b) (go.parse_time a.create_time) (go.parse_time b.create_time)

-- What a search depends on besides its arguments: the times at which it reads the clock, the order of
-- its goroutines, and the answers of the provider once they have been canceled.
pub record Run : Type 0 where
  pub allowed_at : ℕ
  pub looked : ℕ
  pub refreshed : ℕ
  pub checked : ℕ
  pub read : ℕ
  pub audited_at : ℕ
  pub written : ℕ
  pub schedule : List Candidate → List ℕ
  pub after : Text → Result Approval

-- The state that requests share, with the events recorded so far.
pub record SearchWorld : Type 0 where
  pub limiter : SearchRateLimiter
  pub cache : Cache
  pub audits : List AuditEvent

-- The limit of a query: 20 if it is 0.
unfoldable pub limit_of : ℤ → Result ℕ
limit_of limit =
    let chosen = if eqb_int limit (pos 0) then pos default_search_page_size else limit in
    refuse_if
      (ltb_int chosen (pos min_search_page_size)
        || ltb_int (pos max_approval_search_page_size) chosen)
      (only invalid_input)
    >> ok (to_nat chosen)

abbrev pub found_category : Option ApprovalCategory → Result ApprovalCategory
found_category none = err (only not_found)
found_category (some category) = ok category

-- What is listed before any approval is looked up.
pub record Listed : Type 0 where
  pub category : ApprovalCategory
  pub state : CursorState
  pub candidates : List Candidate

module _ (service : Service) (run : Run) (user : User) where
  -- The checks before the rate limiter.
  unfoldable pub check_search : SearchQuery → Text → Result ℕ
  check_search query request_id =
      validate_authenticated_user user
      >> (refuse_if (is_blank request_id) (only invalid_input) >> limit_of query.limit)

  unfoldable pub list_page : SearchQuery → ℕ → List ApprovalCategory → Result Listed
  list_page query limit categories = do
    category ← found_category (resolve_visible_category categories (trim_space query.category_id))
    state ← search_state service category user run.checked run.read query
    listed ←
        list_candidates service.provider.list_ids state.start_ms state.end_ms category state.sources
          limit
    ok (record {
      category = category;
      state = record state { sources = listed.0 };
      candidates = listed.1;
    })

  abbrev pub search_request : Text → Text → Request
  search_request keyword request_id = record {
    user = user;
    keyword = keyword;
    request_id = request_id;
    action = lit "approvals.search";
    now = run.audited_at;
  }

  abbrev pub provider_answers : Answers
  provider_answers = record { before = service.provider.approval; after = run.after }

  abbrev cursor_of : Bool → CursorState → Result Text
  cursor_of false state = ok []
  cursor_of true state =
      encode service.go service.base64 service.key service.cursor_json run.written state

  -- The items in their order, and the next cursor.
  unfoldable pub search_result : Listed → List Item → Result SearchResult
  search_result l items = cursor_of (has_remaining_sources l.state.sources) l.state >>= λ cursor.
      ok (record {
        category_id = l.category.id;
        items = sort_by (item_before service.go) items;
        next_cursor = cursor;
      })

  abbrev pub authorized : Text → Result Listed → Result SearchResult × List AuditEvent
  authorized request_id (err f) = (err f, [])
  authorized request_id (ok l) =
      let answer =
        authorize_candidates service (search_request l.state.keyword request_id) provider_answers
          l.candidates (run.schedule l.candidates) in
      (answer.0 >>= search_result l, answer.1)

  -- Search once the rate limiter has let it pass.
  unfoldable pub search_allowed :
      SearchQuery → Text → ℕ → SearchWorld → Result SearchResult × SearchWorld
  search_allowed query request_id limit w =
      let catalog =
        visible_catalog w.cache (approval_subject_hash service.go user) run.looked run.refreshed
          (fetch_visible_catalog service.go service.key user service.provider.list_templates) in
      let answer = authorized request_id (catalog.0 >>= list_page query limit) in
      (answer.0, record w { cache = catalog.1; audits = w.audits ++ answer.1 })

  abbrev limited :
      SearchQuery
      → Text
      → ℕ
      → SearchWorld
      → Bool × SearchRateLimiter
      → Result SearchResult × SearchWorld
  limited query request_id limit w (false, limiter) =
      (err (only rate_limited), record w { limiter = limiter })
  limited query request_id limit w (true, limiter) =
      search_allowed query request_id limit (record w { limiter = limiter })

  abbrev pub checked_search :
      SearchQuery → Text → SearchWorld → Result ℕ → Result SearchResult × SearchWorld
  checked_search query request_id w (err f) = (err f, w)
  checked_search query request_id w (ok limit) =
      limited query request_id limit w (allow w.limiter (subject user) run.allowed_at)

  -- Search
  unfoldable pub search : SearchQuery → Text → SearchWorld → Result SearchResult × SearchWorld
  search query request_id w = checked_search query request_id w (check_search query request_id)
