-- ===== src/Approvals/Tests/Searches.antt =====
-- A search whose two goroutines run in the other order.
use dingtalk_oa_attachment_b.Prelude.{
  ℕ, zero, suc, ◌+◌, ◌*◌, ◌≤◌, ◌≡◌, ◌≢◌, refl, ap, false, List, [], ◌∷◌, none, Text, Text-discrete,
  ℕ_discrete, lit, text_eq, ◌==◌, map, length, All, In, inl, inr, if◌then◌else◌,
}
use dingtalk_oa_attachment_b.Prelude.Int.{pos, minus}
use dingtalk_oa_attachment_b.Prelude.Assoc.{lookup, insert, delete_where}
use dingtalk_oa_attachment_b.Prelude.Sorting.{IsSorted, sort_by, put}
use dingtalk_oa_attachment_b.Runes.{
  trim_space, trim_left, trim_right, is_space, is_control, byte_len, rune_len, has_prefix, to_upper,
  text_lt,
}
use dingtalk_oa_attachment_b.Domain.Errors.{ok, err, error_class, Sentinel-discrete}
use dingtalk_oa_attachment_b.Domain.Identifier.{normalize_process_instance_id, is_unsafe}
use dingtalk_oa_attachment_b.Domain.Approval.{User, Approval, Attachment, form, can_access}
use dingtalk_oa_attachment_b.Domain.Search.{ApprovalCategory, max_approval_search_page_size}
use dingtalk_oa_attachment_b.Approvals.Times.{second, unix_epoch}
use dingtalk_oa_attachment_b.Approvals.Library.{
  approval_subject_hash, category_revision, revision, subject, category_id,
}
use dingtalk_oa_attachment_b.Approvals.Candidates.{
  Candidate, count_active, advance, add_id, add_ids, list_source, list_sources, list_candidates,
  has_remaining_sources,
}
use dingtalk_oa_attachment_b.Approvals.Catalog.{
  is_invalid_template, category_lt, sort_visible_categories, new_category, add_category,
  add_template, add_templates, fetch_pages, fetch_visible_catalog, resolve_visible_category,
}
use dingtalk_oa_attachment_b.Approvals.Catalog.Cache.{
  cached_visible_catalog, store_visible_catalog, make_room, evict, oldest, load_visible_catalog,
  visible_catalog,
}
use dingtalk_oa_attachment_b.Approvals.Cursor.{CursorState}
use dingtalk_oa_attachment_b.Approvals.SearchLimiter.{
  allow, allow_held, current, has_passed, prune, new_search_rate_limiter,
}
use dingtalk_oa_attachment_b.Approvals.Service.{
  Service, Provider, validate_authenticated_user, normalize_keyword,
}
use dingtalk_oa_attachment_b.Approvals.Authorization.{
  Item, item_of, Request, Answers, nth, collect, search_event, record_then, judge, settle,
  finish_one, run_one, run_all, authorize_candidates,
}
use dingtalk_oa_attachment_b.Approvals.Authorization.Schedules.{
  shown_of, audited_all, authorize_candidates-collect,
}
use dingtalk_oa_attachment_b.Approvals.Search.{
  SearchResult, SearchWorld, Run, item_before, limit_of, check_search, list_page, search_result,
  search_allowed, search,
}
use dingtalk_oa_attachment_b.Approvals.Search.Laws.{IsShownItem, search-IsShownItem}
use dingtalk_oa_attachment_b.Approvals.States.{
  SearchQuery, validate_time_range, new_state, search_state,
}
use dingtalk_oa_attachment_b.Approvals.States.Laws.{search_state-IsOwn}
use dingtalk_oa_attachment_b.Approvals.Tests.Codec.{sample_library, sample_base64}
use dingtalk_oa_attachment_b.Approvals.Tests.Cursors.{
  cursor_json, family_json, CategoryCursorState-discrete,
}
use dingtalk_oa_attachment_b.Approvals.Tests.Walks.{state_of}

abbrev ann : User
ann = record { corp_id = lit "corp"; user_id = lit "ann"; union_id = []; display_name = [] }

abbrev attachment : Attachment
attachment = record {
  file_id = lit "f";
  file_name = lit "f.txt";
  file_size = 1;
  file_type = [];
  space_id = [];
  source = form;
}

abbrev approval_by : Text → Text → Approval
approval_by id originator = record {
  process_instance_id = id;
  process_code = [];
  business_id = [];
  title = [];
  status = [];
  result = [];
  create_time = [];
  finish_time = [];
  originator_user_id = originator;
  approver_user_ids = [];
  cc_user_ids = [];
  task_user_ids = [];
  form_values = [];
  operation_records = [];
  attachments = attachment ∷ [];
}

-- Two approvals of Ann's and one of Bob's.
abbrev provider : Provider
provider = record {
  list_templates = λ q. ok (record {
    templates = record { process_code = lit "code"; name = lit "trip"; directory_name = [] } ∷ [];
    next_token = none;
  });
  list_ids = λ q.
      ok (record { process_instance_ids = lit "a" ∷ lit "b" ∷ lit "c" ∷ []; next_token = none });
  approval = λ id. ok (approval_by id (if id == lit "b" then lit "bob" else lit "ann"));
}

abbrev service : Service
service = record {
  go = sample_library;
  base64 = sample_base64;
  cursor_json = cursor_json;
  category_json = family_json CategoryCursorState-discrete state_of (λ s. 0);
  key = [];
  provider = provider;
  record_audit = λ e. ok tt;
  administrators = [];
  detail_concurrency = 2;
  requests_per_minute = 1;
}

abbrev now : ℕ
now = unix_epoch * second + 1000 * second

abbrev request : Request
request = record {
  user = ann;
  keyword = [];
  request_id = lit "request";
  action = lit "approvals.search";
  now = now;
}

abbrev answers : Answers
answers = record { before = provider.approval; after = λ id. err [] }

abbrev candidate : Text → Candidate
candidate id = record { process_instance_id = id; source = record { process_code = lit "code" } }

abbrev candidates : List Candidate
candidates = candidate (lit "a") ∷ candidate (lit "b") ∷ candidate (lit "c") ∷ []

abbrev items : List Item
items =
    item_of (approval_by (lit "a") (lit "ann")) ∷ item_of (approval_by (lit "c") (lit "ann")) ∷ []

abbrev backwards : List ℕ
backwards = 2 ∷ 1 ∷ 0 ∷ []

covering : (n : ℕ) → nth n candidates ≢ none → In n backwards
covering zero h = inr (inr (inl refl))
covering (suc zero) h = inr (inl refl)
covering (suc (suc zero)) h = inl refl
covering (suc (suc (suc n))) h = absurd (h refl)

returned : (authorize_candidates service request answers candidates backwards).0 ≡ ok items
unfolding authorize_candidates run_all run_one finish_one settle judge record_then can_access
    item_of search_event error_class Text-discrete ℕ_discrete Sentinel-discrete
returned = refl

authorize_candidates-collect_example :
    (items
      ≡ collect service request answers candidates
          (map (shown_of service request answers candidates) candidates))
    × ((authorize_candidates service request answers candidates backwards).1
        ≡ audited_all service request answers candidates backwards)
authorize_candidates-collect_example =
    authorize_candidates-collect service request answers candidates backwards items covering
      returned

abbrev in_order : List Candidate → List ℕ
in_order [] = []
in_order (c ∷ cs) = zero ∷ map suc (in_order cs)

In-map-suc : (n : ℕ) (ns : List ℕ) → In n ns → In (suc n) (map suc ns)
In-map-suc n [] h = h
In-map-suc n (m ∷ ms) (inl e) = inl (ap suc e)
In-map-suc n (m ∷ ms) (inr h) = inr (In-map-suc n ms h)

in_order_covers : (cs : List Candidate) (n : ℕ) → nth n cs ≢ none → In n (in_order cs)
in_order_covers [] n h = absurd (h refl)
in_order_covers (c ∷ cs) zero h = inl refl
in_order_covers (c ∷ cs) (suc n) h = inr (In-map-suc n (in_order cs) (in_order_covers cs n h))

abbrev run : Run
run = record {
  allowed_at = now;
  looked = now;
  refreshed = now;
  checked = now;
  read = now;
  audited_at = now;
  written = now;
  schedule = in_order;
  after = λ id. err [];
}

abbrev category : ApprovalCategory
category = new_category sample_library [] ann (lit "code") (lit "trip") []

abbrev query : SearchQuery
query = record {
  category_id = category.id;
  keyword = [];
  created_after = none;
  created_before = none;
  cursor = [];
  limit = pos 0;
}

abbrev world : SearchWorld
world = record { limiter = new_search_rate_limiter 1; cache = []; audits = [] }

abbrev result : SearchResult
result = record {
  category_id = category.id;
  items = sort_by (item_before sample_library) items;
  next_cursor = [];
}

searched : (search service run ann query (lit "request") world).0 ≡ ok result
unfolding search check_search validate_authenticated_user limit_of allow allow_held current
    has_passed prune new_search_rate_limiter search_allowed visible_catalog load_visible_catalog
    cached_visible_catalog store_visible_catalog make_room evict oldest lookup insert delete_where
    fetch_visible_catalog fetch_pages add_templates add_template add_category is_invalid_template
    sort_visible_categories sort_by put category_lt text_lt new_category category_id subject
    trim_space trim_left trim_right is_space byte_len rune_len list_page resolve_visible_category
    search_state normalize_keyword new_state validate_time_range list_candidates list_sources
    list_source count_active advance add_id add_ids normalize_process_instance_id is_unsafe
    is_control has_prefix to_upper authorize_candidates run_all run_one finish_one settle judge
    record_then can_access item_of search_event error_class search_result has_remaining_sources
    approval_subject_hash category_revision revision Text-discrete ℕ_discrete Sentinel-discrete
searched = refl

search-IsShownItem_example :
    (length result.items ≤ max_approval_search_page_size)
    × All (IsShownItem service ann) result.items
    × IsSorted (item_before sample_library) result.items
search-IsShownItem_example =
    search-IsShownItem service run ann query (lit "request") world result
      (λ r cs n h. in_order_covers cs n h) searched

abbrev first_state : CursorState
first_state = record {
  version = pos 0;
  subject_hash = approval_subject_hash sample_library ann;
  category_id = category.id;
  category_revision = category_revision sample_library category;
  keyword = [];
  start_ms = minus (1000 * 1000) (120 * 24 * 3600 * 1000);
  end_ms = pos (1000 * 1000);
  issued_at = pos 0;
  sources = record { next_token = pos 0; done = false } ∷ [];
}

stated : search_state service category ann now now query ≡ ok first_state
unfolding search_state normalize_keyword new_state validate_time_range trim_space trim_left
    trim_right new_category category_revision approval_subject_hash revision
stated = refl

search_state-IsOwn_example :
    (first_state.subject_hash ≡ approval_subject_hash sample_library ann)
    × (first_state.category_id ≡ category.id)
    × (first_state.category_revision ≡ category_revision sample_library category)
    × (length first_state.sources ≡ length category.sources)
search_state-IsOwn_example =
    search_state-IsOwn service category ann now now query first_state stated
