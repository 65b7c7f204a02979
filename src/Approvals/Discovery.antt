-- ===== src/Approvals/Discovery.antt =====
-- internal/approvals/service.go: VisibleCategories, which lists the categories of a user by the hundred.
pub mod Resuming
pub mod Walk
use dingtalk_oa_attachment_b.Prelude.{
  ℕ, ◌+◌, ◌-◌, Bool, true, false, ◌||◌, not, List, [], ◌∷◌, Text, eqb, ltb, length, is_empty, map,
  take, drop, if◌then◌else◌, ◌==◌, text_eq,
}
use dingtalk_oa_attachment_b.Prelude.Int.{ℤ, pos, ltb_int, to_nat}
use dingtalk_oa_attachment_b.Runes.{trim_space}
use dingtalk_oa_attachment_b.Domain.Errors.{
  Result, ok, err, ◌>>=◌, ◌>>◌, refuse_if, only, invalid_input,
}
use dingtalk_oa_attachment_b.Domain.Approval.{User}
use dingtalk_oa_attachment_b.Domain.Audit.{is_blank}
use dingtalk_oa_attachment_b.Domain.Search.{ApprovalCategory}
use dingtalk_oa_attachment_b.Approvals.Library.{approval_subject_hash, category_catalog_revision}
use dingtalk_oa_attachment_b.Approvals.Cursor.{
  CategoryCursorState, encode_category, decode_category,
}
use dingtalk_oa_attachment_b.Approvals.Catalog.{
  visible_categories_matching_keyword, fetch_visible_catalog,
}
use dingtalk_oa_attachment_b.Approvals.Catalog.Cache.{Cache, visible_catalog}
use dingtalk_oa_attachment_b.Approvals.Service.{
  Service, validate_authenticated_user, normalize_keyword,
}

abbrev pub category_page_size : ℕ
category_page_size = 100

pub record Category : Type 0 where
  pub id : Text
  pub display_name : Text
  pub directory_name : Text
  pub description : Text

pub record CategoryDiscoveryQuery : Type 0 where
  pub keyword : Text
  pub cursor : Text

pub record CategoryDiscoveryResult : Type 0 where
  pub categories : List Category
  pub next_cursor : Text
  pub complete : Bool
  pub scanned_pages : ℕ
  pub scanned_candidates : ℕ
  pub total_categories : ℕ

-- publicCategory
unfoldable pub public_category : ApprovalCategory → Category
public_category c = record {
  id = c.id;
  display_name = c.display_name;
  directory_name = c.directory_name;
  description = c.description;
}

-- The variables `keyword`, `offset` and `issuedAt`.
pub record Position : Type 0 where
  pub keyword : Text
  pub offset : ℕ
  pub issued_at : ℤ

unfoldable pub page_end : ℕ → ℕ → ℕ
page_end offset total =
    if ltb total (offset + category_page_size) then total else offset + category_page_size

module _ (service : Service) (user : User) (catalog : List ApprovalCategory) where
  abbrev pub matching : Text → List ApprovalCategory
  matching keyword = visible_categories_matching_keyword service.go catalog keyword

  abbrev pub subject_hash : Text
  subject_hash = approval_subject_hash service.go user

  abbrev pub revision_of : Text → Text
  revision_of keyword = category_catalog_revision service.go (matching keyword)

  -- The checks of a cursor that has been decoded; DecodeCategory took no negative offset.
  unfoldable pub position_of : CategoryCursorState → Result Position
  position_of state =
      refuse_if (not (state.subject_hash == subject_hash)) (only invalid_input)
      >> (refuse_if
            (not (state.catalog_revision == revision_of state.keyword)
              || ltb_int (pos (length (matching state.keyword))) state.offset)
            (only invalid_input)
          >> ok (record {
            keyword = state.keyword;
            offset = to_nat state.offset;
            issued_at = state.issued_at;
          }))

  -- Where the listing starts.
  unfoldable pub resume : ℕ → CategoryDiscoveryQuery → Result Position
  resume now query =
      if is_blank query.cursor
      then (normalize_keyword query.keyword >>= λ keyword.
          ok (record { keyword = keyword; offset = 0; issued_at = pos 0 }))
      else refuse_if (not (is_blank query.keyword)) (only invalid_input)
        >> (decode_category service.go service.base64 service.key service.category_json now
              (trim_space query.cursor)
            >>= position_of)

  abbrev pub next_state : Text → ℕ → ℤ → CategoryCursorState
  next_state keyword end issued_at = record {
    version = pos 0;
    subject_hash = subject_hash;
    keyword = keyword;
    catalog_revision = revision_of keyword;
    offset = pos end;
    issued_at = issued_at;
  }

  abbrev pub next_cursor : Bool → ℕ → CategoryCursorState → Result Text
  next_cursor true now state = ok []
  next_cursor false now state =
      encode_category service.go service.base64 service.key service.category_json now state

  -- The page from a position to an end.
  unfoldable pub page_to : ℕ → Position → ℕ → Result CategoryDiscoveryResult
  page_to now p end =
      let categories = matching p.keyword in
      let total = length categories in
      next_cursor (eqb end total) now (next_state p.keyword end p.issued_at) >>= λ cursor.
      ok (record {
        categories = map public_category (take (end - p.offset) (drop p.offset categories));
        next_cursor = cursor;
        complete = eqb end total;
        scanned_pages = 1;
        scanned_candidates = end - p.offset;
        total_categories = total;
      })

  unfoldable pub page_from : ℕ → Position → Result CategoryDiscoveryResult
  page_from now p = page_to now p (page_end p.offset (length (matching p.keyword)))

  -- VisibleCategories once the catalog is there, with the times at which it reads and writes a cursor.
  unfoldable pub categories_page : ℕ → ℕ → CategoryDiscoveryQuery → Result CategoryDiscoveryResult
  categories_page read_at written_at query = resume read_at query >>= page_from written_at

-- The times at which a request reads the clock.
pub record Times : Type 0 where
  pub looked : ℕ
  pub refreshed : ℕ
  pub read : ℕ
  pub written : ℕ

abbrev answer_with :
    {A : Type 0} {B : Type 0} → (A → Result B) → Result A × Cache → Result B × Cache
answer_with next r = (r.0 >>= next, r.1)

abbrev after_check : {B : Type 0} → Result (Unit {0}) → Result B × Cache → Cache → Result B × Cache
after_check (err f) next cache = (err f, cache)
after_check (ok _) next cache = next

-- VisibleCategories
unfoldable pub visible_categories :
    Service
    → Times
    → Cache
    → User
    → CategoryDiscoveryQuery
    → Text
    → Result CategoryDiscoveryResult × Cache
visible_categories service times cache user query request_id =
    after_check
      (validate_authenticated_user user >> refuse_if (is_blank request_id) (only invalid_input))
      (answer_with (λ catalog. categories_page service user catalog times.read times.written query)
        (visible_catalog cache (approval_subject_hash service.go user) times.looked times.refreshed
          (fetch_visible_catalog service.go service.key user service.provider.list_templates)))
      cache
