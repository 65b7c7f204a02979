-- ===== src/Approvals/States.antt =====
-- internal/approvals/service.go: searchState, the state that a search starts or goes on from.
pub mod Laws
use dingtalk_oa_attachment_b.Prelude.{
  ℕ, ◌*◌, Bool, true, false, ◌||◌, ◌&&◌, not, List, [], ◌∷◌, ◌++◌, Option, none, some, Text, lit,
  eqb, length, any, map, is_empty, if◌then◌else◌, ◌==◌, text_eq,
}
use dingtalk_oa_attachment_b.Prelude.Int.{
  ℤ, pos, is_negative, leb_int, ltb_int, eqb_int, plus, less, to_nat,
}
use dingtalk_oa_attachment_b.Prelude.Sorting.{sort_by}
use dingtalk_oa_attachment_b.Runes.{trim_space, text_lt}
use dingtalk_oa_attachment_b.Domain.Errors.{
  Result, ok, err, ◌>>=◌, ◌>>◌, refuse_if, only, invalid_input, not_found, rate_limited,
}
use dingtalk_oa_attachment_b.Domain.Approval.{User, Approval}
use dingtalk_oa_attachment_b.Domain.Audit.{AuditEvent, is_blank}
use dingtalk_oa_attachment_b.Domain.Search.{
  ApprovalCategory, ApprovalCategorySource, max_approval_search_page_size,
}
use dingtalk_oa_attachment_b.Approvals.Times.{day, minute, unix_milli, unix_milli_time, unix_time}
use dingtalk_oa_attachment_b.Approvals.Library.{
  Library, subject, approval_subject_hash, category_revision,
}
use dingtalk_oa_attachment_b.Approvals.Cursor.{CursorState, encode, decode}
use dingtalk_oa_attachment_b.Approvals.Candidates.{
  CursorSource, Candidate, list_candidates, has_remaining_sources,
}
use dingtalk_oa_attachment_b.Approvals.Catalog.{fetch_visible_catalog, resolve_visible_category}
use dingtalk_oa_attachment_b.Approvals.Catalog.Cache.{Cache, visible_catalog}
use dingtalk_oa_attachment_b.Approvals.SearchLimiter.{SearchRateLimiter, allow}
use dingtalk_oa_attachment_b.Approvals.Authorization.{Item, Request, Answers, authorize_candidates}
use dingtalk_oa_attachment_b.Approvals.Service.{
  Service, validate_authenticated_user, normalize_keyword,
}

abbrev pub max_search_range : ℕ
max_search_range = 120 * day

abbrev pub max_search_history : ℕ
max_search_history = 365 * day

abbrev pub search_clock_skew : ℕ
search_clock_skew = minute

pub record SearchQuery : Type 0 where
  pub category_id : Text
  pub keyword : Text
  pub created_after : Option ℤ
  pub created_before : Option ℤ
  pub cursor : Text
  pub limit : ℤ

-- validateTimeRange. A difference that Go's Sub cuts off exceeds the range as well.
unfoldable pub validate_time_range : ℤ → ℤ → ℤ → Result (Unit {0})
validate_time_range start end now =
    refuse_if (eqb_int start (pos 0) || eqb_int end (pos 0) || leb_int end start)
      (only invalid_input)
    >> (refuse_if (ltb_int (plus start max_search_range) end) (only invalid_input)
        >> (refuse_if (ltb_int (plus start max_search_history) now) (only invalid_input)
            >> refuse_if (ltb_int (plus now search_clock_skew) end) (only invalid_input)))

-- cursorMatchesCategory
unfoldable pub cursor_matches_category : Library → CursorState → ApprovalCategory → Bool
cursor_matches_category go state category =
    state.category_revision == category_revision go category
    && eqb (length state.sources) (length category.sources)
    && not (any (λ s. is_negative s.next_token) state.sources)

abbrev is_given : Option ℤ → Bool
is_given none = false
is_given (some t) = true

abbrev or_at : ℤ → Option ℤ → ℤ
or_at t none = t
or_at t (some u) = u

abbrev new_source : ApprovalCategorySource → CursorSource
new_source source = record { next_token = pos 0; done = false }

module _ (service : Service) (category : ApprovalCategory) (user : User) where
  -- The checks of a cursor that Decode took.
  unfoldable pub check_state : CursorState → Result CursorState
  check_state state =
      refuse_if
        (not (state.category_id == category.id)
          || not (cursor_matches_category service.go state category))
        (only invalid_input)
      >> (refuse_if (not (state.subject_hash == approval_subject_hash service.go user))
            (only invalid_input)
          >> (validate_time_range (unix_milli_time state.start_ms) (unix_milli_time state.end_ms)
                (unix_time state.issued_at)
              >> ok state))

  abbrev resumed_state : ℕ → SearchQuery → Result CursorState
  resumed_state now query =
      refuse_if
        (is_given query.created_after
          || is_given query.created_before
          || not (is_blank query.keyword))
        (only invalid_input)
      >> (decode service.go service.base64 service.key service.cursor_json now
            (trim_space query.cursor)
          >>= check_state)

  -- The state of a search without a cursor, for its times.
  unfoldable pub new_state : ℕ → Text → ℤ → ℤ → Result CursorState
  new_state now keyword start end =
      validate_time_range start end (pos now)
      >> ok (record {
        version = pos 0;
        subject_hash = approval_subject_hash service.go user;
        category_id = category.id;
        category_revision = category_revision service.go category;
        keyword = keyword;
        start_ms = unix_milli start;
        end_ms = unix_milli end;
        issued_at = pos 0;
        sources = map new_source category.sources;
      })

  abbrev first_state : ℕ → SearchQuery → Result CursorState
  first_state now query = normalize_keyword query.keyword >>= λ keyword.
      let end = or_at (pos now) query.created_before in
      new_state now keyword (or_at (less end max_search_range) query.created_after) end

  -- searchState, with the times at which it and Decode read the clock.
  unfoldable pub search_state : ℕ → ℕ → SearchQuery → Result CursorState
  search_state now read query =
      if is_blank query.cursor then first_state now query else resumed_state read query
