-- ===== src/Approvals/Service.antt =====
-- internal/approvals/service.go: what a Service is made of, and the checks that its requests share.
use dingtalk_oa_attachment_b.Prelude.{ℕ, ◌||◌, List, Text, ltb, length}
use dingtalk_oa_attachment_b.Runes.{trim_space}
use dingtalk_oa_attachment_b.Domain.Errors.{
  Result, ok, ◌>>=◌, ◌>>◌, refuse_if, only, invalid_input, unauthorized,
}
use dingtalk_oa_attachment_b.Domain.Approval.{User, Approval}
use dingtalk_oa_attachment_b.Domain.Audit.{AuditEvent, is_blank}
use dingtalk_oa_attachment_b.Domain.Search.{
  VisibleApprovalTemplateQuery, VisibleApprovalTemplatePage, ApprovalInstanceIdQuery,
  ApprovalInstanceIdPage, max_approval_search_page_size,
}
use dingtalk_oa_attachment_b.Approvals.Library.{Library, Bytes}
use dingtalk_oa_attachment_b.Approvals.Cursor.{
  Base64, Json, CursorState, CategoryCursorState, new_cursor_codec,
}

-- The interfaces Provider and AuditRepository. Within a request each answers a question once, so an
-- answer is a function of the question.
pub record Provider : Type 0 where
  pub list_templates : VisibleApprovalTemplateQuery → Result VisibleApprovalTemplatePage
  pub list_ids : ApprovalInstanceIdQuery → Result ApprovalInstanceIdPage
  pub approval : Text → Result Approval

-- Service, less what changes: the cached catalogs and the rate limiter.
pub record Service : Type 0 where
  pub go : Library
  pub base64 : Base64
  pub cursor_json : Json CursorState
  pub category_json : Json CategoryCursorState
  pub key : Bytes
  pub provider : Provider
  pub record_audit : AuditEvent → Result (Unit {0})
  pub administrators : List Text
  pub detail_concurrency : ℕ
  pub requests_per_minute : ℕ

-- NewService, for options with a provider and an audit repository: the two numbers and the key.
unfoldable pub new_service : Service → Result Service
new_service options = new_cursor_codec options.key >>= λ key.
    refuse_if
      (ltb options.detail_concurrency 1
        || ltb max_approval_search_page_size options.detail_concurrency)
      (only invalid_input)
    >> (refuse_if (ltb options.requests_per_minute 1) (only invalid_input)
        >> ok (record options { key = key }))

abbrev pub max_keyword_runes : ℕ
max_keyword_runes = 100

-- validateAuthenticatedUser
unfoldable pub validate_authenticated_user : User → Result (Unit {0})
validate_authenticated_user user =
    refuse_if (is_blank user.corp_id || is_blank user.user_id) (only unauthorized)

-- normalizeKeyword
unfoldable pub normalize_keyword : Text → Result Text
normalize_keyword value =
    let normalized = trim_space value in
    refuse_if (ltb max_keyword_runes (length normalized)) (only invalid_input) >> ok normalized
