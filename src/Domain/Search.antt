-- ===== src/Domain/Search.antt =====
-- internal/domain/approval_search.go: what the search of approvals asks of the approval provider.
use dingtalk_oa_attachment_b.Prelude.{ℕ, List, Option, Text}
use dingtalk_oa_attachment_b.Prelude.Int.{ℤ}

abbrev pub max_approval_search_page_size : ℕ
max_approval_search_page_size = 20

pub record ApprovalCategorySource : Type 0 where
  pub process_code : Text

pub record ApprovalCategory : Type 0 where
  pub id : Text
  pub display_name : Text
  pub directory_name : Text
  pub description : Text
  pub sources : List ApprovalCategorySource

pub record VisibleApprovalTemplate : Type 0 where
  pub process_code : Text
  pub name : Text
  pub directory_name : Text

pub record VisibleApprovalTemplateQuery : Type 0 where
  pub user_id : Text
  pub next_token : ℤ
  pub max_results : ℕ

pub record VisibleApprovalTemplatePage : Type 0 where
  pub templates : List VisibleApprovalTemplate
  pub next_token : Option ℤ

-- The times are those of the cursor, in milliseconds since 1970.
pub record ApprovalInstanceIdQuery : Type 0 where
  pub process_code : Text
  pub start_ms : ℤ
  pub end_ms : ℤ
  pub next_token : ℤ
  pub max_results : ℕ

pub record ApprovalInstanceIdPage : Type 0 where
  pub process_instance_ids : List Text
  pub next_token : Option ℤ
