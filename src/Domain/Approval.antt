-- ===== src/Domain/Approval.antt =====
-- internal/domain/approval.go: who may see an approval, and its attachments.
use dingtalk_oa_attachment_b.Prelude.{
  ℕ, Bool, true, false, ◌||◌, List, [], ◌∷◌, Option, none, some, Text, ◌==◌, text_eq, contains,
  is_empty, if◌then◌else◌,
}

pub data AttachmentSource : Type 0 where
  form comment : AttachmentSource

pub record User : Type 0 where
  pub corp_id : Text
  pub user_id : Text
  pub union_id : Text
  pub display_name : Text

pub record Attachment : Type 0 where
  pub file_id : Text
  pub file_name : Text
  pub file_size : ℕ
  pub file_type : Text
  pub space_id : Text
  pub source : AttachmentSource

pub record FormValue : Type 0 where
  pub name : Text
  pub value : Text
  pub ext_value : Text

pub record OperationRecord : Type 0 where
  pub user_id : Text
  pub cc_user_ids : List Text
  pub attachments : List Attachment

pub record Approval : Type 0 where
  pub process_instance_id : Text
  pub process_code : Text
  pub business_id : Text
  pub title : Text
  pub status : Text
  pub result : Text
  pub create_time : Text
  pub finish_time : Text
  pub originator_user_id : Text
  pub approver_user_ids : List Text
  pub cc_user_ids : List Text
  pub task_user_ids : List Text
  pub form_values : List FormValue
  pub operation_records : List OperationRecord
  pub attachments : List Attachment

-- Approval.CanAccess. The administrators are a set of user IDs, as the list of its members.
unfoldable pub can_access : Approval → Text → List Text → Bool
can_access a user_id administrators =
    if is_empty user_id
    then false
    else if contains administrators user_id
    then true
    else if a.originator_user_id == user_id
    then true
    else contains a.approver_user_ids user_id
      || contains a.cc_user_ids user_id
      || contains a.task_user_ids user_id

-- The loop of FindAttachment.
unfoldable pub find_in : Text → List Attachment → Option Attachment
find_in file_id [] = none
find_in file_id (x ∷ xs) = if x.file_id == file_id then some x else find_in file_id xs

-- Approval.FindAttachment
unfoldable pub find_attachment : Approval → Text → Option Attachment
find_attachment a file_id = if is_empty file_id then none else find_in file_id a.attachments
