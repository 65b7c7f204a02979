-- ===== src/Domain/Collect.antt =====
-- internal/domain/approval.go: ParseAttachments. `json.Unmarshal` is the parameter `unmarshal`, from a
-- text to the decoded value, or to none where it returns an error.
pub mod Laws
use dingtalk_oa_attachment_b.Prelude.{
  ℕ, Bool, true, false, List, [], ◌∷◌, ◌++◌, Option, none, some, Text, ◌==◌, text_eq, contains,
  is_empty, if◌then◌else◌,
}
use dingtalk_oa_attachment_b.Runes.{trim_space}
use dingtalk_oa_attachment_b.Domain.Approval.{
  Attachment, AttachmentSource, form, comment, FormValue, OperationRecord,
}
use dingtalk_oa_attachment_b.Domain.Json.{Value, walk}

-- The variables that the closure appendAttachment shares with the loops.
pub record Collected : Type 0 where
  pub seen : List Text
  pub attachments : List Attachment

-- The attachment as it is kept.
unfoldable pub tidy : AttachmentSource → Attachment → Attachment
tidy source a = record {
  file_id = trim_space a.file_id;
  file_name = trim_space a.file_name;
  file_size = a.file_size;
  file_type = trim_space a.file_type;
  space_id = trim_space a.space_id;
  source = source;
}

-- appendAttachment
unfoldable pub append_attachment : AttachmentSource → Collected → Attachment → Collected
append_attachment source c a =
    let file_id = trim_space a.file_id in
    if is_empty file_id
    then c
    else if contains c.seen file_id
    then c
    else record { seen = file_id ∷ c.seen; attachments = c.attachments ++ tidy source a ∷ [] }

-- One inner loop.
unfoldable pub append_all : AttachmentSource → Collected → List Attachment → Collected
append_all source c [] = c
append_all source c (a ∷ as') = append_all source (append_attachment source c a) as'

module _ (unmarshal : Text → Option Value) where
  decoded_attachments : Text → List Attachment
  decoded_attachments raw = elim (unmarshal raw) [ none ↦ [] | some v ↦ walk v ]

  -- parseJSONAttachments
  unfoldable pub parse_json_attachments : Text → List Attachment
  unfolding decoded_attachments
  parse_json_attachments raw =
      let trimmed = trim_space raw in if is_empty trimmed then [] else decoded_attachments trimmed

  -- The loop over the form values, each with its value and its extended value.
  unfoldable pub collect_forms : Collected → List FormValue → Collected
  collect_forms c [] = c
  collect_forms c (f ∷ fs) =
      collect_forms
        (append_all form (append_all form c (parse_json_attachments f.value))
          (parse_json_attachments f.ext_value))
        fs

  -- The loop over the operation records.
  unfoldable pub collect_comments : Collected → List OperationRecord → Collected
  collect_comments c [] = c
  collect_comments c (o ∷ os) = collect_comments (append_all comment c o.attachments) os

  -- ParseAttachments
  unfoldable pub parse_attachments : List FormValue → List OperationRecord → List Attachment
  parse_attachments forms operations =
      (collect_comments (collect_forms (record { seen = []; attachments = [] }) forms)
        operations).attachments
