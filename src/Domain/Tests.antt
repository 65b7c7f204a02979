-- ===== src/Domain/Tests.antt =====
-- Runs of internal/domain on small inputs.
use dingtalk_oa_attachment_b.Prelude.{
  ◌≡◌, ◌≢◌, ◌↔◌, ◌⊎◌, [], ◌∷◌, Option, none, Text, lit, All, In, arith,
}
use dingtalk_oa_attachment_b.Prelude.{true}
use dingtalk_oa_attachment_b.Runes.{trim_space}
use dingtalk_oa_attachment_b.Domain.Errors.{ok}
use dingtalk_oa_attachment_b.Domain.Identifier.{normalize_process_instance_id}
use dingtalk_oa_attachment_b.Domain.Identifier.Laws.{IsNormal, normalize-IsNormal}
use dingtalk_oa_attachment_b.Domain.Approval.{
  Attachment, Approval, OperationRecord, form, comment, can_access, find_in,
}
use dingtalk_oa_attachment_b.Domain.Access.{TakesPart, can_access_iff}
use dingtalk_oa_attachment_b.Domain.Json.{Value}
use dingtalk_oa_attachment_b.Domain.Collect.{parse_attachments}
use dingtalk_oa_attachment_b.Domain.Collect.Laws.{
  first_with, ◌or_else◌, IsTidy, IsDistinct, form_candidates, comment_candidates,
  find_in-parse_attachments, parse_attachments-IsDistinct,
}

normalize-IsNormal_example :
    (normalize_process_instance_id (lit " a-1 ") ≡ ok (lit "a-1"))
    ↔ ((trim_space (lit " a-1 ") ≡ lit "a-1") × IsNormal (lit "a-1"))
normalize-IsNormal_example = normalize-IsNormal (lit " a-1 ") (lit "a-1")

abbrev report : Attachment
report = record {
  file_id = lit " f1";
  file_name = lit "report.pdf";
  file_size = 3;
  file_type = lit "pdf";
  space_id = lit "s1";
  source = form;
}

abbrev signed : OperationRecord
signed = record { user_id = lit "ann"; cc_user_ids = []; attachments = report ∷ report ∷ [] }

abbrev leave : Approval
leave = record {
  process_instance_id = lit "a-1";
  process_code = lit "PROC-1";
  business_id = lit "b";
  title = lit "Leave";
  status = lit "COMPLETED";
  result = lit "agree";
  create_time = lit "t";
  finish_time = lit "t";
  originator_user_id = lit "ann";
  approver_user_ids = lit "bob" ∷ [];
  cc_user_ids = [];
  task_user_ids = [];
  form_values = [];
  operation_records = signed ∷ [];
  attachments = report ∷ [];
}

can_access_iff_example :
    (can_access leave (lit "bob") [] ≡ true)
    ↔ ((lit "bob" ≢ []) × (In (lit "bob") [] ⊎ TakesPart leave (lit "bob")))
can_access_iff_example = can_access_iff leave (lit "bob") []

abbrev no_json : Text → Option Value
no_json raw = none

find_in-parse_attachments_example :
    find_in (lit "f1") (parse_attachments no_json [] (signed ∷ [])) ≡ (
      first_with (lit "f1") form (form_candidates no_json [])
      or_else first_with (lit "f1") comment (comment_candidates no_json (signed ∷ [])))
find_in-parse_attachments_example =
    find_in-parse_attachments no_json [] (signed ∷ []) (lit "f1") (ground arith)

parse_attachments-IsDistinct_example :
    All IsTidy (parse_attachments no_json [] (signed ∷ []))
    × IsDistinct (parse_attachments no_json [] (signed ∷ []))
parse_attachments-IsDistinct_example = parse_attachments-IsDistinct no_json [] (signed ∷ [])
