-- ===== src/Attachments/Service/Tests.antt =====
-- A list and a download of one attachment.
use dingtalk_oa_attachment_b.Prelude.{
  ℕ, ◌≡◌, refl, List, [], ◌∷◌, none, some, Text, lit, Text-discrete, ℕ_discrete,
}
use dingtalk_oa_attachment_b.Prelude.Assoc.{lookup, insert}
use dingtalk_oa_attachment_b.Runes.{
  trim_space, trim_left, trim_right, is_space, is_control, byte_len, rune_len, has_prefix, to_upper,
}
use dingtalk_oa_attachment_b.Domain.Errors.{ok}
use dingtalk_oa_attachment_b.Domain.Audit.{allowed}
use dingtalk_oa_attachment_b.Domain.Identifier.{normalize_process_instance_id, is_unsafe}
use dingtalk_oa_attachment_b.Domain.Approval.{
  User, Attachment, Approval, form, can_access, find_attachment, find_in,
}
use dingtalk_oa_attachment_b.Attachments.Limiter.{new_download_limiter, grant, acquire}
use dingtalk_oa_attachment_b.Attachments.Filename.{sanitize_filename, clean, truncate, base}
use dingtalk_oa_attachment_b.Attachments.Service.{
  Ports, Download, World, sized, event, download_checked, download_approval, download_url,
  download_opened, sized_body, handed_out, allow, release_unless_ok, list_subject, download_subject,
  validate_request_identity, list, download,
}
use dingtalk_oa_attachment_b.Attachments.Service.Slots.{Accounted, download-Accounted}
use dingtalk_oa_attachment_b.Attachments.Service.Laws.{Granted, download_authorized}
use dingtalk_oa_attachment_b.Attachments.Service.Listing.{Listed, list-Listed}

abbrev two_bytes : List ℕ
two_bytes = 65 ∷ 66 ∷ []

abbrev ann : User
ann = record {
  corp_id = lit "c";
  user_id = lit "ann";
  union_id = lit "u";
  display_name = lit "Ann";
}

abbrev report : Attachment
report = record {
  file_id = lit "f1";
  file_name = lit "report.pdf";
  file_size = 2;
  file_type = lit "pdf";
  space_id = lit "s1";
  source = form;
}

abbrev leave : Approval
leave = record {
  process_instance_id = lit "a-1";
  process_code = lit "PROC-1";
  business_id = lit "b";
  title = lit "Leave";
  status = lit "COMPLETED";
  result = lit "agree";
  create_time = lit "t";
  finish_time = lit "t";
  originator_user_id = lit "ann";
  approver_user_ids = [];
  cc_user_ids = [];
  task_user_ids = [];
  form_values = [];
  operation_records = [];
  attachments = report ∷ [];
}

abbrev ports : Ports (List ℕ)
ports = record {
  Url = Text;
  approval = λ id. ok leave;
  download_url = λ id file_id. ok file_id;
  open_url = λ url. ok (record {
    body = two_bytes;
    content_type = lit "application/pdf";
    content_length = none;
    max_bytes = 100;
  });
  record_audit = λ e. ok tt;
  administrators = [];
  now = 7;
}

abbrev keep_open : List ℕ → List ℕ
keep_open s = s

abbrev world : World (List ℕ)
world = record { limiter = new_download_limiter 1; audits = []; closed = [] }

valid_lem : validate_request_identity ann (lit "a-1") (lit "r") ≡ ok (lit "a-1")
unfolding validate_request_identity normalize_process_instance_id trim_space is_space is_control
    is_unsafe byte_len rune_len has_prefix to_upper trim_left trim_right
valid_lem = refl

list-Listed_example :
    Listed ports keep_open world
      (list_subject ann (lit "a-1") (lit "r"))
      (list ports keep_open world ann (lit "a-1") (lit "r"))
list-Listed_example =
    list-Listed ports keep_open world ann (lit "a-1") (lit "r") (lit "a-1") valid_lem

download-Accounted_example :
    Accounted ports keep_open world
      (download_subject ann (lit "a-1") (lit "f1") (lit "r"))
      (download ports keep_open world ann (lit "a-1") (lit "f1") (lit "r"))
unfolding trim_space is_space
download-Accounted_example =
    download-Accounted ports keep_open world ann (lit "a-1") (lit "f1") (lit "r") (lit "a-1")
      valid_lem refl

abbrev handed : Download (List ℕ)
handed = record {
  attachment = report;
  body = sized (record { body = two_bytes; remaining = 2 });
  content_type = lit "application/pdf";
  content_length = some 2;
  max_bytes = 100;
  slot = 0;
}

abbrev world_after : World (List ℕ)
world_after = record {
  limiter = grant (new_download_limiter 1) (lit "ann");
  audits = event (download_subject ann (lit "a-1") (lit "f1") (lit "r")) allowed [] 7 ∷ [];
  closed = [];
}

download_lem :
    download ports keep_open world ann (lit "a-1") (lit "f1") (lit "r") ≡ (ok handed, world_after)
unfolding download download_checked download_approval download_url download_opened sized_body
    handed_out allow release_unless_ok acquire grant new_download_limiter validate_request_identity
    normalize_process_instance_id trim_space is_space is_control is_unsafe byte_len rune_len
    has_prefix to_upper trim_left trim_right can_access find_attachment find_in sanitize_filename
    clean truncate base lookup insert Text-discrete ℕ_discrete
download_lem = refl

download_authorized_example :
    (id : Text) × (validate_request_identity ann (lit "a-1") (lit "r") ≡ ok id)
    × Granted ports keep_open ann id (lit "f1") (ok handed, world_after)
download_authorized_example =
    download_authorized ports keep_open world world_after ann (lit "a-1") (lit "f1") (lit "r")
      handed download_lem
