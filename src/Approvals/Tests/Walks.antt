-- ===== src/Approvals/Tests/Walks.antt =====
-- A client that lists 101 categories in two requests.
use dingtalk_oa_attachment_b.Prelude.{
  ℕ, zero, suc, ◌+◌, ◌*◌, ◌-◌, ◌≡◌, refl, List, [], ◌∷◌, lit, map, arith,
}
use dingtalk_oa_attachment_b.Prelude.Int.{pos, to_nat}
use dingtalk_oa_attachment_b.Runes.{trim_space, trim_left, trim_right}
use dingtalk_oa_attachment_b.Domain.Errors.{ok, err}
use dingtalk_oa_attachment_b.Domain.Approval.{User}
use dingtalk_oa_attachment_b.Domain.Search.{ApprovalCategory}
use dingtalk_oa_attachment_b.Approvals.Times.{hour, second, unix_epoch}
use dingtalk_oa_attachment_b.Approvals.Library.{
  approval_subject_hash, category_catalog_revision, revision,
}
use dingtalk_oa_attachment_b.Approvals.Catalog.{visible_categories_matching_keyword}
use dingtalk_oa_attachment_b.Approvals.Cursor.{CategoryCursorState}
use dingtalk_oa_attachment_b.Approvals.Service.{Service, normalize_keyword}
use dingtalk_oa_attachment_b.Approvals.Discovery.{public_category}
use dingtalk_oa_attachment_b.Approvals.Discovery.Resuming.{IsServed}
use dingtalk_oa_attachment_b.Approvals.Discovery.Walk.{walk, walk-matching}
use dingtalk_oa_attachment_b.Approvals.Tests.Codec.{sample_library, sample_base64, sample-IsCodec}
use dingtalk_oa_attachment_b.Approvals.Tests.Cursors.{
  CategoryCursorState-discrete, cursor_json, family_json, family-IsJson, marshal_family,
}

abbrev ann : User
ann = record { corp_id = lit "corp"; user_id = lit "ann"; union_id = []; display_name = [] }

abbrev category : ApprovalCategory
category = record {
  id = lit "c";
  display_name = lit "name";
  directory_name = [];
  description = [];
  sources = [];
}

abbrev copies : ℕ → List ApprovalCategory
copies zero = []
copies (suc n) = category ∷ copies n

abbrev catalog : List ApprovalCategory
catalog = copies 101

abbrev start : ℕ
start = unix_epoch * second + 1000 * second

abbrev pub state_of : ℕ → CategoryCursorState
state_of n = record {
  version = pos 2;
  subject_hash = approval_subject_hash sample_library ann;
  keyword = [];
  catalog_revision = category_catalog_revision sample_library catalog;
  offset = pos n;
  issued_at = pos 1000;
}

abbrev service : Service
service = record {
  go = sample_library;
  base64 = sample_base64;
  cursor_json = cursor_json;
  category_json = family_json CategoryCursorState-discrete state_of (λ s. to_nat s.offset);
  key = [];
  provider = record {
    list_templates = λ q. err [];
    list_ids = λ q. err [];
    approval = λ id. err [];
  };
  record_audit = λ e. ok tt;
  administrators = [];
  detail_concurrency = 1;
  requests_per_minute = 1;
}

served : IsServed service ann catalog [] start
unfolding approval_subject_hash category_catalog_revision revision
    visible_categories_matching_keyword
served = record {
  codec = sample-IsCodec;
  json = family-IsJson CategoryCursorState-discrete state_of (λ s. to_nat s.offset);
  hash_named = refl;
  revision_named = refl;
  fits = λ n inside. (
    n ∷ [],
    marshal_family CategoryCursorState-discrete state_of (λ s. to_nat s.offset) n (omega arith)
        refl,
    omega arith,
  );
}

walk-matching_example :
    walk service ann catalog
      (start ∷ (start + hour - second) ∷ [])
      (record { keyword = []; cursor = [] })
    ≡ ok (map public_category catalog)
unfolding normalize_keyword trim_space trim_left trim_right visible_categories_matching_keyword
walk-matching_example =
    walk-matching service ann catalog ((start + hour - second) ∷ []) start
      (record { keyword = []; cursor = [] }) [] served (omega arith)
      ((omega arith, omega arith), tt) refl refl (omega arith)
