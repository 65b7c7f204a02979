-- ===== src/Approvals/Library.antt =====
-- What internal/approvals calls of Go's library and does not define: digests, encodings and the case
-- of a letter. Bytes are numbers.
use dingtalk_oa_attachment_b.Prelude.{ℕ, List, [], ◌∷◌, ◌++◌, Option, none, some, Text, lit}
use dingtalk_oa_attachment_b.Prelude.Int.{ℤ}
use dingtalk_oa_attachment_b.Domain.Approval.{User}
use dingtalk_oa_attachment_b.Domain.Search.{ApprovalCategory}

abbrev pub Bytes : Type 0
Bytes = List ℕ

pub record Library : Type 0 where
  -- strings.ToLower
  pub to_lower : Text → Text
  -- time.Parse(time.RFC3339, s), an instant of Approvals/Times.antt
  pub parse_time : Text → Option ℤ
  -- hmac.New(sha256.New, key), of a string and of bytes
  pub mac_text : Bytes → Text → Bytes
  pub mac : Bytes → Bytes → Bytes
  -- sha256.Sum256, of a string and of bytes
  pub digest_text : Text → Bytes
  pub digest : Bytes → Bytes
  pub hex : Bytes → Text
  pub base32 : Bytes → Text
  -- json.Marshal, which may return an error
  pub marshal_category : ApprovalCategory → Option Bytes
  pub marshal_categories : List ApprovalCategory → Option Bytes

-- The text of a subject, `CorpID + "\x00" + UserID`.
unfoldable pub subject : User → Text
subject user = user.corp_id ++ 0 ∷ user.user_id

module _ (go : Library) where
  -- approvalSubjectHash
  unfoldable pub approval_subject_hash : User → Text
  approval_subject_hash user = go.hex (go.digest_text (subject user))

  -- The hash of what json.Marshal returned.
  unfoldable pub revision : Option Bytes → Text
  revision none = []
  revision (some encoded) = go.hex (go.digest encoded)

  -- categoryRevision
  unfoldable pub category_revision : ApprovalCategory → Text
  category_revision category = revision (go.marshal_category category)

  -- categoryCatalogRevision
  unfoldable pub category_catalog_revision : List ApprovalCategory → Text
  category_catalog_revision categories = revision (go.marshal_categories categories)

  -- categoryID, with the key of the service.
  unfoldable pub category_id : Bytes → User → Text → Text
  category_id key user process_code =
      lit "category-"
      ++ go.to_lower (
          go.base32 (
            go.mac_text key (lit "approval-category-v1" ++ 0 ∷ (subject user ++ 0 ∷ process_code))))
