-- ===== src/Attachments/Service.antt =====
-- internal/attachments/service.go: List and Download. The approval API, the opener of a URL and the
-- audit repository are interfaces of the source: `Ports`. Each answers once in a request, so an answer
-- is a function of the arguments. A context is not modelled.
pub mod Checks
pub mod Laws
pub mod Slots
pub mod Listing
mod Tests
use dingtalk_oa_attachment_b.Prelude.{
  ℕ, zero, suc, ◌+◌, Bool, true, false, ◌&&◌, ◌||◌, not, List, [], ◌∷◌, ◌++◌, Option, none, some,
  Text, lit, eqb, ltb, is_positive, if◌then◌else◌,
}
use dingtalk_oa_attachment_b.Domain.Errors.{
  Result, ok, err, Fault, only, invalid_input, unauthorized, forbidden, not_found, rate_limited,
  too_large, upstream, unavailable, error_class, ◌>>=◌, ◌>>◌, refuse_if,
}
use dingtalk_oa_attachment_b.Domain.Audit.{AuditEvent, AuditDecision, allowed, denied, is_blank}
use dingtalk_oa_attachment_b.Domain.Identifier.{normalize_process_instance_id}
use dingtalk_oa_attachment_b.Domain.Approval.{
  User, Attachment, Approval, can_access, find_attachment,
}
use dingtalk_oa_attachment_b.Attachments.Limiter.{DownloadLimiter, acquire, release}
use dingtalk_oa_attachment_b.Attachments.Readers.{ExpectedReader}
use dingtalk_oa_attachment_b.Attachments.Filename.{sanitize_filename}

-- What DownloadOpener.Open returns. A content length that is not known is negative in the source and
-- none here.
pub record Opened (S : Type 0) : Type 0 where
  pub body : S
  pub content_type : Text
  pub content_length : Option ℕ
  pub max_bytes : ℕ

pub record Ports (S : Type 0) : Type 1 where
  pub Url : Type 0
  pub approval : Text → Result Approval
  pub download_url : Text → Text → Result Url
  pub open_url : Url → Result (Opened S)
  pub record_audit : AuditEvent → Result (Unit {0})
  pub administrators : List Text
  pub now : ℕ

-- The body of a download, below the reader that releases the slot.
pub data DownloadBody (S : Type 0) : Type 0 where
  plain : S → DownloadBody S
  sized : ExpectedReader S → DownloadBody S

pub record Download (S : Type 0) : Type 0 where
  pub attachment : Attachment
  pub body : DownloadBody S
  pub content_type : Text
  pub content_length : Option ℕ
  pub max_bytes : ℕ
  -- The slot that the outermost reader gives back.
  pub slot : ℕ

-- The state that requests share, with the events that the repository acknowledged and the bodies that
-- were closed so far, oldest first.
pub record World (S : Type 0) : Type 0 where
  pub limiter : DownloadLimiter
  pub audits : List AuditEvent
  pub closed : List S

-- The names that `allow` and `deny` are called with.
pub record Subject : Type 0 where
  pub user : User
  pub action : Text
  pub process_instance_id : Text
  pub file_id : Text
  pub request_id : Text

unfoldable pub event : Subject → AuditDecision → Text → ℕ → AuditEvent
event s decision class now = record {
  request_id = s.request_id;
  corp_id = s.user.corp_id;
  actor_user_id = s.user.user_id;
  action = s.action;
  process_instance_id = s.process_instance_id;
  file_id = s.file_id;
  decision = decision;
  upstream_error_class = class;
  created_at = now;
}

abbrev pub list_subject : User → Text → Text → Subject
list_subject user process_instance_id request_id = record {
  user = user;
  action = lit "attachments.list";
  process_instance_id = process_instance_id;
  file_id = [];
  request_id = request_id;
}

abbrev pub download_subject : User → Text → Text → Text → Subject
download_subject user process_instance_id file_id request_id = record {
  user = user;
  action = lit "attachments.download";
  process_instance_id = process_instance_id;
  file_id = file_id;
  request_id = request_id;
}

-- validateRequestIdentity
unfoldable pub validate_request_identity : User → Text → Text → Result Text
validate_request_identity user process_instance_id request_id = do
  refuse_if (is_blank user.corp_id || is_blank user.user_id) (only unauthorized)
  normalized ← normalize_process_instance_id process_instance_id
  refuse_if (is_blank request_id) (only invalid_input)
  ok normalized

module _ {S : Type 0} (p : Ports S) (close : S → S) where
  -- An event that the repository acknowledged is in the log.
  abbrev logged : World S → AuditEvent → World S
  logged w e = record w { audits = w.audits ++ e ∷ [] }

  abbrev close_body : World S → S → World S
  close_body w s = record w { closed = w.closed ++ s ∷ [] }

  -- Service.deny: the cause, or ErrUnavailable if it could not be recorded.
  unfoldable pub deny : World S → Subject → Fault → Fault × World S
  deny w s cause = elim (p.record_audit (event s denied (error_class cause) p.now)) [
    | ok _ ↦ (cause, logged w (event s denied (error_class cause) p.now))
    | err _ ↦ (only unavailable, w)
  ]

  unfoldable pub refused {ℓ} : {A : Type ℓ} → Fault × World S → Result A × World S
  refused (f, w) = (err f, w)

  -- Service.allow
  unfoldable pub allow : World S → Subject → Result (Unit {0}) × World S
  allow w s = elim (p.record_audit (event s allowed [] p.now)) [
    | ok _ ↦ (ok tt, logged w (event s allowed [] p.now))
    | err _ ↦ (err (only unavailable), w)
  ]

  list_approval : World S → Subject → Result Approval → Result (List Attachment) × World S
  unfolding deny refused allow
  list_approval w s (err f) = refused (deny w s f)
  list_approval w s (ok a) =
      if not (can_access a s.user.user_id p.administrators)
      then refused (deny w s (only forbidden))
      else (let (r, w') = allow w s in (r >> ok a.attachments, w'))

  -- Service.List
  unfoldable pub list : World S → User → Text → Text → Result (List Attachment) × World S
  unfolding list_approval
  list w user process_instance_id request_id =
      elim (validate_request_identity user process_instance_id request_id) [
        | err f ↦ (err f, w)
        | ok id ↦ list_approval w (list_subject user id request_id) (p.approval id)
      ]

  -- The body after the checks of its size: the reader that expects the size that the approval
  -- states, or the body itself if it states none.
  unfoldable pub sized_body : Attachment → Opened S → Result (DownloadBody S × Option ℕ)
  sized_body a o =
      if is_positive a.file_size
      then (if is_positive o.max_bytes && ltb o.max_bytes a.file_size
          then err (only too_large)
          else elim o.content_length [
            | some n ↦
                if not (eqb n a.file_size)
                then err (only upstream)
                else ok
                    (sized (record { body = o.body; remaining = a.file_size }), some a.file_size)
            | none ↦
                ok (sized (record { body = o.body; remaining = a.file_size }), some a.file_size)
          ])
      else ok (plain o.body, o.content_length)

  -- The download with its slot, once `allow` has recorded it; if that failed the body is closed.
  handed_out :
      ℕ
      → Attachment
      → Opened S
      → DownloadBody S × Option ℕ
      → Result (Unit {0}) × World S
      → Result (Download S) × World S
  handed_out slot a o (body, length) (err f, w) = (err f, close_body w o.body)
  handed_out slot a o (body, length) (ok _, w) = (
    ok (record {
      attachment = record a { file_name = sanitize_filename a.file_name };
      body = body;
      content_type = o.content_type;
      content_length = length;
      max_bytes = o.max_bytes;
      slot = slot;
    }),
    w,
  )

  -- From the opened body on. A refusal of the size closes the body too.
  download_opened : World S → Subject → ℕ → Attachment → Opened S → Result (Download S) × World S
  unfolding sized_body handed_out
  download_opened w s slot a o = elim (sized_body a o) [
    | err f ↦ refused (deny (close_body w o.body) s f)
    | ok checked ↦ handed_out slot a o checked (allow w s)
  ]

  download_url : World S → Subject → ℕ → Attachment → Result p.Url → Result (Download S) × World S
  unfolding download_opened
  download_url w s slot a (err f) = refused (deny w s f)
  download_url w s slot a (ok url) = elim (p.open_url url) [
    | err f ↦ refused (deny w s f)
    | ok o ↦ download_opened w s slot a o
  ]

  pub download_approval : World S → Subject → ℕ → Result Approval → Result (Download S) × World S
  unfolding download_url
  download_approval w s slot (err f) = refused (deny w s f)
  download_approval w s slot (ok a) =
      if not (can_access a s.user.user_id p.administrators)
      then refused (deny w s (only forbidden))
      else elim (find_attachment a s.file_id) [
        | none ↦ refused (deny w s (only not_found))
        | some x ↦ download_url w s slot x (p.download_url s.process_instance_id s.file_id)
      ]

  -- The deferred release: it runs unless the download is handed out.
  release_unless_ok : ℕ → Result (Download S) × World S → Result (Download S) × World S
  release_unless_ok slot (ok d, w) = (ok d, w)
  release_unless_ok slot (err f, w) = (err f, record w { limiter = release w.limiter slot })

  download_checked : World S → Subject → Result (Download S) × World S
  unfolding download_approval release_unless_ok
  download_checked w s = elim (acquire w.limiter s.user.user_id) [
    | none ↦ refused (deny w s (only rate_limited))
    | some (slot, limiter) ↦ release_unless_ok slot (
        download_approval (record w { limiter = limiter }) s slot
          (p.approval s.process_instance_id))
  ]

  -- Service.Download
  unfoldable pub download : World S → User → Text → Text → Text → Result (Download S) × World S
  unfolding download_checked
  download w user process_instance_id file_id request_id =
      elim (validate_request_identity user process_instance_id request_id) [
        | err f ↦ (err f, w)
        | ok id ↦
            if is_blank file_id
            then (err (only invalid_input), w)
            else download_checked w (download_subject user id file_id request_id)
      ]
