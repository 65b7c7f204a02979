-- ===== src/Attachments/Service/Laws.antt =====
-- Who gets a download, and which one.
use dingtalk_oa_attachment_b.Prelude.{
  ℕ, ◌≡◌, refl, subst, ◌⊎◌, inl, inr, true, Option, some, Text, length, is_positive, arith,
  Bool-cases, Option-cases,
}
use dingtalk_oa_attachment_b.Domain.Errors.{Result, Result-cases, ok, err}
use dingtalk_oa_attachment_b.Domain.Audit.{is_blank}
use dingtalk_oa_attachment_b.Domain.Approval.{
  User, Attachment, Approval, can_access, find_attachment,
}
use dingtalk_oa_attachment_b.Attachments.Filename.{sanitize_filename}
use dingtalk_oa_attachment_b.Attachments.Limiter.{acquire}
use dingtalk_oa_attachment_b.Attachments.Service.{
  Ports, Opened, Download, DownloadBody, sized, World, Subject, refused, sized_body, handed_out,
  download_opened, download_url, download_approval, release_unless_ok, download_checked,
  download_subject, download, validate_request_identity,
}

module _ {S : Type 0} where
  -- The body is held to the size that the approval states, if it states one.
  abbrev pub IsHeldTo : ℕ → DownloadBody S → Type 0
  IsHeldTo size body =
      (size ≡ 0) ⊎ ((s : S) × (body ≡ sized (record { body = s; remaining = size })))

  -- A result that is a download is one of this attachment.
  abbrev pub Hands : Attachment → Result (Download S) × World S → Type 0
  Hands x (err f, w) = Unit
  Hands x (ok d, w) =
      (d.attachment ≡ record x { file_name = sanitize_filename x.file_name })
      × IsHeldTo x.file_size d.body

module _ {S : Type 0} (p : Ports S) (close : S → S) where
  sized_body-IsHeldTo :
      (x : Attachment) (o : Opened S) (body : DownloadBody S) (length : Option ℕ)
      → sized_body p close x o ≡ ok (body, length)
      → IsHeldTo x.file_size body
  unfolding sized_body
  sized_body-IsHeldTo x o body length e = elim (Bool-cases (is_positive x.file_size)) [
    | inl stated ↦ inr (o.body, ground arith)
    | inr open_size ↦ inl (ground arith)
  ]

  handed_out-Hands :
      (w : World S) (slot : ℕ) (x : Attachment) (o : Opened S) (body : DownloadBody S)
      (length : Option ℕ) (r : Result (Unit {0}))
      → IsHeldTo x.file_size body
      → Hands x (handed_out p close slot x o (body, length) (r, w))
  unfolding handed_out
  handed_out-Hands w slot x o body length (ok _) h = (refl, h)
  handed_out-Hands w slot x o body length (err f) h = tt

  download_opened-Hands :
      (w : World S) (s : Subject) (slot : ℕ) (x : Attachment) (o : Opened S)
      → Hands x (download_opened p close w s slot x o)
  unfolding download_opened refused
  download_opened-Hands w s slot x o = elim (Result-cases (sized_body p close x o)) [
    | inl ((body, length), e) ↦
        rw (e, download_opened)
          (handed_out-Hands _ slot x o body length _ (sized_body-IsHeldTo x o body length e))
    | inr (f, e) ↦ rw (e, download_opened) tt
  ]

  download_url-Hands :
      (w : World S) (s : Subject) (slot : ℕ) (x : Attachment) (url : Result p.Url)
      → Hands x (download_url p close w s slot x url)
  unfolding download_url refused
  download_url-Hands w s slot x (err f) = tt
  download_url-Hands w s slot x (ok url) = elim (Result-cases (p.open_url url)) [
    | inl (o, e) ↦ rw (e, download_url) (download_opened-Hands w s slot x o)
    | inr (f, e) ↦ rw (e, download_url) tt
  ]

  -- A result that is a download was granted by the approval of this ID.
  abbrev pub Granted : User → Text → Text → Result (Download S) × World S → Type 0
  Granted user id file_id (err f, w) = Unit
  Granted user id file_id (ok d, w) =
      (a : Approval) × (x : Attachment) × (p.approval id ≡ ok a)
      × (can_access a user.user_id p.administrators ≡ true)
      × (find_attachment a file_id ≡ some x)
      × (d.attachment ≡ record x { file_name = sanitize_filename x.file_name })
      × IsHeldTo x.file_size d.body

  Hands-Granted :
      (user : User) (id file_id : Text) (a : Approval) (x : Attachment) (r : Result (Download S))
      (w : World S)
      → p.approval id ≡ ok a
      → can_access a user.user_id p.administrators ≡ true
      → find_attachment a file_id ≡ some x
      → Hands x (r, w)
      → Granted user id file_id (r, w)
  Hands-Granted user id file_id a x (ok d) w ea ec ef h = (a, x, ea, ec, ef, h.0, h.1)
  Hands-Granted user id file_id a x (err f) w ea ec ef h = tt

  download_approval-Granted :
      (w : World S) (s : Subject) (slot : ℕ) (r : Result Approval)
      → p.approval s.process_instance_id ≡ r
      → Granted s.user s.process_instance_id s.file_id (download_approval p close w s slot r)
  unfolding download_approval refused
  download_approval-Granted w s slot (err f) e = tt
  download_approval-Granted w s slot (ok a) e =
      elim (Bool-cases (can_access a s.user.user_id p.administrators)) [
        | inr no_access ↦ rw (no_access, download_approval) tt
        | inl access ↦
            rw (access, download_approval)
              (elim (Option-cases (find_attachment a s.file_id)) [
                | inl missing ↦ rw (missing, download_approval) tt
                | inr (x, found) ↦
                    rw (found, download_approval)
                      (Hands-Granted s.user s.process_instance_id s.file_id a x _ _ e access found
                        (download_url-Hands w s slot x _))
              ])
      ]

  release_unless_ok-Granted :
      (user : User) (id file_id : Text) (slot : ℕ) (r : Result (Download S)) (w : World S)
      → Granted user id file_id (r, w)
      → Granted user id file_id (release_unless_ok p close slot (r, w))
  unfolding release_unless_ok
  release_unless_ok-Granted user id file_id slot (ok d) w g = g
  release_unless_ok-Granted user id file_id slot (err f) w g = tt

  download_checked-Granted :
      (w : World S) (s : Subject)
      → Granted s.user s.process_instance_id s.file_id (download_checked p close w s)
  unfolding download_checked refused
  download_checked-Granted w s = elim (Option-cases (acquire w.limiter s.user.user_id)) [
    | inl e ↦ rw (e, download_checked) tt
    | inr ((slot, limiter), e) ↦
        rw (e, download_checked)
          (release_unless_ok-Granted s.user s.process_instance_id s.file_id slot _ _
            (download_approval-Granted (record w { limiter = limiter }) s slot _ refl))
  ]

  download-Granted :
      (w : World S) (user : User) (process_instance_id file_id request_id id : Text)
      → validate_request_identity user process_instance_id request_id ≡ ok id
      → Granted user id file_id (download p close w user process_instance_id file_id request_id)
  unfolding download
  download-Granted w user process_instance_id file_id request_id id valid =
      rw (valid, download)
        (elim (Bool-cases (is_blank file_id)) [
          | inl blank ↦ rw (blank, download) tt
          | inr given ↦
              rw (given, download)
                (download_checked-Granted w (download_subject user id file_id request_id))
        ])

  -- If Download hands a download out, the request was valid for a normalised process instance ID, the
  -- approval of that ID lets the user in, and the attachment is the one that the approval lists under
  -- the file ID, with its name sanitised; and if the approval states its size, the body is read
  -- through the reader that expects that size.
  pub download_authorized :
      (w w' : World S) (user : User) (process_instance_id file_id request_id : Text)
      (d : Download S)
      → download p close w user process_instance_id file_id request_id ≡ (ok d, w')
      → (id : Text) × (validate_request_identity user process_instance_id request_id ≡ ok id)
        × Granted user id file_id (ok d, w')
  unfolding download
  download_authorized w w' user process_instance_id file_id request_id d e =
      elim (Result-cases (validate_request_identity user process_instance_id request_id)) [
        | inl (id, valid) ↦ (
          id,
          valid,
          subst (Granted user id file_id) e
              (download-Granted w user process_instance_id file_id request_id id valid),
        )
        | inr (f, invalid) ↦ absurd (cc (invalid, e))
      ]
