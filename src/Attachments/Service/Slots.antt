-- ===== src/Attachments/Service/Slots.antt =====
-- What Download does to the log and to the slots of the users.
use dingtalk_oa_attachment_b.Prelude.{
  ◌+◌, ◌≡◌, inl, inr, false, [], ◌∷◌, ◌++◌, Text, ◌==◌, text_eq, length, Option-cases,
  if◌then◌else◌,
}
use dingtalk_oa_attachment_b.Domain.Errors.{Result, ok, err, only, rate_limited}
use dingtalk_oa_attachment_b.Domain.Audit.{allowed, is_blank}
use dingtalk_oa_attachment_b.Domain.Approval.{User}
use dingtalk_oa_attachment_b.Attachments.Limiter.{active, acquire, grant}
use dingtalk_oa_attachment_b.Attachments.Limiter.Laws.{
  active-release-grant, acquire-grant, active-grant,
}
use dingtalk_oa_attachment_b.Attachments.Service.{
  Ports, Download, World, Subject, event, refused, release_unless_ok, download_checked,
  download_subject, download, validate_request_identity,
}
use dingtalk_oa_attachment_b.Attachments.Service.Checks.{
  Recorded, Settled, refused-Settled, download_approval-Settled,
}

module _ {S : Type 0} (p : Ports S) (close : S → S) where
  -- One request, from the world `w` to the world beside its result. A download that is handed out
  -- is recorded as allowed and holds one slot more for its user; a request that ends with an error
  -- is recorded unless the repository refused the event, and holds no slot more.
  abbrev pub Accounted : World S → Subject → Result (Download S) × World S → Type 0
  Accounted w s (ok d, w') =
      (w'.audits ≡ w.audits ++ event s allowed [] p.now ∷ [])
      × ((u : Text)
          → active w'.limiter u ≡ active w.limiter u + (if s.user.user_id == u then 1 else 0))
      × (d.slot ≡ length w.limiter.handles)
  Accounted w s (err f, w') =
      Recorded p close w s f w' × ((u : Text) → active w'.limiter u ≡ active w.limiter u)

  release_unless_ok-Accounted :
      (w w' : World S) (s : Subject) (r : Result (Download S))
      → Settled p close
          (record w { limiter = grant w.limiter s.user.user_id })
          s
          (length w.limiter.handles)
          (r, w')
      → Accounted w s (release_unless_ok p close (length w.limiter.handles) (r, w'))
  unfolding release_unless_ok
  release_unless_ok-Accounted w w' s (ok d) (log, held, closed, slot) =
      (log, λ u. rw held (active-grant w.limiter s.user.user_id u), slot)
  release_unless_ok-Accounted w w' s (err f) (held, log) =
      (log, λ u. rw held (active-release-grant w.limiter s.user.user_id u))

  download_checked-Accounted :
      (w : World S) (s : Subject) → Accounted w s (download_checked p close w s)
  unfolding download_checked refused
  download_checked-Accounted w s = elim (Option-cases (acquire w.limiter s.user.user_id)) [
    | inl e ↦
        let h = refused-Settled p close w s 0 (only rate_limited) in
        rw (e, download_checked) (h.1, λ u. rw h.0)
    | inr ((slot, limiter), e) ↦
        let (es, el, _) = acquire-grant w.limiter limiter s.user.user_id slot e in
        rw (e, download_checked)
          (rw (es, el)
            (release_unless_ok-Accounted w _ s _ (
              download_approval-Settled p close
                (record w { limiter = grant w.limiter s.user.user_id }) s (length w.limiter.handles)
                (p.approval s.process_instance_id))))
  ]

  -- A request of a valid user, process instance ID and request ID for a file ID that is not blank.
  -- If it hands a download out, one event is recorded, an allowed one, and its user holds one slot
  -- more, the one of the download. If it ends with an error, that error is recorded, with its class; or
  -- the repository refuses an event of this request, the allowed one or a denied one, and then nothing
  -- is recorded and the error is ErrUnavailable. After an error nobody holds a slot more.
  pub download-Accounted :
      (w : World S) (user : User) (process_instance_id file_id request_id id : Text)
      → validate_request_identity user process_instance_id request_id ≡ ok id
      → is_blank file_id ≡ false
      → Accounted w
          (download_subject user id file_id request_id)
          (download p close w user process_instance_id file_id request_id)
  unfolding download
  download-Accounted w user process_instance_id file_id request_id id valid given =
      rw (valid, download)
        (rw (given, download)
          (download_checked-Accounted w (download_subject user id file_id request_id)))
