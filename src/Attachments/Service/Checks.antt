-- ===== src/Attachments/Service/Checks.antt =====
-- What Download leaves in the log and in the limiter, stage by stage.
use dingtalk_oa_attachment_b.Prelude.{
  ℕ, ◌≡◌, refl, sym, subst, ◌⊎◌, inl, inr, [], ◌∷◌, ◌++◌, Option, Bool-cases, Option-cases,
}
use dingtalk_oa_attachment_b.Domain.Errors.{
  Result, Result-cases, ok, err, Fault, only, unavailable, error_class, forbidden, not_found,
}
use dingtalk_oa_attachment_b.Domain.Audit.{allowed, denied}
use dingtalk_oa_attachment_b.Domain.Approval.{Attachment, Approval, can_access, find_attachment}
use dingtalk_oa_attachment_b.Attachments.Service.{
  Opened, Ports, DownloadBody, Download, World, Subject, event, deny, refused, allow, sized_body,
  handed_out, download_opened, download_url, download_approval,
}

module _ {S : Type 0} (p : Ports S) (close : S → S) where
  -- The repository refuses an event of this request: a denied one with the class of some cause, or the
  -- allowed one.
  abbrev pub Refuses : Subject → Type 0
  Refuses s =
      ((cause f : Fault) × (p.record_audit (event s denied (error_class cause) p.now) ≡ err f))
      ⊎ ((f : Fault) × (p.record_audit (event s allowed [] p.now) ≡ err f))

  -- What is in the log after a request that ended with an error: the refusal with the class of that
  -- error, or nothing new if the repository refuses an event, and then the error is ErrUnavailable.
  abbrev pub Recorded : World S → Subject → Fault → World S → Type 0
  Recorded w s f w' =
      (w'.audits ≡ w.audits ++ event s denied (error_class f) p.now ∷ [])
      ⊎ ((w'.audits ≡ w.audits) × (f ≡ only unavailable) × Refuses s)

  abbrev pub Settled : World S → Subject → ℕ → Result (Download S) × World S → Type 0
  Settled w s slot (ok d, w') =
      (w'.audits ≡ w.audits ++ event s allowed [] p.now ∷ [])
      × (w'.limiter ≡ w.limiter)
      × (w'.closed ≡ w.closed)
      × (d.slot ≡ slot)
  Settled w s slot (err f, w') = (w'.limiter ≡ w.limiter) × Recorded w s f w'

  pub refused-Settled :
      (w : World S) (s : Subject) (slot : ℕ) (f : Fault)
      → Settled w s slot (refused p close (deny p close w s f))
  unfolding refused deny
  refused-Settled w s slot f =
      elim (Result-cases (p.record_audit (event s denied (error_class f) p.now))) [
        | inl (_, e) ↦ rw (e, refused, deny) (refl, inl refl)
        | inr (g, e) ↦ rw (e, refused, deny) (refl, inr (refl, refl, inl (f, g, e)))
      ]

  pub allow_ok :
      (w : World S) (s : Subject) {u : Unit {0}}
      → p.record_audit (event s allowed [] p.now) ≡ ok u
      → allow p close w s ≡ (ok tt, record w { audits = w.audits ++ event s allowed [] p.now ∷ [] })
  unfolding allow
  allow_ok w s e = rw (e, allow)

  pub allow_err :
      (w : World S) (s : Subject) {f : Fault}
      → p.record_audit (event s allowed [] p.now) ≡ err f
      → allow p close w s ≡ (err (only unavailable), w)
  unfolding allow
  allow_err w s e = rw (e, allow)

  handed_out-Settled :
      (w : World S) (s : Subject) (slot : ℕ) (a : Attachment) (o : Opened S)
      (checked : DownloadBody S × Option ℕ)
      → Settled w s slot (handed_out p close slot a o checked (allow p close w s))
  unfolding handed_out
  handed_out-Settled w s slot a o checked =
      elim (Result-cases (p.record_audit (event s allowed [] p.now))) [
        | inl (_, r) ↦
            subst (λ z. Settled w s slot (handed_out p close slot a o checked z))
              (sym (allow_ok w s r)) (refl, refl, refl, refl)
        | inr (g, r) ↦
            subst (λ z. Settled w s slot (handed_out p close slot a o checked z))
              (sym (allow_err w s r)) (refl, inr (refl, refl, inr (g, r)))
      ]

  download_opened-Settled :
      (w : World S) (s : Subject) (slot : ℕ) (a : Attachment) (o : Opened S)
      → Settled w s slot (download_opened p close w s slot a o)
  unfolding download_opened refused
  download_opened-Settled w s slot a o = elim (Result-cases (sized_body p close a o)) [
    | inl (checked, e) ↦ rw (e, download_opened) (handed_out-Settled w s slot a o checked)
    | inr (f, e) ↦
        rw (e, download_opened)
          (refused-Settled (record w { closed = w.closed ++ o.body ∷ [] }) s slot f)
  ]

  download_url-Settled :
      (w : World S) (s : Subject) (slot : ℕ) (a : Attachment) (url : Result p.Url)
      → Settled w s slot (download_url p close w s slot a url)
  unfolding download_url
  download_url-Settled w s slot a (err f) = refused-Settled w s slot f
  download_url-Settled w s slot a (ok url) = elim (Result-cases (p.open_url url)) [
    | inl (o, e) ↦ rw (e, download_url) (download_opened-Settled w s slot a o)
    | inr (f, e) ↦ rw (e, download_url) (refused-Settled w s slot f)
  ]

  pub download_approval-Settled :
      (w : World S) (s : Subject) (slot : ℕ) (r : Result Approval)
      → Settled w s slot (download_approval p close w s slot r)
  unfolding download_approval
  download_approval-Settled w s slot (err f) = refused-Settled w s slot f
  download_approval-Settled w s slot (ok a) =
      elim (Bool-cases (can_access a s.user.user_id p.administrators)) [
        | inr no_access ↦
            rw (no_access, download_approval) (refused-Settled w s slot (only forbidden))
        | inl access ↦
            rw (access, download_approval)
              (elim (Option-cases (find_attachment a s.file_id)) [
                | inl e ↦ rw (e, download_approval) (refused-Settled w s slot (only not_found))
                | inr (x, e) ↦ rw (e, download_approval) (download_url-Settled w s slot x _)
              ])
      ]
