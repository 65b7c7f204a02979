-- ===== src/Attachments/Service/Listing.antt =====
-- Who gets a list of attachments, and what is recorded of it.
use dingtalk_oa_attachment_b.Prelude.{
  ◌≡◌, refl, subst, sym, inl, inr, true, List, [], ◌∷◌, ◌++◌, Text, Bool-cases,
}
use dingtalk_oa_attachment_b.Domain.Errors.{
  Result, Result-cases, ok, err, Fault, only, forbidden, ◌>>◌,
}
use dingtalk_oa_attachment_b.Domain.Audit.{allowed}
use dingtalk_oa_attachment_b.Domain.Approval.{User, Attachment, Approval, can_access}
use dingtalk_oa_attachment_b.Attachments.Service.{
  Ports, World, Subject, event, refused, deny, allow, list, list_approval, list_subject,
  validate_request_identity,
}
use dingtalk_oa_attachment_b.Attachments.Service.Checks.{
  Recorded, allow_ok, allow_err, refused-Settled,
}

module _ {S : Type 0} (p : Ports S) (close : S → S) where
  -- A list is the whole list of an approval that lets the user in, and it is recorded as allowed; an
  -- error is recorded as refused, unless the repository refused the event.
  abbrev pub Listed : World S → Subject → Result (List Attachment) × World S → Type 0
  Listed w s (ok xs, w') =
      (a : Approval) × (p.approval s.process_instance_id ≡ ok a)
      × (can_access a s.user.user_id p.administrators ≡ true)
      × (xs ≡ a.attachments)
      × (w' ≡ record w { audits = w.audits ++ event s allowed [] p.now ∷ [] })
  Listed w s (err f, w') = Recorded p close w s f w' × (w'.limiter ≡ w.limiter)

  abbrev answer : Approval → Result (Unit {0}) × World S → Result (List Attachment) × World S
  answer a (r, w') = (r >> ok a.attachments, w')

  answer-Listed :
      (w : World S) (s : Subject) (a : Approval)
      → p.approval s.process_instance_id ≡ ok a
      → can_access a s.user.user_id p.administrators ≡ true
      → Listed w s (answer a (allow p close w s))
  answer-Listed w s a e access = elim (Result-cases (p.record_audit (event s allowed [] p.now))) [
    | inl (_, r) ↦
        subst (λ z. Listed w s (answer a z)) (sym (allow_ok p close w s r))
          (a, e, access, refl, refl)
    | inr (g, r) ↦
        subst (λ z. Listed w s (answer a z)) (sym (allow_err p close w s r))
          (inr (refl, refl, inr (g, r)), refl)
  ]

  refused-Listed :
      (w : World S) (s : Subject) (f : Fault) → Listed w s (refused p close (deny p close w s f))
  unfolding refused
  refused-Listed w s f = let h = refused-Settled p close w s 0 f in (h.1, h.0)

  list_approval-Listed :
      (w : World S) (s : Subject) (r : Result Approval)
      → p.approval s.process_instance_id ≡ r
      → Listed w s (list_approval p close w s r)
  unfolding list_approval
  list_approval-Listed w s (err f) e = refused-Listed w s f
  list_approval-Listed w s (ok a) e =
      elim (Bool-cases (can_access a s.user.user_id p.administrators)) [
        | inr no_access ↦ rw (no_access, list_approval) (refused-Listed w s (only forbidden))
        | inl access ↦ rw (access, list_approval) (answer-Listed w s a e access)
      ]

  -- A request of a valid user, process instance ID and request ID. If it is answered, the approval of
  -- that ID lets the user in, the answer is all of its attachments, and one event is recorded, an
  -- allowed one. If it ends with an error, that error is recorded with its class; or the repository
  -- refuses an event of this request, the allowed one or a denied one, and then nothing is recorded and
  -- the error is ErrUnavailable.
  pub list-Listed :
      (w : World S) (user : User) (process_instance_id request_id id : Text)
      → validate_request_identity user process_instance_id request_id ≡ ok id
      → Listed w
          (list_subject user id request_id)
          (list p close w user process_instance_id request_id)
  unfolding list
  list-Listed w user process_instance_id request_id id valid =
      rw (valid, list)
        (list_approval-Listed w (list_subject user id request_id) (p.approval id) refl)
