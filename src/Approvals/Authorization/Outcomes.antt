-- ===== src/Approvals/Authorization/Outcomes.antt =====
-- What one goroutine of authorizeCandidates returns and records.
use dingtalk_oa_attachment_b.Prelude.{
  ◌≡◌, refl, Bool, true, false, ◌&&◌, not, List, [], ◌∷◌, Option, none, some, Text, is_empty,
  if◌then◌else◌, arith,
}
use dingtalk_oa_attachment_b.Domain.Errors.{Result, ok, err, error_class, forbidden, only}
use dingtalk_oa_attachment_b.Domain.Approval.{Approval, can_access}
use dingtalk_oa_attachment_b.Domain.Audit.{AuditEvent, allowed, denied}
use dingtalk_oa_attachment_b.Approvals.Service.{Service}
use dingtalk_oa_attachment_b.Approvals.Authorization.{
  Item, item_of, approval_matches_keyword, Request, search_event, record_then, recorded,
  record_denied, judge, settle,
}

-- The candidate that the user may see, that has attachments, and that the keyword, if there is one,
-- occurs in.
abbrev pub is_shown : Service → Request → Approval → Bool
is_shown service r a =
    can_access a r.user.user_id service.administrators
    && not (is_empty a.attachments)
    && (if is_empty r.keyword then true else approval_matches_keyword service.go a r.keyword)

module _ (service : Service) (r : Request) where
  abbrev pub shown : Result Approval → Option Item
  shown (err f) = none
  shown (ok a) = if is_shown service r a then some (item_of a) else none

  -- The event for an approval: the user may not see it, or it is returned, or there is none.
  abbrev pub audited : Text → Result Approval → List AuditEvent
  audited id (err f) = []
  audited id (ok a) =
      if can_access a r.user.user_id service.administrators
      then (if is_shown service r a then search_event r id allowed [] ∷ [] else [])
      else search_event r id denied (error_class (only forbidden)) ∷ []

  record_then_ok :
      (e : AuditEvent) (next : Result (Option Item)) (o : Option Item)
      → (record_then service r e next).0 ≡ ok o
      → (next ≡ ok o) × ((record_then service r e next).1 ≡ e ∷ [])
  unfolding record_then
  record_then_ok e next o h = by_answer (service.record_audit e) h
    where
      by_answer :
          (answer : Result (Unit {0}))
          → (recorded service r e answer next).0 ≡ ok o
          → (next ≡ ok o) × ((recorded service r e answer next).1 ≡ e ∷ [])
      by_answer (err f) h = ground arith
      by_answer (ok x) h = (h, refl)

  judge_ok :
      (id : Text) (a : Approval) (o : Option Item)
      → (judge service r id a).0 ≡ ok o
      → (o ≡ shown (ok a)) × ((judge service r id a).1 ≡ audited id (ok a))
  unfolding judge
  judge_ok id a o h = ground (
    arith,
    record_then_ok (search_event r id denied (error_class (only forbidden))) (ok none) o,
    record_then_ok (search_event r id allowed []) (ok (some (item_of a))) o,
  )

  pub settle_ok :
      (id : Text) (answer : Result Approval) (o : Option Item)
      → (settle service r false id answer).0 ≡ ok o
      → (o ≡ shown answer) × ((settle service r false id answer).1 ≡ audited id answer)
  unfolding settle record_denied
  settle_ok id (ok a) o h = judge_ok id a o h
  settle_ok id (err f) o h =
      ground (arith, record_then_ok (search_event r id denied (error_class f)) (err f) o)
