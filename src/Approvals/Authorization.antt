-- ===== src/Approvals/Authorization.antt =====
-- internal/approvals/service.go: authorizeCandidates, which looks up the candidates of a search
-- concurrently and keeps those that the user may see.
pub mod Results
pub mod Outcomes
pub mod Schedules
use dingtalk_oa_attachment_b.Prelude.{
  ℕ, zero, suc, Bool, true, false, ◌&&◌, ◌||◌, not, List, [], ◌∷◌, ◌++◌, Option, none, some, Text,
  is_empty, any, map, if◌then◌else◌,
}
use dingtalk_oa_attachment_b.Runes.{contains_text}
use dingtalk_oa_attachment_b.Domain.Errors.{
  Fault, Result, ok, err, is, only, canceled, forbidden, unavailable, error_class,
}
use dingtalk_oa_attachment_b.Domain.Approval.{User, Attachment, Approval, FormValue, can_access}
use dingtalk_oa_attachment_b.Domain.Audit.{AuditEvent, AuditDecision, allowed, denied}
use dingtalk_oa_attachment_b.Approvals.Library.{Library}
use dingtalk_oa_attachment_b.Approvals.Candidates.{Candidate}
use dingtalk_oa_attachment_b.Approvals.Service.{Service}

pub record Item : Type 0 where
  pub process_instance_id : Text
  pub business_id : Text
  pub title : Text
  pub status : Text
  pub result : Text
  pub create_time : Text
  pub finish_time : Text
  pub attachments : List Attachment

abbrev value_contains : Library → Text → FormValue → Bool
value_contains go needle v =
    contains_text (go.to_lower v.name) needle
    || contains_text (go.to_lower v.value) needle
    || contains_text (go.to_lower v.ext_value) needle

-- approvalContains
unfoldable pub approval_contains : Library → Approval → Text → Bool
approval_contains go approval signal =
    let needle = go.to_lower signal in
    contains_text (go.to_lower approval.title) needle
    || any (value_contains go needle) approval.form_values

-- approvalMatchesKeyword
unfoldable pub approval_matches_keyword : Library → Approval → Text → Bool
approval_matches_keyword go approval keyword =
    let needle = go.to_lower keyword in
    contains_text (go.to_lower approval.business_id) needle || approval_contains go approval needle

unfoldable pub item_of : Approval → Item
item_of a = record {
  process_instance_id = a.process_instance_id;
  business_id = a.business_id;
  title = a.title;
  status = a.status;
  result = a.result;
  create_time = a.create_time;
  finish_time = a.finish_time;
  attachments = a.attachments;
}

-- The arguments that are the same for all candidates, with the time of the audit events.
pub record Request : Type 0 where
  pub user : User
  pub keyword : Text
  pub request_id : Text
  pub action : Text
  pub now : ℕ

unfoldable pub search_event : Request → Text → AuditDecision → Text → AuditEvent
search_event r process_instance_id decision class = record {
  request_id = r.request_id;
  corp_id = r.user.corp_id;
  actor_user_id = r.user.user_id;
  action = r.action;
  process_instance_id = process_instance_id;
  file_id = [];
  decision = decision;
  upstream_error_class = class;
  created_at = r.now;
}

-- What one goroutine returns, with the event that it recorded.
abbrev pub Outcome : Type 0
Outcome = Result (Option Item) × List AuditEvent

module _ (service : Service) (r : Request) where
  -- recordAudit, then what follows when the event has been recorded.
  abbrev recorded : AuditEvent → Result (Unit {0}) → Result (Option Item) → Outcome
  recorded e (err f) next = (err (only unavailable), [])
  recorded e (ok _) next = (next, e ∷ [])

  unfoldable pub record_then : AuditEvent → Result (Option Item) → Outcome
  record_then e next = recorded e (service.record_audit e) next

  -- recordDenied
  unfoldable pub record_denied : Text → Fault → Outcome
  record_denied id cause = record_then (search_event r id denied (error_class cause)) (err cause)

  -- What a goroutine does with an approval.
  unfoldable pub judge : Text → Approval → Outcome
  judge id a =
      if not (can_access a r.user.user_id service.administrators)
      then record_then (search_event r id denied (error_class (only forbidden))) (ok none)
      else if is_empty a.attachments
      then (ok none, [])
      else if not (is_empty r.keyword) && not (approval_matches_keyword service.go a r.keyword)
      then (ok none, [])
      else record_then (search_event r id allowed []) (ok (some (item_of a)))

  -- What a goroutine does with the answer of the provider; `cut` tells that the group has been canceled,
  -- and the request has not.
  unfoldable pub settle : Bool → Text → Result Approval → Outcome
  settle cut id (ok a) = judge id a
  settle cut id (err f) = if is f canceled && cut then (ok none, []) else record_denied id f

-- The variables that the goroutines share: `results`, the first error of the group, and the events.
pub record Group : Type 0 where
  pub results : List (Option Item)
  pub failed : Option Fault
  pub audits : List AuditEvent

abbrev pub has_failed : Option Fault → Bool
has_failed none = false
has_failed (some f) = true

abbrev pub set_at : ℕ → Item → List (Option Item) → List (Option Item)
set_at n item [] = []
set_at zero item (x ∷ xs) = some item ∷ xs
set_at (suc n) item (x ∷ xs) = x ∷ set_at n item xs

abbrev pub nth {ℓ} : {A : Type ℓ} → ℕ → List A → Option A
nth n [] = none
nth zero (x ∷ xs) = some x
nth (suc n) (x ∷ xs) = nth n xs

abbrev first_of : Option Fault → Fault → Option Fault
first_of none f = some f
first_of (some g) f = some g

unfoldable pub finish_one : ℕ → Group → Outcome → Group
finish_one n g (err f, events) = record g {
  failed = first_of g.failed f;
  audits = g.audits ++ events;
}
finish_one n g (ok none, events) = record g { audits = g.audits ++ events }
finish_one n g (ok (some item), events) = record g {
  results = set_at n item g.results;
  audits = g.audits ++ events;
}

-- What the provider answers in a group that has been canceled may be a cancellation.
pub record Answers : Type 0 where
  pub before : Text → Result Approval
  pub after : Text → Result Approval

module _ (service : Service) (r : Request) (answers : Answers) (candidates : List Candidate) where
  abbrev pub ask : Option Fault → Text → Outcome
  ask none id = settle service r false id (answers.before id)
  ask (some f) id = settle service r true id (answers.after id)

  abbrev run_candidate : ℕ → Group → Option Candidate → Group
  run_candidate n g none = g
  run_candidate n g (some c) = finish_one n g (ask g.failed c.process_instance_id)

  -- The goroutine of a candidate, from its lookup to its end.
  unfoldable pub run_one : ℕ → Group → Group
  run_one n g = run_candidate n g (nth n candidates)

  -- The goroutines in the order in which they look up their approvals.
  unfoldable pub run_all : List ℕ → Group → Group
  run_all [] g = g
  run_all (n ∷ ns) g = run_all ns (run_one n g)

  -- The loop that keeps the results that are not nil.
  abbrev pub collect : List (Option Item) → List Item
  collect [] = []
  collect (none ∷ os) = collect os
  collect (some item ∷ os) = item ∷ collect os

  abbrev pub waited : Option Fault → List (Option Item) → Result (List Item)
  waited none results = ok (collect results)
  waited (some f) results = err f

  abbrev pub started : Group
  started = record { results = map (λ c. none) candidates; failed = none; audits = [] }

  -- authorizeCandidates, for a schedule of its goroutines.
  unfoldable pub authorize_candidates : List ℕ → Result (List Item) × List AuditEvent
  authorize_candidates schedule =
      let g = run_all schedule started in (waited g.failed g.results, g.audits)
