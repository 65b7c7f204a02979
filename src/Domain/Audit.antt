-- ===== src/Domain/Audit.antt =====
-- internal/domain/audit.go. A time is a number of nanoseconds since the zero time, the year 1.
use dingtalk_oa_attachment_b.Prelude.{
  ℕ, Bool, List, [], ◌∷◌, Text, any, eqb, is_empty, if◌then◌else◌,
}
use dingtalk_oa_attachment_b.Runes.{trim_space}
use dingtalk_oa_attachment_b.Domain.Errors.{Result, ok, err, invalid_input, only}

pub data AuditDecision : Type 0 where
  allowed denied : AuditDecision
  unsupported : Text → AuditDecision

pub record AuditEvent : Type 0 where
  pub request_id : Text
  pub corp_id : Text
  pub actor_user_id : Text
  pub action : Text
  pub process_instance_id : Text
  pub file_id : Text
  pub decision : AuditDecision
  pub upstream_error_class : Text
  pub created_at : ℕ

abbrev pub is_blank : Text → Bool
is_blank s = is_empty (trim_space s)

-- The fields that must not be blank. The order of Go's map is not fixed; the result is the same.
abbrev required_values : AuditEvent → List Text
required_values e =
    e.request_id ∷ e.corp_id ∷ e.actor_user_id ∷ e.action ∷ e.process_instance_id ∷ []

-- AuditEvent.Validate
unfoldable pub validate : AuditEvent → Result (Unit {0})
validate e =
    if any is_blank (required_values e) then err (only invalid_input) else elim e.decision [
      | unsupported other ↦ err (only invalid_input)
      | _ ↦ if eqb e.created_at 0 then err (only invalid_input) else ok tt
    ]
