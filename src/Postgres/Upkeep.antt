-- ===== src/Postgres/Upkeep.antt =====
-- internal/postgres/store.go: the audit log, and the deletion of old rows.
use dingtalk_oa_attachment_b.Prelude.{
  ℕ, Bool, false, ◌||◌, ◌&&◌, [], ◌∷◌, ◌++◌, Option, none, some, ltb,
}
use dingtalk_oa_attachment_b.Prelude.Assoc.{delete_where}
use dingtalk_oa_attachment_b.Domain.Errors.{Result, ok, err, ◌>>◌}
use dingtalk_oa_attachment_b.Domain.Audit.{AuditEvent, validate}
use dingtalk_oa_attachment_b.Postgres.Tables.{
  DeviceAuthorization, Session, Tables, Connection, unavailable_by, commits, finish, autocommit,
}
use dingtalk_oa_attachment_b.Postgres.Tables.Statements.{count, delete, count_rows}

-- RecordAudit
unfoldable pub record_audit : Connection → AuditEvent → Tables → Result (Unit {0}) × Tables
record_audit c e t = elim (validate e) [
  | err f ↦ (err f, t)
  | ok _ ↦
      autocommit c.commits unavailable_by c.writes t
        (record t { audit_events = t.audit_events ++ e ∷ [] })
]

-- PruneAudit
unfoldable pub prune_audit : Connection → ℕ → Tables → Result ℕ × Tables
prune_audit c before t =
    let (answer, t') =
      autocommit c.commits (λ f. f) c.writes t
        (record t { audit_events = delete (λ e. ltb e.created_at before) t.audit_events }) in
    (answer >> ok (count (λ e. ltb e.created_at before) t.audit_events), t')

abbrev pub revoked_before : ℕ → Option ℕ → Bool
revoked_before before none = false
revoked_before before (some at) = ltb at before

abbrev pub is_stale : ℕ → Session → Bool
is_stale before s =
    (ltb s.seed.refresh_expires_at before && ltb s.seed.access_expires_at before)
    || revoked_before before s.revoked_at

abbrev pub has_lapsed : ℕ → DeviceAuthorization → Bool
has_lapsed before d = ltb d.expires_at before

pub record AuthenticationPruneResult : Type 0 where
  pub device_authorizations : ℕ
  pub sessions : ℕ

-- PruneAuthenticationState. Its statements are answered by `inserts` and `writes`.
unfoldable pub prune_authentication_state :
    Connection → ℕ → Tables → Result AuthenticationPruneResult × Tables
prune_authentication_state c before t =
    finish c.commits (λ f t'. err f) t
      (c.begins
        >> (c.inserts
            >> (c.writes
                >> ok (
                    commits
                      (record {
                        device_authorizations =
                            count_rows (has_lapsed before) t.device_authorizations;
                        sessions = count (is_stale before) t.sessions;
                      })
                      (record t {
                        sessions = delete (is_stale before) t.sessions;
                        device_authorizations =
                            delete_where (λ code d. has_lapsed before d) t.device_authorizations;
                      })))))
