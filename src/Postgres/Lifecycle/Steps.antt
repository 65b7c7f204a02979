-- ===== src/Postgres/Lifecycle/Steps.antt =====
-- Each operation moves a device code along the states of a login only.
use dingtalk_oa_attachment_b.Prelude.{
  ℕ, ◌≡◌, refl, sym, subst, inl, inr, Option, none, some, Text, ◌==◌, text_eq, arith,
}
use dingtalk_oa_attachment_b.Prelude.Assoc.{lookup, NodupKeys}
use dingtalk_oa_attachment_b.Domain.Errors.{Result-cases, ok, unauthorized}
use dingtalk_oa_attachment_b.Domain.Audit.{AuditEvent, validate}
use dingtalk_oa_attachment_b.Domain.Approval.{User}
use dingtalk_oa_attachment_b.Postgres.Tables.{
  Status, pending, authorizing, approved, denied, consumed, DeviceAuthorization, SessionSeed,
  Tables, Connection, commits, missing,
}
use dingtalk_oa_attachment_b.Domain.Errors.Inversion.{bind_ok, then_ok, refuse_ok}
use dingtalk_oa_attachment_b.Postgres.Tables.Inversion.{commits_tables, load_ok, finish_lem}
use dingtalk_oa_attachment_b.Postgres.Devices.{set_row}
use dingtalk_oa_attachment_b.Postgres.Sessions.{
  exchange_device_authorization, exchange_row, exchange_user, rotate_session, revoke_session,
  insert_session, load_user, join_users, set_consumed,
}
use dingtalk_oa_attachment_b.Postgres.Upkeep.{record_audit, prune_audit, prune_authentication_state}
use dingtalk_oa_attachment_b.Postgres.Sessions.Insertion.{insert_session-ok}
use dingtalk_oa_attachment_b.Postgres.Lifecycle.{
  Operation, creates, binds, rejects_state, claims, rejects_device, completes, exchanges, rotates,
  revokes, records, prunes_audit, prunes_authentication, step, is_exchanged, Moves,
}
use dingtalk_oa_attachment_b.Postgres.Lifecycle.Rows.{Leads, same, put, prune-Follows}
use dingtalk_oa_attachment_b.Postgres.Lifecycle.Logins.{
  claim-Leads, bind-Leads, reject_state-Leads, reject-Leads, complete-Leads, create-Leads,
}

module _ (c : Connection) (t : Tables) (u : NodupKeys t.device_authorizations) where
  exchange_user-Leads :
      (o : Operation) (code : Text) (d : DeviceAuthorization) (seed : SessionSeed) (now : ℕ)
      (corp_id user_id : Option Text) (a : User) (t' : Tables)
      → lookup code t.device_authorizations ≡ some d
      → d.status ≡ approved
      → exchange_user c code d seed now t corp_id user_id ≡ ok (commits a t')
      → Leads o t t'
  unfolding exchange_user insert_session
  exchange_user-Leads o code d seed now (some corp_id) (some user_id) a t' found is e =
      let (user, _, e1) = bind_ok (load_user c t corp_id user_id) _ e in
      let (t1, inserted, e2) = bind_ok (insert_session c user seed now t) _ e1 in
      subst (Leads o t) (commits_tables (then_ok _ _ e2)) (
        subst (λ t2. Leads o t (set_row t2 code (set_consumed now d)))
          (insert_session-ok c user seed now t t1 inserted).1
          (put o t.device_authorizations code d _ u found
            (subst (λ s. Moves s consumed) (sym is) is_exchanged, refl, refl)))
  exchange_user-Leads o code d seed now (some corp_id) none a t' found is e = ground arith
  exchange_user-Leads o code d seed now none user_id a t' found is e = ground arith

  exchange_row-Leads :
      (o : Operation) (code : Text) (d : DeviceAuthorization) (seed : SessionSeed) (now : ℕ)
      (s : Status) (a : User) (t' : Tables)
      → lookup code t.device_authorizations ≡ some d
      → d.status ≡ s
      → exchange_row c code d seed now t s ≡ ok (commits a t')
      → Leads o t t'
  unfolding exchange_row
  exchange_row-Leads o code d seed now approved a t' found is e =
      exchange_user-Leads o code d seed now d.corp_id d.user_id a t' found is e
  exchange_row-Leads o code d seed now pending a t' found is e = ground arith
  exchange_row-Leads o code d seed now authorizing a t' found is e = ground arith
  exchange_row-Leads o code d seed now denied a t' found is e = ground arith
  exchange_row-Leads o code d seed now consumed a t' found is e = ground arith

  exchange-Leads :
      (code : Text) (seed : SessionSeed) (now : ℕ)
      → Leads (exchanges code seed now) t (exchange_device_authorization c code seed now t).1
  unfolding exchange_device_authorization
  exchange-Leads code seed now =
      let o = exchanges code seed now in
      finish_lem (Leads o t) c.commits _ t _ (same o t.device_authorizations u) (λ a t' e.
        let (d, found, e1) = load_ok _ _ _ _ (then_ok _ _ e) in
        let (_, e2) = refuse_ok _ _ _ e1 in
        exchange_row-Leads o code d seed now d.status a t' found refl e2)

  rotate-Leads :
      (refresh : Text) (seed : SessionSeed) (now : ℕ)
      → Leads (rotates refresh seed now) t (rotate_session c refresh seed now t).1
  unfolding rotate_session insert_session
  rotate-Leads refresh seed now =
      let o = rotates refresh seed now in
      finish_lem (Leads o t) c.commits _ t _ (same o t.device_authorizations u) (λ a t' e.
        let (row, _, e1) =
          load_ok (missing unauthorized) c.loads
            (join_users (λ s. s.seed.refresh_token_hash == refresh) t.users t.sessions) _
            (then_ok _ _ e) in
        let (_, e2) = refuse_ok _ _ _ e1 in
        let (t1, inserted, e3) = bind_ok (insert_session c row.1 seed now _) _ (then_ok _ _ e2) in
        subst (Leads o t) (commits_tables e3) (
          subst (Leads o t) (insert_session-ok c row.1 seed now _ t1 inserted).1
            (same o t.device_authorizations u)))

  revoke-Leads :
      (access : Text) (now : ℕ) → Leads (revokes access now) t (revoke_session c access now t).1
  unfolding revoke_session
  revoke-Leads access now =
      let o = revokes access now in
      finish_lem (Leads o t) c.commits _ t _ (same o t.device_authorizations u) (λ a t' e.
        subst (Leads o t) (commits_tables (then_ok _ _ e)) (same o t.device_authorizations u))

  record-Leads : (event : AuditEvent) → Leads (records event) t (record_audit c event t).1
  unfolding record_audit
  record-Leads event =
      let o = records event in
      elim (Result-cases (validate event)) [
        | inr (f, e) ↦ rw (e, record_audit) (same o t.device_authorizations u)
        | inl (_, e) ↦
            rw (e, record_audit)
              (finish_lem (Leads o t) c.commits _ t _ (same o t.device_authorizations u) (λ a t' h.
                subst (Leads o t) (commits_tables (then_ok _ _ h))
                  (same o t.device_authorizations u)))
      ]

  prune_audit-Leads : (before : ℕ) → Leads (prunes_audit before) t (prune_audit c before t).1
  unfolding prune_audit
  prune_audit-Leads before =
      let o = prunes_audit before in
      finish_lem (Leads o t) c.commits _ t _ (same o t.device_authorizations u) (λ a t' e.
        subst (Leads o t) (commits_tables (then_ok _ _ e)) (same o t.device_authorizations u))

  prune-Leads :
      (before : ℕ)
      → Leads (prunes_authentication before) t (prune_authentication_state c before t).1
  unfolding prune_authentication_state
  prune-Leads before =
      let o = prunes_authentication before in
      finish_lem (Leads o t) c.commits _ t _ (same o t.device_authorizations u) (λ a t' e.
        subst (Leads o t)
          (commits_tables (then_ok c.writes _ (then_ok c.inserts _ (then_ok c.begins _ e))))
          (prune-Follows before t.device_authorizations u))

-- On tables that hold each device code once: whatever a call of the store does and however the
-- connection fails, the tables still do, each code keeps its user code and its expiry, and its status
-- stays or moves along one of the arrows pending → authorizing → approved → consumed, pending →
-- denied, authorizing → denied. A row is only deleted by PruneAuthenticationState, if it expired before
-- the time that the call is given.
pub step-Leads :
    (c : Connection) (o : Operation) (t : Tables)
    → NodupKeys t.device_authorizations
    → Leads o t (step c o t)
unfolding step
step-Leads c (creates code d) t u = create-Leads c t u code d
step-Leads c (binds user_code state now) t u = bind-Leads c t u user_code state now
step-Leads c (rejects_state state now) t u = reject_state-Leads c t u state now
step-Leads c (claims state now) t u = claim-Leads c t u state now
step-Leads c (rejects_device code now) t u = reject-Leads c t u code now
step-Leads c (completes code user now) t u = complete-Leads c t u code user now
step-Leads c (exchanges code seed now) t u = exchange-Leads c t u code seed now
step-Leads c (rotates refresh seed now) t u = rotate-Leads c t u refresh seed now
step-Leads c (revokes access now) t u = revoke-Leads c t u access now
step-Leads c (records e) t u = record-Leads c t u e
step-Leads c (prunes_audit before) t u = prune_audit-Leads c t u before
step-Leads c (prunes_authentication before) t u = prune-Leads c t u before
