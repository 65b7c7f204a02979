-- ===== src/Postgres/Lifecycle/Logins.antt =====
-- The operations up to the approval of a login move its device code along the states only.
use dingtalk_oa_attachment_b.Prelude.{
  ℕ, ◌≡◌, refl, sym, subst, Bool, true, false, ◌&&◌, Option, none, some, Text, ◌==◌, text_eq, leb,
  ◌||◌, arith, if◌then◌else◌,
}
use dingtalk_oa_attachment_b.Prelude.Assoc.{lookup, NodupKeys}
use dingtalk_oa_attachment_b.Domain.Errors.{
  Fault, Result, ok, err, only, already_used, not_found, expired,
}
use dingtalk_oa_attachment_b.Domain.Approval.{User}
use dingtalk_oa_attachment_b.Postgres.Tables.{
  Status, pending, authorizing, approved, denied, consumed, DeviceAuthorization, Tables, Connection,
  Work, returns, commits, missing,
}
use dingtalk_oa_attachment_b.Postgres.Tables.Statements.{select_row, select_row-lookup}
use dingtalk_oa_attachment_b.Domain.Errors.Inversion.{then_ok, refuse_ok}
use dingtalk_oa_attachment_b.Postgres.Tables.Inversion.{
  commits_tables, load_ok, exec_ok, finish_lem,
}
use dingtalk_oa_attachment_b.Postgres.Devices.{
  is_pending, create_device_authorization, bind_oauth_state, bind_state, write_state,
  reject_oauth_state, claim_oauth_state, reject_device_authorization, reject_row,
  complete_device_authorization, complete_row, set_state, set_denied, is_open_with, exists,
}
use dingtalk_oa_attachment_b.Postgres.Lifecycle.{
  Operation, creates, binds, rejects_state, claims, rejects_device, completes, stays, is_claimed,
  is_rejected, is_refused, is_completed, Moves,
}
use dingtalk_oa_attachment_b.Postgres.Lifecycle.Rows.{Leads, same, put, change, create-Follows}

pending_of : (s : Status) → (if is_pending s then false else true) ≡ false → s ≡ pending
pending_of pending e = refl
pending_of authorizing e = ground arith
pending_of approved e = ground arith
pending_of denied e = ground arith
pending_of consumed e = ground arith

open_pending :
    (d : DeviceAuthorization) (state : Text) (now : ℕ)
    → is_open_with state now d ≡ true
    → d.status ≡ pending
open_pending d state now h = pending_of d.status (is_pending_of _ _ _ h)
  where
    is_pending_of : (a b c : Bool) → (a && (b && c)) ≡ true → (if b then false else true) ≡ false
    is_pending_of a b c h = ground arith

no_commit : {a b : Unit {0}} {t : Tables} → ok (returns b) ≡ ok (commits a t) → ⊥
no_commit e = subst (λ r. elim r [ ok (returns _) ↦ Unit {0} | _ ↦ ⊥ ]) e tt

bind_written :
    (unset same_state : Bool) (w : Result (Work (Unit {0}))) (f : Fault) {a : Unit {0}} {t : Tables}
    → (if unset then w else if same_state then ok (returns tt) else err f) ≡ ok (commits a t)
    → w ≡ ok (commits a t)
bind_written true same_state w f e = e
bind_written false true w f e = absurd (no_commit e)
bind_written false false w f e = ground arith

module _ (c : Connection) (t : Tables) (u : NodupKeys t.device_authorizations) where
  pub claim-Leads :
      (state : Text) (now : ℕ) → Leads (claims state now) t (claim_oauth_state c state now t).1
  unfolding claim_oauth_state
  claim-Leads state now =
      let o = claims state now in
      finish_lem (Leads o t) c.commits _ t _ (same o t.device_authorizations u) (λ a t' e.
        let (row, found, e1) = load_ok _ _ _ _ (then_ok _ _ e) in
        let (_, e2) = refuse_ok _ _ _ e1 in
        let (p, e3) = refuse_ok _ _ _ e2 in
        subst (Leads o t) (commits_tables (then_ok _ _ e3)) (
          put o t.device_authorizations row.0 row.1 _ u (select_row-lookup _ _ row.0 row.1 u found)
            (
              subst (λ s. Moves s authorizing) (sym (pending_of row.1.status p)) is_claimed,
              refl,
              refl,
            )))

  write_state-Leads :
      (o : Operation) (user_code state : Text) (a : Unit {0}) (t' : Tables)
      → write_state c user_code state t ≡ ok (commits a t')
      → Leads o t t'
  unfolding write_state
  write_state-Leads o user_code state a t' e =
      let (_, e1) = exec_ok _ _ _ _ e in
      subst (Leads o t) (commits_tables e1)
        (change o t.device_authorizations _ (set_state state) u (λ d h. (stays, refl, refl)))

  bind_state-Leads :
      (o : Operation) (user_code state : Text) (bound : Option Text) (a : Unit {0}) (t' : Tables)
      → bind_state c user_code state t bound ≡ ok (commits a t')
      → Leads o t t'
  unfolding bind_state
  bind_state-Leads o user_code state none a t' e = write_state-Leads o user_code state a t' e
  bind_state-Leads o user_code state (some existing) a t' e =
      write_state-Leads o user_code state a t' (bind_written _ _ _ _ e)

  pub bind-Leads :
      (user_code state : Text) (now : ℕ)
      → Leads (binds user_code state now) t (bind_oauth_state c user_code state now t).1
  unfolding bind_oauth_state
  bind-Leads user_code state now =
      let o = binds user_code state now in
      finish_lem (Leads o t) c.commits _ t _ (same o t.device_authorizations u) (λ a t' e.
        let (row, _, e1) =
          load_ok (missing not_found) c.loads
            (select_row (λ d. d.user_code == user_code) t.device_authorizations) _
            (then_ok _ _ e) in
        let (_, e2) = refuse_ok (leb row.1.expires_at now) (only expired) _ e1 in
        let (_, e3) =
          refuse_ok (if is_pending row.1.status then false else true) (only already_used) _ e2 in
        bind_state-Leads o user_code state row.1.oauth_state_hash a t' e3)

  pub reject_state-Leads :
      (state : Text) (now : ℕ)
      → Leads (rejects_state state now) t (reject_oauth_state c state now t).1
  unfolding reject_oauth_state
  reject_state-Leads state now =
      let o = rejects_state state now in
      finish_lem (Leads o t) c.commits _ t _ (same o t.device_authorizations u) (λ a t' e.
        subst (Leads o t) (commits_tables (then_ok _ _ e)) (
          change o t.device_authorizations (is_open_with state now) set_denied u (λ d h. (
            subst (λ s. Moves s denied) (sym (open_pending d state now h)) is_rejected,
            refl,
            refl,
          ))))

  reject_row-Leads :
      (o : Operation) (code : Text) (d : DeviceAuthorization) (s : Status) (a : Unit {0})
      (t' : Tables)
      → lookup code t.device_authorizations ≡ some d
      → d.status ≡ s
      → reject_row c code d t s ≡ ok (commits a t')
      → Leads o t t'
  unfolding reject_row
  reject_row-Leads o code d authorizing a t' found is e =
      subst (Leads o t) (commits_tables (then_ok _ _ e)) (
        put o t.device_authorizations code d _ u found
          (subst (λ s. Moves s denied) (sym is) is_refused, refl, refl))
  reject_row-Leads o code d pending a t' found is e = ground arith
  reject_row-Leads o code d approved a t' found is e = ground arith
  reject_row-Leads o code d denied a t' found is e = absurd (no_commit e)
  reject_row-Leads o code d consumed a t' found is e = ground arith

  pub reject-Leads :
      (code : Text) (now : ℕ)
      → Leads (rejects_device code now) t (reject_device_authorization c code now t).1
  unfolding reject_device_authorization
  reject-Leads code now =
      let o = rejects_device code now in
      finish_lem (Leads o t) c.commits _ t _ (same o t.device_authorizations u) (λ a t' e.
        let (d, found, e1) = load_ok _ _ _ _ (then_ok _ _ e) in
        let (_, e2) = refuse_ok _ _ _ e1 in reject_row-Leads o code d d.status a t' found refl e2)

  complete_row-Leads :
      (o : Operation) (code : Text) (d : DeviceAuthorization) (user : User) (now : ℕ) (s : Status)
      (a : Unit {0}) (t' : Tables)
      → lookup code t.device_authorizations ≡ some d
      → d.status ≡ s
      → complete_row c code d user now t s ≡ ok (commits a t')
      → Leads o t t'
  unfolding complete_row
  complete_row-Leads o code d user now authorizing a t' found is e =
      let (_, e1) = exec_ok _ _ _ _ e in
      subst (Leads o t) (commits_tables (then_ok _ _ e1)) (
        put o t.device_authorizations code d _ u found
          (subst (λ s. Moves s approved) (sym is) is_completed, refl, refl))
  complete_row-Leads o code d user now pending a t' found is e = ground arith
  complete_row-Leads o code d user now approved a t' found is e = ground arith
  complete_row-Leads o code d user now denied a t' found is e = ground arith
  complete_row-Leads o code d user now consumed a t' found is e = ground arith

  pub complete-Leads :
      (code : Text) (user : User) (now : ℕ)
      → Leads (completes code user now) t (complete_device_authorization c code user now t).1
  unfolding complete_device_authorization
  complete-Leads code user now =
      let o = completes code user now in
      finish_lem (Leads o t) c.commits _ t _ (same o t.device_authorizations u) (λ a t' e.
        let (d, found, e1) = load_ok _ _ _ _ (then_ok _ _ e) in
        let (_, e2) = refuse_ok _ _ _ e1 in
        complete_row-Leads o code d user now d.status a t' found refl e2)

  pub create-Leads :
      (code : Text) (d : DeviceAuthorization)
      → Leads (creates code d) t (create_device_authorization c code d t).1
  unfolding create_device_authorization
  create-Leads code d =
      let o = creates code d in
      finish_lem (Leads o t) c.commits _ t _ (same o t.device_authorizations u) (λ a t' e.
        let (unbroken, e1) = exec_ok _ _ _ _ e in
        subst (Leads o t) (commits_tables e1) (
          create-Follows o t.device_authorizations code _ u
            (absent (lookup code t.device_authorizations) _ unbroken)))
    where
      absent : (o : Option DeviceAuthorization) (b : Bool) → (exists o || b) ≡ false → o ≡ none
      absent none b h = refl
      absent (some x) b h = ground arith
