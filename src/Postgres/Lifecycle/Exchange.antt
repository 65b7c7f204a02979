-- ===== src/Postgres/Lifecycle/Exchange.antt =====
-- A device code is exchanged for a session once.
use dingtalk_oa_attachment_b.Prelude.{
  ℕ, ◌≡◌, ◌≤◌, ◌<◌, refl, sym, ap, ◌∙◌, subst, inl, inr, false, List, [], ◌∷◌, Option, none, some,
  Text, text_eq, All, leb, arith, Bool-cases,
}
use dingtalk_oa_attachment_b.Prelude.Assoc.{lookup, insert, lookup-insert, NodupKeys}
use dingtalk_oa_attachment_b.Domain.Errors.{
  Fault, Result-cases, ok, err, ◌>>◌, refuse_if, only, expired, already_used, unauthorized,
}
use dingtalk_oa_attachment_b.Domain.Approval.{User}
use dingtalk_oa_attachment_b.Postgres.Tables.{
  Status, pending, authorizing, approved, denied, consumed, DeviceAuthorization, SessionSeed,
  Tables, Connection, Work, commits, returns, missing, unavailable_by,
}
use dingtalk_oa_attachment_b.Domain.Errors.Inversion.{bind_ok, then_ok, refuse_ok, ok_inj}
use dingtalk_oa_attachment_b.Postgres.Tables.Inversion.{load_ok, finish_ok, commits_tables}
use dingtalk_oa_attachment_b.Postgres.Devices.{set_row}
use dingtalk_oa_attachment_b.Postgres.Sessions.{
  exchange_device_authorization, exchange_row, exchange_user, set_consumed, load_user,
  insert_session, add_session, exchange_work, breaks_token_keys,
}
use dingtalk_oa_attachment_b.Postgres.Sessions.Insertion.{
  insert_session-ok, confirm_ok, exists_none, no_return,
}
use dingtalk_oa_attachment_b.Postgres.Sessions.Lookup.{unknown_token}
use dingtalk_oa_attachment_b.Postgres.Lifecycle.{
  Operation, exchanges, step, run, Moves, stays, Traces, PrunesUntil, cutoff,
}
use dingtalk_oa_attachment_b.Postgres.Lifecycle.Steps.{step-Leads}

abbrev IsConsumed : ℕ → Option DeviceAuthorization → Type 0
IsConsumed expires_at none = ⊥
IsConsumed expires_at (some d) = (d.status ≡ consumed) × (d.expires_at ≡ expires_at)

-- A consumed code is refused, and nothing is written.
exchange_consumed :
    (c : Connection) (code : Text) (seed : SessionSeed) (now : ℕ) (t : Tables)
    (d : DeviceAuthorization)
    → lookup code t.device_authorizations ≡ some d
    → d.status ≡ consumed
    → (f : Fault) × (exchange_device_authorization c code seed now t ≡ (err f, t))
unfolding exchange_device_authorization exchange_row
exchange_consumed c code seed now t d found is = elim (Result-cases c.begins) [
  | inr (f, e) ↦ (unavailable_by f, rw (e, exchange_device_authorization))
  | inl (_, e) ↦ elim (Result-cases c.loads) [
    | inr (f, e1) ↦ (missing unauthorized f, rw (e, e1, exchange_device_authorization))
    | inl (_, e1) ↦ elim (Bool-cases (leb d.expires_at now)) [
      | inl late ↦ (only expired, rw (e, e1, found, late, exchange_device_authorization))
      | inr early ↦ (
        only already_used,
        rw (e, e1, found, early, is, exchange_device_authorization, exchange_row),
      )
    ]
  ]
]

-- What the writes of an exchange are.
abbrev exchanged : Text → DeviceAuthorization → SessionSeed → ℕ → User → Tables → Tables
exchanged code d seed now user t = set_row (add_session user seed now t) code (set_consumed now d)

abbrev Exchanged :
    Connection → Text → DeviceAuthorization → SessionSeed → ℕ → Tables → Work User → Type 0
Exchanged c code d seed now t w =
    (corp_id : Text) × (user_id : Text) × (user : User) × (load_user c t corp_id user_id ≡ ok user)
    × (breaks_token_keys seed t ≡ false)
    × (commits user (exchanged code d seed now user t) ≡ w)

module _ (c : Connection) (code : Text) (d : DeviceAuthorization) (seed : SessionSeed) (now : ℕ)
    (t : Tables) (w : Work User) where
  exchange_user-ok :
      (corp_id user_id : Option Text)
      → exchange_user c code d seed now t corp_id user_id ≡ ok w
      → Exchanged c code d seed now t w
  unfolding exchange_user
  exchange_user-ok (some corp_id) (some user_id) e =
      let (user, loaded, e1) = bind_ok (load_user c t corp_id user_id) _ e in
      let (t1, inserted, e2) = bind_ok (insert_session c user seed now t) _ e1 in
      let (fresh, same) = insert_session-ok c user seed now t t1 inserted in
      (
        corp_id,
        user_id,
        user,
        loaded,
        fresh,
        subst (λ t2. commits user (set_row t2 code (set_consumed now d)) ≡ w) (sym same)
            (ok_inj (then_ok _ _ e2)),
      )
  exchange_user-ok (some corp_id) none e = ground arith
  exchange_user-ok none user_id e = ground arith

  exchange_row-ok :
      (s : Status) → exchange_row c code d seed now t s ≡ ok w → Exchanged c code d seed now t w
  unfolding exchange_row
  exchange_row-ok approved e = exchange_user-ok d.corp_id d.user_id e
  exchange_row-ok pending e = ground arith
  exchange_row-ok authorizing e = ground arith
  exchange_row-ok denied e = ground arith
  exchange_row-ok consumed e = ground arith

  exchange_work-ok :
      lookup code t.device_authorizations ≡ some d
      → exchange_work c code seed now t ≡ ok w
      → Exchanged c code d seed now t w
  exchange_work-ok found e =
      let (d', found', e1) =
        load_ok (missing unauthorized) c.loads (lookup code t.device_authorizations)
          (λ x.
            refuse_if (leb x.expires_at now) (only expired)
            >> exchange_row c code x seed now t x.status)
          (then_ok _ _ e) in
      let (_, e2) = refuse_ok (leb d'.expires_at now) (only expired) _ e1 in
      exchange_row-ok d.status (
        subst (λ x. exchange_row c code x seed now t x.status ≡ ok w)
          (some_inj (sym found' ∙ found)) e2)
    where
      some_inj : {A : Type 0} {a b : A} → some a ≡ some b → a ≡ b
      some_inj e = ground arith

lookup-insert_same :
    (code : Text) (d : DeviceAuthorization) (m : List (Text × DeviceAuthorization))
    → lookup code (insert code d m) ≡ some d
lookup-insert_same code d m = ground (arith, lookup-insert code code d m)

exchange_spends :
    (c : Connection) (code : Text) (seed : SessionSeed) (now : ℕ) (t t' : Tables) (user : User)
    (d : DeviceAuthorization)
    → lookup code t.device_authorizations ≡ some d
    → exchange_device_authorization c code seed now t ≡ (ok user, t')
    → IsConsumed d.expires_at (lookup code t'.device_authorizations)
unfolding exchange_device_authorization
exchange_spends c code seed now t t' user d found =
    finish_ok (λ t1. IsConsumed d.expires_at (lookup code t1.device_authorizations)) c.commits _ t
      (exchange_work c code seed now t) user t'
      (λ b t1 e.
        let (_, _, u, _, _, same) = exchange_work-ok c code d seed now t (commits b t1) found e in
        subst (λ t2. IsConsumed d.expires_at (lookup code t2.device_authorizations))
          (commits_tables (ap ok same))
          (subst (IsConsumed d.expires_at)
            (sym (lookup-insert_same code (set_consumed now d) t.device_authorizations))
            (refl, refl)))
      (λ b e.
        let (_, _, u, _, _, same) = exchange_work-ok c code d seed now t (returns b) found e in
        no_return u b _ same)
      (λ b t1 f e e1.
        let (_, _, u, _, fresh, _) = exchange_work-ok c code d seed now t (commits b t1) found e in
        unknown_token c.confirms seed.access_token_hash now t user (exists_none _ _ fresh)
          (confirm_ok _ user e1))

-- Moving on from a consumed row.
consumed-Moves : {s : Status} → Moves consumed s → s ≡ consumed
consumed-Moves stays = refl

kept :
    (o : Operation) (expires_at : ℕ) (before after : Option DeviceAuthorization)
    → IsConsumed expires_at before
    → cutoff o ≤ expires_at
    → ((d : DeviceAuthorization) → before ≡ some d → Traces o d after)
    → IsConsumed expires_at after
kept o x none after is h traced = absurd is
kept o x (some d) none (is, e) h traced = absurd (late (traced d refl) e)
  where
    late : d.expires_at < cutoff o → d.expires_at ≡ x → ⊥
    late l e = omega arith
kept o x (some d) (some d') (is, e) h traced =
    let (moves, _, same) = traced d refl in
    (consumed-Moves (subst (λ s. Moves s d'.status) is moves), same ∙ e)

run-IsConsumed :
    (ops : List (Connection × Operation)) (t : Tables) (code : Text) (expires_at : ℕ)
    → NodupKeys t.device_authorizations
    → All (PrunesUntil expires_at) ops
    → IsConsumed expires_at (lookup code t.device_authorizations)
    → IsConsumed expires_at (lookup code (run ops t).device_authorizations)
unfolding run
run-IsConsumed [] t code x u h is = is
run-IsConsumed ((c, o) ∷ ops) t code x u h is =
    let (u', traced) = step-Leads c o t u in
    run-IsConsumed ops (step c o t) code x u' h.1
      (kept o x (lookup code t.device_authorizations) _ is h.0 (traced code))

refused_again :
    (c : Connection) (code : Text) (seed : SessionSeed) (now : ℕ) (t : Tables) (expires_at : ℕ)
    (o : Option DeviceAuthorization)
    → lookup code t.device_authorizations ≡ o
    → IsConsumed expires_at o
    → (f : Fault) × (exchange_device_authorization c code seed now t ≡ (err f, t))
refused_again c code seed now t x none e is = absurd is
refused_again c code seed now t x (some d) e (is, _) = exchange_consumed c code seed now t d e is

-- On tables that hold each device code once, and this code among them: once an exchange of the code
-- has answered with a user, even by the confirmation of a commit that failed, then after any calls of
-- the store, of which those of PruneAuthenticationState are given no time after the code's expiry, a
-- further exchange of the code is refused and writes nothing.
pub exchange_once :
    (c c' : Connection) (code : Text) (seed seed' : SessionSeed) (now now' : ℕ) (t t' : Tables)
    (user : User) (d : DeviceAuthorization) (ops : List (Connection × Operation))
    → NodupKeys t.device_authorizations
    → lookup code t.device_authorizations ≡ some d
    → exchange_device_authorization c code seed now t ≡ (ok user, t')
    → All (PrunesUntil d.expires_at) ops
    → (f : Fault) × (exchange_device_authorization c' code seed' now' (run ops t')
        ≡ (err f, run ops t'))
unfolding step
exchange_once c c' code seed seed' now now' t t' user d ops u found e h =
    let (u', _) = step-Leads c (exchanges code seed now) t u in
    refused_again c' code seed' now' (run ops t') d.expires_at _ refl (
      run-IsConsumed ops t' code d.expires_at
        (subst (λ r. NodupKeys r.1.device_authorizations) e u') h
        (exchange_spends c code seed now t t' user d found e))
