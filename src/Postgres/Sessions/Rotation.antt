-- ===== src/Postgres/Sessions/Rotation.antt =====
-- Sessions that end: RevokeSession and RotateSession.
use dingtalk_oa_attachment_b.Prelude.{
  ℕ, ◌≡◌, refl, sym, ap, ◌∙◌, subst, inl, inr, Bool, false, List, [], ◌∷◌, ◌++◌, none, some, Text,
  ◌==◌, text_eq, All, arith, eqb, Bool-cases, if◌then◌else◌,
}
use dingtalk_oa_attachment_b.Domain.Errors.{
  Fault, Result, Result-cases, ok, err, only, unauthorized, no_rows,
}
use dingtalk_oa_attachment_b.Domain.Approval.{User}
use dingtalk_oa_attachment_b.Postgres.Tables.{
  UserRow, SessionSeed, Session, Tables, Connection, Work, commits, returns, missing,
  unavailable_by,
}
use dingtalk_oa_attachment_b.Postgres.Tables.Statements.{select, update}
use dingtalk_oa_attachment_b.Domain.Errors.Inversion.{bind_ok, then_ok, refuse_ok, ok_inj}
use dingtalk_oa_attachment_b.Postgres.Tables.Inversion.{
  load_ok, finish_ok, commits_tables, autocommit_ok,
}
use dingtalk_oa_attachment_b.Postgres.Sessions.{
  join_users, has_access, is_live, is_unrevoked_with, set_revoked, set_sessions, revoke_session,
  rotate_session, get_session_by_access_token, insert_session, add_session, rotate_work,
  breaks_token_keys,
}
use dingtalk_oa_attachment_b.Postgres.Sessions.Insertion.{
  insert_session-ok, confirm_ok, exists_none, no_return,
}
use dingtalk_oa_attachment_b.Postgres.Sessions.Lookup.{unknown_token}

module _ (p : Session → Bool) (users : List UserRow) where
  join_users-All : (ss : List Session) → All (λ s. p s ≡ false) ss → join_users p users ss ≡ none
  unfolding join_users
  join_users-All [] h = refl
  join_users-All (s ∷ ss) h = ground (arith, h.0, join_users-All ss h.1)

  join_users-append_found :
      (ss rest : List Session) (row : Session × User)
      → join_users p users ss ≡ some row
      → join_users p users (ss ++ rest) ≡ some row
  unfolding join_users
  join_users-append_found [] rest row e = ground arith
  join_users-append_found (s ∷ ss) rest row e = ground (arith, join_users-append_found ss rest row)

revoked_one :
    (token : Text) (now now' : ℕ) (s : Session)
    → has_access token now' (if is_unrevoked_with token s then set_revoked now s else s) ≡ false
revoked_one token now now' s = elim (Bool-cases (is_unrevoked_with token s)) [
  | inl h ↦ rw h (ground arith)
  | inr h ↦ rw h (ground arith)
]

revoked_all :
    (token : Text) (now now' : ℕ) (ss : List Session)
    → All
        (λ s. has_access token now' s ≡ false)
        (update (is_unrevoked_with token) (set_revoked now) ss)
unfolding update
revoked_all token now now' [] = tt
revoked_all token now now' (s ∷ ss) = (revoked_one token now now' s, revoked_all token now now' ss)

no_session :
    (answer : Result (Unit {0})) (token : Text) (now : ℕ) (t : Tables)
    → join_users (has_access token now) t.users t.sessions ≡ none
    → (f : Fault) × (get_session_by_access_token answer token now t ≡ err f)
unfolding get_session_by_access_token
no_session (err f) token now t e = (missing unauthorized f, refl)
no_session (ok _) token now t e =
    (missing unauthorized (only no_rows), rw (e, get_session_by_access_token))

-- Once RevokeSession has answered without an error, its access token authenticates nobody, at any
-- time.
pub revoked_token :
    (c : Connection) (token : Text) (now now' : ℕ) (t t' : Tables) (answer : Result (Unit {0}))
    → revoke_session c token now t ≡ (ok tt, t')
    → (f : Fault) × (get_session_by_access_token answer token now' t' ≡ err f)
unfolding revoke_session
revoked_token c token now now' t t' answer e =
    subst (λ t1. (f : Fault) × (get_session_by_access_token answer token now' t1 ≡ err f))
      (autocommit_ok c.commits unavailable_by c.writes _ t _ (ap (λ r. r.0) e) ∙ ap (λ r. r.1) e)
      (no_session answer token now' _
        (join_users-All (has_access token now') t.users _ (revoked_all token now now' t.sessions)))

-- The rows that are revoked keep their place in the join.
module _ (p q : Session → Bool) (now : ℕ) (users : List UserRow)
    (p_kept : (s : Session) → p (set_revoked now s) ≡ p s) where
  join_users-update :
      (ss : List Session) (s : Session) (u : User)
      → join_users p users ss ≡ some (s, u)
      → join_users p users (update q (set_revoked now) ss)
        ≡ some (if q s then set_revoked now s else s, u)
  unfolding join_users update
  join_users-update [] s u e = ground arith
  join_users-update (x ∷ ss) s u e = elim (Bool-cases (q x)) [
    | inl h ↦ rw h (ground (arith, p_kept x, join_users-update ss s u))
    | inr h ↦ rw h (ground (arith, join_users-update ss s u))
  ]

  select-update :
      (ss : List Session) → select p (update q (set_revoked now) ss) ≡ none → select p ss ≡ none
  unfolding select update
  select-update [] e = refl
  select-update (x ∷ ss) e = elim (Bool-cases (q x)) [
    | inl h ↦ ground (arith, p_kept x, select-update ss)
    | inr h ↦ ground (arith, select-update ss)
  ]

-- The session with a refresh token is there and is revoked.
abbrev IsSpent : Text → Tables → Type 0
IsSpent refresh t =
    (row : Session × User) × (join_users (λ s. s.seed.refresh_token_hash == refresh) t.users
        t.sessions
      ≡ some row)
    × (is_live row.0.revoked_at ≡ false)

refuse_spent :
    (c : Connection) (refresh : Text) (seed : SessionSeed) (now : ℕ) (t : Tables)
    → IsSpent refresh t
    → (f : Fault) × (rotate_session c refresh seed now t ≡ (err f, t))
unfolding rotate_session
refuse_spent c refresh seed now t (row, found, dead) = elim (Result-cases c.begins) [
  | inr (f, e) ↦ (unavailable_by f, rw (e, rotate_session))
  | inl (_, e) ↦ elim (Result-cases c.loads) [
    | inr (f, e1) ↦ (missing unauthorized f, rw (e, e1, rotate_session))
    | inl (_, e1) ↦ (only unauthorized, rw (e, e1, found, dead, rotate_session))
  ]
]

-- The tables when the session `s` was replaced.
abbrev replaced : Session → User → SessionSeed → ℕ → Tables → Tables
replaced s u seed now t =
    add_session u seed now
      (set_sessions t (update (λ x. eqb x.id s.id) (set_revoked now) t.sessions))

abbrev Rotated : Text → SessionSeed → ℕ → Tables → Work User → Type 0
Rotated refresh seed now t w =
    (row : Session × User) × (join_users (λ s. s.seed.refresh_token_hash == refresh) t.users
        t.sessions
      ≡ some row)
    × (breaks_token_keys seed
          (set_sessions t (update (λ x. eqb x.id row.0.id) (set_revoked now) t.sessions))
        ≡ false)
    × (commits row.1 (replaced row.0 row.1 seed now t) ≡ w)

rotate_work-ok :
    (c : Connection) (refresh : Text) (seed : SessionSeed) (now : ℕ) (t : Tables) (w : Work User)
    → rotate_work c refresh seed now t ≡ ok w
    → Rotated refresh seed now t w
rotate_work-ok c refresh seed now t w e =
    let (row, found, e1) =
      load_ok (missing unauthorized) c.loads
        (join_users (λ s. s.seed.refresh_token_hash == refresh) t.users t.sessions) _
        (then_ok _ _ e) in
    let (_, e2) = refuse_ok _ _ _ e1 in
    let (t1, inserted, e3) = bind_ok (insert_session c row.1 seed now _) _ (then_ok _ _ e2) in
    let (fresh, same) = insert_session-ok c row.1 seed now _ t1 inserted in
    (row, found, fresh, subst (λ t2. commits row.1 t2 ≡ w) (sym same) (ok_inj e3))

replaced-IsSpent :
    (refresh : Text) (s : Session) (u : User) (seed : SessionSeed) (now : ℕ) (t : Tables)
    → join_users (λ s. s.seed.refresh_token_hash == refresh) t.users t.sessions ≡ some (s, u)
    → IsSpent refresh (replaced s u seed now t)
replaced-IsSpent refresh s u seed now t found =
    let p : Session → Bool = λ s. s.seed.refresh_token_hash == refresh in
    let q : Session → Bool = λ x. eqb x.id s.id in
    (
      (if q s then set_revoked now s else s, u),
      join_users-append_found p t.users _ _ _
          (join_users-update p q now t.users (λ s. refl) t.sessions s u found),
      revoked s,
    )
  where
    revoked :
        (s : Session) → is_live (if eqb s.id s.id then set_revoked now s else s).revoked_at ≡ false
    revoked s = ground arith

-- Once a rotation has answered with a user, even by the confirmation of a commit that failed, a
-- further rotation with the same refresh token is refused and writes nothing, at any time and however
-- the connection behaves.
pub rotate_once :
    (c c' : Connection) (refresh : Text) (seed seed' : SessionSeed) (now now' : ℕ) (t t' : Tables)
    (user : User)
    → rotate_session c refresh seed now t ≡ (ok user, t')
    → (f : Fault) × (rotate_session c' refresh seed' now' t' ≡ (err f, t'))
unfolding rotate_session
rotate_once c c' refresh seed seed' now now' t t' user e = refuse_spent c' refresh seed' now' t' (
    finish_ok (IsSpent refresh) c.commits _ t (rotate_work c refresh seed now t) user t'
      (λ b t1 h.
        let (row, found, _, same) = rotate_work-ok c refresh seed now t (commits b t1) h in
        subst (IsSpent refresh) (commits_tables (ap ok same))
          (replaced-IsSpent refresh row.0 row.1 seed now t found))
      (λ b h.
        let (row, _, _, same) = rotate_work-ok c refresh seed now t (returns b) h in
        no_return row.1 b _ same)
      (λ b t1 f h confirmation.
        let (row, _, fresh, _) = rotate_work-ok c refresh seed now t (commits b t1) h in
        unknown_token c.confirms seed.access_token_hash now t user
          (select-update (λ s. s.seed.access_token_hash == seed.access_token_hash)
            (λ x. eqb x.id row.0.id) now t.users (λ s. refl) t.sessions (exists_none _ _ fresh))
          (confirm_ok _ user confirmation))
      e)
