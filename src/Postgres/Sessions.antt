-- ===== src/Postgres/Sessions.antt =====
-- internal/postgres/store.go: the exchange of an approved device code for a session, and the life of
-- a session.
pub mod Insertion
pub mod Lookup
pub mod Rotation
use dingtalk_oa_attachment_b.Prelude.{
  ℕ, ◌+◌, Bool, true, false, ◌||◌, ◌&&◌, List, [], ◌∷◌, ◌++◌, Option, none, some, Text, ◌==◌,
  text_eq, eqb, leb, ltb, if◌then◌else◌,
}
use dingtalk_oa_attachment_b.Prelude.Assoc.{lookup}
use dingtalk_oa_attachment_b.Domain.Errors.{
  Fault, Result, ok, err, ◌>>=◌, ◌>>◌, refuse_if, only, unauthorized, forbidden, conflict, expired,
  already_used, authorization_pending,
}
use dingtalk_oa_attachment_b.Domain.Approval.{User}
use dingtalk_oa_attachment_b.Postgres.Tables.{
  Status, pending, authorizing, approved, denied, consumed, DeviceAuthorization, UserRow,
  SessionSeed, Session, Tables, Connection, query_row, exec, classify_write_error, unavailable_by,
  missing, failing, Work, commits, finish, autocommit,
}
use dingtalk_oa_attachment_b.Postgres.Tables.Statements.{select, update, count}
use dingtalk_oa_attachment_b.Postgres.Devices.{is_user, set_row, exists}

-- loadUser
unfoldable pub load_user : Connection → Tables → Text → Text → Result User
load_user c t corp_id user_id =
    failing (missing conflict) (query_row c.loads_user (select (is_user corp_id user_id) t.users))
    >>= λ u. ok u.user

-- UNIQUE (access_token_hash) and UNIQUE (refresh_token_hash)
abbrev pub breaks_token_keys : SessionSeed → Tables → Bool
breaks_token_keys seed t =
    exists (select (λ s. s.seed.access_token_hash == seed.access_token_hash) t.sessions)
    || exists (select (λ s. s.seed.refresh_token_hash == seed.refresh_token_hash) t.sessions)

abbrev pub new_session : ℕ → User → SessionSeed → ℕ → Session
new_session id user seed now = record {
  id = id;
  corp_id = user.corp_id;
  user_id = user.user_id;
  seed = seed;
  revoked_at = none;
  created_at = now;
}

abbrev pub add_session : User → SessionSeed → ℕ → Tables → Tables
add_session user seed now t = record t {
  sessions = t.sessions ++ new_session t.next_session_id user seed now ∷ [];
  next_session_id = t.next_session_id + 1;
}

-- insertSession
unfoldable pub insert_session : Connection → User → SessionSeed → ℕ → Tables → Result Tables
insert_session c user seed now t =
    failing classify_write_error (exec c.inserts (breaks_token_keys seed t))
    >> ok (add_session user seed now t)

-- FROM sessions JOIN users, with the first row that passes.
unfoldable pub join_users : (Session → Bool) → List UserRow → List Session → Option (Session × User)
join_users p users [] = none
join_users p users (s ∷ ss) =
    let rest = join_users p users ss in
    elim (select (is_user s.corp_id s.user_id) users) [
      | none ↦ rest
      | some u ↦ if p s then some (s, u.user) else rest
    ]

abbrev pub is_live : Option ℕ → Bool
is_live none = true
is_live (some _) = false

abbrev pub has_access : Text → ℕ → Session → Bool
has_access token_hash now s =
    s.seed.access_token_hash == token_hash
    && (is_live s.revoked_at && ltb now s.seed.access_expires_at)

-- GetSessionByAccessToken, with the answer of the connection.
unfoldable pub get_session_by_access_token : Result (Unit {0}) → Text → ℕ → Tables → Result User
get_session_by_access_token answer token_hash now t =
    failing (missing unauthorized)
      (query_row answer (join_users (has_access token_hash now) t.users t.sessions))
    >>= λ row. ok row.1

-- confirmSessionCommit, which drops the two errors that it prints.
unfoldable pub confirm_session_commit : Result User → Result User
confirm_session_commit looked_up = failing (λ _. unavailable_by []) looked_up

abbrev pub set_consumed : ℕ → DeviceAuthorization → DeviceAuthorization
set_consumed now d = record d { status = consumed; consumed_at = some now }

-- The test for the NULLs, and the reads and writes that follow it.
unfoldable pub exchange_user :
    Connection
    → Text
    → DeviceAuthorization
    → SessionSeed
    → ℕ
    → Tables
    → Option Text
    → Option Text
    → Result (Work User)
exchange_user c code d seed now t (some corp_id) (some user_id) =
    load_user c t corp_id user_id >>= λ user. insert_session c user seed now t >>= λ t'.
    failing unavailable_by c.writes >> ok (commits user (set_row t' code (set_consumed now d)))
exchange_user c code d seed now t (some corp_id) none = err (only conflict)
exchange_user c code d seed now t none _ = err (only conflict)

-- The switch of ExchangeDeviceAuthorization.
unfoldable pub exchange_row :
    Connection → Text → DeviceAuthorization → SessionSeed → ℕ → Tables → Status → Result (Work User)
exchange_row c code d seed now t pending = err (only authorization_pending)
exchange_row c code d seed now t authorizing = err (only authorization_pending)
exchange_row c code d seed now t denied = err (only forbidden)
exchange_row c code d seed now t consumed = err (only already_used)
exchange_row c code d seed now t approved = exchange_user c code d seed now t d.corp_id d.user_id

-- ExchangeDeviceAuthorization up to its commit.
abbrev pub exchange_work : Connection → Text → SessionSeed → ℕ → Tables → Result (Work User)
exchange_work c code seed now t =
    failing unavailable_by c.begins
    >> (failing (missing unauthorized) (query_row c.loads (lookup code t.device_authorizations))
        >>= λ d.
            refuse_if (leb d.expires_at now) (only expired)
            >> exchange_row c code d seed now t d.status)

-- ExchangeDeviceAuthorization
unfoldable pub exchange_device_authorization :
    Connection → Text → SessionSeed → ℕ → Tables → Result User × Tables
exchange_device_authorization c code seed now t =
    finish c.commits
      (λ f t'.
        confirm_session_commit
          (get_session_by_access_token c.confirms seed.access_token_hash now t'))
      t (exchange_work c code seed now t)

abbrev pub set_revoked : ℕ → Session → Session
set_revoked now s = record s { revoked_at = some now }

abbrev pub set_sessions : Tables → List Session → Tables
set_sessions t sessions = record t { sessions = sessions }

-- RotateSession up to its commit.
abbrev pub rotate_work : Connection → Text → SessionSeed → ℕ → Tables → Result (Work User)
rotate_work c refresh_hash seed now t =
    failing unavailable_by c.begins
    >> (failing (missing unauthorized) (
          query_row c.loads
            (join_users (λ s. s.seed.refresh_token_hash == refresh_hash) t.users t.sessions))
        >>= λ row.
            refuse_if
              ((if is_live row.0.revoked_at then false else true)
                || leb row.0.seed.refresh_expires_at now)
              (only unauthorized)
            >> (failing unavailable_by c.writes
                >> (insert_session c row.1 seed now (
                      set_sessions t (update (λ s. eqb s.id row.0.id) (set_revoked now) t.sessions))
                    >>= λ t'. ok (commits row.1 t'))))

-- RotateSession
unfoldable pub rotate_session : Connection → Text → SessionSeed → ℕ → Tables → Result User × Tables
rotate_session c refresh_hash seed now t =
    finish c.commits
      (λ f t'.
        confirm_session_commit
          (get_session_by_access_token c.confirms seed.access_token_hash now t'))
      t (rotate_work c refresh_hash seed now t)

abbrev pub is_unrevoked_with : Text → Session → Bool
is_unrevoked_with token_hash s = s.seed.access_token_hash == token_hash && is_live s.revoked_at

-- RevokeSession
unfoldable pub revoke_session : Connection → Text → ℕ → Tables → Result (Unit {0}) × Tables
revoke_session c token_hash now t =
    let (answer, t') =
      autocommit c.commits unavailable_by c.writes t
        (set_sessions t (update (is_unrevoked_with token_hash) (set_revoked now) t.sessions)) in
    (
      answer
          >> refuse_if
              (if eqb (count (is_unrevoked_with token_hash) t.sessions) 1 then false else true)
              (only unauthorized),
      t',
    )
