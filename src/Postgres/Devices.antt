-- ===== src/Postgres/Devices.antt =====
-- internal/postgres/store.go: the operations of a login by device code, up to its approval.
use dingtalk_oa_attachment_b.Prelude.{
  ℕ, Bool, true, false, ◌||◌, ◌&&◌, List, [], ◌∷◌, ◌++◌, Option, none, some, Text, ◌==◌, text_eq,
  eqb, leb, ltb, is_empty, if◌then◌else◌,
}
use dingtalk_oa_attachment_b.Prelude.Assoc.{lookup, insert}
use dingtalk_oa_attachment_b.Domain.Errors.{
  Result, ok, err, ◌>>=◌, ◌>>◌, refuse_if, only, unauthorized, not_found, conflict, expired,
  already_used,
}
use dingtalk_oa_attachment_b.Domain.Approval.{User}
use dingtalk_oa_attachment_b.Postgres.Tables.{
  Status, pending, authorizing, approved, denied, consumed, DeviceAuthorization, UserRow, Tables,
  Connection, query_row, exec, autocommit, classify_write_error, unavailable_by, missing, failing,
  Work, returns, commits, finish, no_confirmation,
}
use dingtalk_oa_attachment_b.Postgres.Tables.Statements.{
  select, update, select_row, update_rows, count_rows,
}

abbrev pub is_pending : Status → Bool
is_pending pending = true
is_pending _ = false

-- The column is NULL or holds a hash.
abbrev pub holds : Option Text → Text → Bool
holds none h = false
holds (some k) h = k == h

abbrev pub pending_device : Text → ℕ → ℕ → DeviceAuthorization
pending_device user_code created_at expires_at = record {
  user_code = user_code;
  oauth_state_hash = none;
  status = pending;
  corp_id = none;
  user_id = none;
  created_at = created_at;
  expires_at = expires_at;
  authorized_at = none;
  consumed_at = none;
}

abbrev pub set_devices : Tables → List (Text × DeviceAuthorization) → Tables
set_devices t rows = record t { device_authorizations = rows }

abbrev pub exists {ℓ} : {A : Type ℓ} → Option A → Bool
exists none = false
exists (some _) = true

-- The primary key and UNIQUE (user_code).
abbrev pub breaks_device_keys : Tables → Text → Text → Bool
breaks_device_keys t device_code_hash user_code =
    exists (lookup device_code_hash t.device_authorizations)
    || exists (select_row (λ d. d.user_code == user_code) t.device_authorizations)

-- CreateDeviceAuthorization
unfoldable pub create_device_authorization :
    Connection → Text → DeviceAuthorization → Tables → Result (Unit {0}) × Tables
create_device_authorization c device_code_hash d t =
    autocommit c.commits classify_write_error
      (exec c.writes (breaks_device_keys t device_code_hash d.user_code)) t
      (set_devices t (
        insert device_code_hash (pending_device d.user_code d.created_at d.expires_at)
          t.device_authorizations))

-- UNIQUE (oauth_state_hash), for an update of the rows with a user code.
abbrev pub breaks_state_key : Tables → Text → Text → Bool
breaks_state_key t user_code state_hash = exists (
    select_row
      (λ d. if d.user_code == user_code then false else holds d.oauth_state_hash state_hash)
      t.device_authorizations)

abbrev pub set_state : Text → DeviceAuthorization → DeviceAuthorization
set_state state_hash d = record d { oauth_state_hash = some state_hash }

unfoldable pub write_state : Connection → Text → Text → Tables → Result (Work (Unit {0}))
write_state c user_code state_hash t =
    failing classify_write_error (exec c.writes (breaks_state_key t user_code state_hash))
    >> ok (
        commits tt (
          set_devices t (
            update_rows (λ d. d.user_code == user_code) (set_state state_hash)
              t.device_authorizations)))

-- `if len(existingStateHash) != 0`
unfoldable pub bind_state :
    Connection → Text → Text → Tables → Option Text → Result (Work (Unit {0}))
bind_state c user_code state_hash t none = write_state c user_code state_hash t
bind_state c user_code state_hash t (some existing) =
    if is_empty existing
    then write_state c user_code state_hash t
    else if existing == state_hash
    then ok (returns tt)
    else err (only already_used)

-- BindOAuthState
unfoldable pub bind_oauth_state : Connection → Text → Text → ℕ → Tables → Result (Unit {0}) × Tables
bind_oauth_state c user_code state_hash now t = finish c.commits no_confirmation t (
    failing unavailable_by c.begins
    >> (failing (missing not_found)
          (query_row c.loads (select_row (λ d. d.user_code == user_code) t.device_authorizations))
        >>= λ row.
            refuse_if (leb row.1.expires_at now) (only expired)
            >> (refuse_if (if is_pending row.1.status then false else true) (only already_used)
                >> bind_state c user_code state_hash t row.1.oauth_state_hash)))

abbrev pub is_open_with : Text → ℕ → DeviceAuthorization → Bool
is_open_with state_hash now d =
    holds d.oauth_state_hash state_hash && (is_pending d.status && ltb now d.expires_at)

abbrev pub set_denied : DeviceAuthorization → DeviceAuthorization
set_denied d = record d { status = denied; oauth_state_hash = none }

-- RejectOAuthState
unfoldable pub reject_oauth_state : Connection → Text → ℕ → Tables → Result (Unit {0}) × Tables
reject_oauth_state c state_hash now t =
    let (answer, t') = autocommit c.commits classify_write_error c.writes t (
      set_devices t
        (update_rows (is_open_with state_hash now) set_denied t.device_authorizations)) in
    (
      answer
          >> refuse_if
              (if eqb (count_rows (is_open_with state_hash now) t.device_authorizations) 1
                then false
                else true)
              (only unauthorized),
      t',
    )

abbrev pub is_authorizing : Status → Bool
is_authorizing authorizing = true
is_authorizing _ = false

abbrev pub is_claimed_by : Text → ℕ → DeviceAuthorization → Bool
is_claimed_by state_hash now d =
    holds d.oauth_state_hash state_hash && (is_authorizing d.status && ltb now d.expires_at)

-- getClaimedOAuthState
unfoldable pub get_claimed_oauth_state : Connection → Text → ℕ → Tables → Result Text
get_claimed_oauth_state c state_hash now t =
    failing (missing unauthorized)
      (query_row c.confirms (select_row (is_claimed_by state_hash now) t.device_authorizations))
    >>= λ row. ok row.0

-- confirmOAuthStateClaim, which drops the two errors that it prints.
unfoldable pub confirm_oauth_state_claim : Result Text → Result Text
confirm_oauth_state_claim looked_up = failing (λ _. unavailable_by []) looked_up

-- An update by primary key.
abbrev pub set_row : Tables → Text → DeviceAuthorization → Tables
set_row t device_code_hash d = set_devices t (insert device_code_hash d t.device_authorizations)

abbrev pub set_status : Status → DeviceAuthorization → DeviceAuthorization
set_status s d = record d { status = s }

-- ClaimOAuthState
unfoldable pub claim_oauth_state : Connection → Text → ℕ → Tables → Result Text × Tables
claim_oauth_state c state_hash now t =
    finish c.commits
      (λ f t'. confirm_oauth_state_claim (get_claimed_oauth_state c state_hash now t')) t
      (failing unavailable_by c.begins
        >> (failing (missing unauthorized) (
              query_row c.loads
                (select_row (λ d. holds d.oauth_state_hash state_hash) t.device_authorizations))
            >>= λ row.
                refuse_if (leb row.1.expires_at now) (only expired)
                >> (refuse_if (if is_pending row.1.status then false else true) (only already_used)
                    >> (failing unavailable_by c.writes
                        >> ok (commits row.0 (set_row t row.0 (set_status authorizing row.1)))))))

-- The switch of RejectDeviceAuthorization, and the update that follows it.
unfoldable pub reject_row :
    Connection → Text → DeviceAuthorization → Tables → Status → Result (Work (Unit {0}))
reject_row c code d t authorizing =
    failing unavailable_by c.writes >> ok (commits tt (set_row t code (set_denied d)))
reject_row c code d t denied = ok (returns tt)
reject_row c code d t approved = err (only already_used)
reject_row c code d t consumed = err (only already_used)
reject_row c code d t pending = err (only conflict)

-- RejectDeviceAuthorization
unfoldable pub reject_device_authorization :
    Connection → Text → ℕ → Tables → Result (Unit {0}) × Tables
reject_device_authorization c code now t = finish c.commits no_confirmation t (
    failing unavailable_by c.begins
    >> (failing (missing unauthorized) (query_row c.loads (lookup code t.device_authorizations))
        >>= λ d. refuse_if (leb d.expires_at now) (only expired) >> reject_row c code d t d.status))

abbrev pub is_user : Text → Text → UserRow → Bool
is_user corp_id user_id u = u.user.corp_id == corp_id && u.user.user_id == user_id

-- UNIQUE (corp_id, union_id), for a row with the key of the user.
abbrev pub breaks_union_key : Tables → User → Bool
breaks_union_key t user = exists (
    select
      (λ u.
        if is_user user.corp_id user.user_id u
        then false
        else (u.user.corp_id == user.corp_id && u.user.union_id == user.union_id))
      t.users)

-- INSERT … ON CONFLICT (corp_id, user_id) DO UPDATE
unfoldable pub upsert_user : User → ℕ → List UserRow → List UserRow
upsert_user user now users =
    if exists (select (is_user user.corp_id user.user_id) users)
    then update (is_user user.corp_id user.user_id)
        (λ u. record u { user = user; updated_at = now }) users
    else users ++ record { user = user; created_at = now; updated_at = now } ∷ []

abbrev pub set_approved : User → ℕ → DeviceAuthorization → DeviceAuthorization
set_approved user now d = record d {
  status = approved;
  corp_id = some user.corp_id;
  user_id = some user.user_id;
  authorized_at = some now;
  oauth_state_hash = none;
}

abbrev pub set_users : Tables → List UserRow → Tables
set_users t users = record t { users = users }

-- The switch of CompleteDeviceAuthorization, and the writes that follow it.
unfoldable pub complete_row :
    Connection → Text → DeviceAuthorization → User → ℕ → Tables → Status → Result (Work (Unit {0}))
complete_row c code d user now t authorizing =
    failing classify_write_error (exec c.inserts (breaks_union_key t user))
    >> (failing unavailable_by c.writes
        >> ok (
            commits tt (
              set_row (set_users t (upsert_user user now t.users)) code (set_approved user now d))))
complete_row c code d user now t approved = err (only already_used)
complete_row c code d user now t consumed = err (only already_used)
complete_row c code d user now t pending = err (only conflict)
complete_row c code d user now t denied = err (only conflict)

-- CompleteDeviceAuthorization
unfoldable pub complete_device_authorization :
    Connection → Text → User → ℕ → Tables → Result (Unit {0}) × Tables
complete_device_authorization c code user now t = finish c.commits no_confirmation t (
    failing unavailable_by c.begins
    >> (failing (missing unauthorized) (query_row c.loads (lookup code t.device_authorizations))
        >>= λ d.
            refuse_if (leb d.expires_at now) (only expired)
            >> complete_row c code d user now t d.status))
