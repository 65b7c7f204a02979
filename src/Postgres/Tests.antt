-- ===== src/Postgres/Tests.antt =====
-- A login from its device code to its session.
use dingtalk_oa_attachment_b.Prelude.{
  ◌≡◌, refl, true, [], ◌∷◌, none, some, Text-discrete, ℕ_discrete, lit, arith,
}
use dingtalk_oa_attachment_b.Prelude.Assoc.{lookup, insert}
use dingtalk_oa_attachment_b.Domain.Errors.{Fault, ok, err}
use dingtalk_oa_attachment_b.Domain.Approval.{User}
use dingtalk_oa_attachment_b.Postgres.Tables.{
  approved, DeviceAuthorization, SessionSeed, Tables, Connection, committed, lost,
}
use dingtalk_oa_attachment_b.Postgres.Devices.{set_row}
use dingtalk_oa_attachment_b.Postgres.Sessions.{
  exchange_device_authorization, exchange_row, exchange_user, load_user, insert_session,
  add_session, set_consumed, join_users, get_session_by_access_token, confirm_session_commit,
}
use dingtalk_oa_attachment_b.Postgres.Sessions.{
  rotate_session, revoke_session, set_sessions, set_revoked, new_session,
}
use dingtalk_oa_attachment_b.Postgres.Sessions.Rotation.{rotate_once, revoked_token}
use dingtalk_oa_attachment_b.Postgres.Tables.Statements.{update, count, select}
use dingtalk_oa_attachment_b.Postgres.Lifecycle.{exchanges, prunes_authentication, step, run}
use dingtalk_oa_attachment_b.Postgres.Lifecycle.Rows.{Leads}
use dingtalk_oa_attachment_b.Postgres.Lifecycle.Steps.{step-Leads}
use dingtalk_oa_attachment_b.Postgres.Lifecycle.Exchange.{exchange_once}

abbrev working : Connection
working = record {
  begins = ok tt;
  loads = ok tt;
  loads_user = ok tt;
  writes = ok tt;
  inserts = ok tt;
  commits = committed;
  confirms = ok tt;
}

-- The commit took effect and its answer was lost.
abbrev shaky : Connection
shaky = record working { commits = lost true [] }

abbrev ann : User
ann = record {
  corp_id = lit "c";
  user_id = lit "ann";
  union_id = lit "u";
  display_name = lit "Ann";
}

abbrev login : DeviceAuthorization
login = record {
  user_code = lit "AB";
  oauth_state_hash = none;
  status = approved;
  corp_id = some (lit "c");
  user_id = some (lit "ann");
  created_at = 1;
  expires_at = 9;
  authorized_at = some 2;
  consumed_at = none;
}

abbrev approved_tables : Tables
approved_tables = record {
  users = record { user = ann; created_at = 2; updated_at = 2 } ∷ [];
  device_authorizations = (lit "d", login) ∷ [];
  sessions = [];
  next_session_id = 1;
  audit_events = [];
}

abbrev seed : SessionSeed
seed = record {
  access_token_hash = lit "a";
  refresh_token_hash = lit "r";
  access_expires_at = 20;
  refresh_expires_at = 30;
}

abbrev exchanged_tables : Tables
exchanged_tables = set_row (add_session ann seed 3 approved_tables) (lit "d") (set_consumed 3 login)

exchanged_lem :
    exchange_device_authorization shaky (lit "d") seed 3 approved_tables
    ≡ (ok ann, exchanged_tables)
unfolding exchange_device_authorization exchange_row exchange_user load_user insert_session
    join_users get_session_by_access_token confirm_session_commit lookup insert select Text-discrete
    ℕ_discrete
exchanged_lem = refl

step-Leads_example :
    Leads
      (exchanges (lit "d") seed 3)
      approved_tables
      (step shaky (exchanges (lit "d") seed 3) approved_tables)
unfolding lookup
step-Leads_example = step-Leads shaky (exchanges (lit "d") seed 3) approved_tables (refl, tt)

exchange_once_example :
    (f : Fault) × (exchange_device_authorization working
        (lit "d")
        seed
        4
        (run ((working, prunes_authentication 5) ∷ []) exchanged_tables)
      ≡ (err f, run ((working, prunes_authentication 5) ∷ []) exchanged_tables))
unfolding lookup Text-discrete ℕ_discrete
exchange_once_example =
    exchange_once shaky working (lit "d") seed seed 3 4 approved_tables exchanged_tables ann login
      ((working, prunes_authentication 5) ∷ []) (refl, tt) refl exchanged_lem (omega arith, tt)

abbrev session_tables : Tables
session_tables = add_session ann seed 3 approved_tables

abbrev next_seed : SessionSeed
next_seed = record {
  access_token_hash = lit "a2";
  refresh_token_hash = lit "r2";
  access_expires_at = 40;
  refresh_expires_at = 50;
}

abbrev rotated_tables : Tables
rotated_tables =
    add_session ann next_seed 5
      (set_sessions session_tables (set_revoked 5 (new_session 1 ann seed 3) ∷ []))

rotated_lem : rotate_session shaky (lit "r") next_seed 5 session_tables ≡ (ok ann, rotated_tables)
unfolding rotate_session insert_session join_users update get_session_by_access_token
    confirm_session_commit select Text-discrete ℕ_discrete
rotated_lem = refl

rotate_once_example :
    (f : Fault) × (rotate_session working (lit "r") seed 6 rotated_tables ≡ (err f, rotated_tables))
rotate_once_example =
    rotate_once shaky working (lit "r") next_seed seed 5 6 session_tables rotated_tables ann
      rotated_lem

abbrev revoked_tables : Tables
revoked_tables = set_sessions session_tables (set_revoked 5 (new_session 1 ann seed 3) ∷ [])

revoked_lem : revoke_session working (lit "a") 5 session_tables ≡ (ok tt, revoked_tables)
unfolding revoke_session update count Text-discrete ℕ_discrete
revoked_lem = refl

revoked_token_example :
    (f : Fault) × (get_session_by_access_token (ok tt) (lit "a") 6 revoked_tables ≡ err f)
revoked_token_example =
    revoked_token working (lit "a") 5 6 session_tables revoked_tables (ok tt) revoked_lem
