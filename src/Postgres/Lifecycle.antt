-- ===== src/Postgres/Lifecycle.antt =====
-- internal/postgres/store.go: the operations as steps of the store, and the states of a device code.
pub mod Rows
pub mod Logins
pub mod Steps
pub mod Exchange
use dingtalk_oa_attachment_b.Prelude.{ℕ, ◌≡◌, ◌≤◌, ◌<◌, List, [], ◌∷◌, Option, none, some, Text}
use dingtalk_oa_attachment_b.Domain.Audit.{AuditEvent}
use dingtalk_oa_attachment_b.Domain.Approval.{User}
use dingtalk_oa_attachment_b.Postgres.Tables.{
  Status, pending, authorizing, approved, denied, consumed, DeviceAuthorization, SessionSeed,
  Tables, Connection,
}
use dingtalk_oa_attachment_b.Postgres.Devices.{
  create_device_authorization, bind_oauth_state, reject_oauth_state, claim_oauth_state,
  reject_device_authorization, complete_device_authorization,
}
use dingtalk_oa_attachment_b.Postgres.Sessions.{
  exchange_device_authorization, rotate_session, revoke_session,
}
use dingtalk_oa_attachment_b.Postgres.Upkeep.{record_audit, prune_audit, prune_authentication_state}

-- The calls of the store that write, with their arguments.
pub data Operation : Type 0 where
  creates : Text → DeviceAuthorization → Operation
  binds : Text → Text → ℕ → Operation
  rejects_state : Text → ℕ → Operation
  claims : Text → ℕ → Operation
  rejects_device : Text → ℕ → Operation
  completes : Text → User → ℕ → Operation
  exchanges : Text → SessionSeed → ℕ → Operation
  rotates : Text → SessionSeed → ℕ → Operation
  revokes : Text → ℕ → Operation
  records : AuditEvent → Operation
  prunes_audit : ℕ → Operation
  prunes_authentication : ℕ → Operation

-- One call, whatever the connection answers.
unfoldable pub step : Connection → Operation → Tables → Tables
step c (creates code d) t = (create_device_authorization c code d t).1
step c (binds user_code state now) t = (bind_oauth_state c user_code state now t).1
step c (rejects_state state now) t = (reject_oauth_state c state now t).1
step c (claims state now) t = (claim_oauth_state c state now t).1
step c (rejects_device code now) t = (reject_device_authorization c code now t).1
step c (completes code user now) t = (complete_device_authorization c code user now t).1
step c (exchanges code seed now) t = (exchange_device_authorization c code seed now t).1
step c (rotates refresh seed now) t = (rotate_session c refresh seed now t).1
step c (revokes access now) t = (revoke_session c access now t).1
step c (records e) t = (record_audit c e t).1
step c (prunes_audit before) t = (prune_audit c before t).1
step c (prunes_authentication before) t = (prune_authentication_state c before t).1

-- The changes of status that a login may go through.
pub data Moves : Status → Status → Type 0 where
  stays : {s : Status} → Moves s s
  is_claimed : Moves pending authorizing
  is_rejected : Moves pending denied
  is_refused : Moves authorizing denied
  is_completed : Moves authorizing approved
  is_exchanged : Moves approved consumed

unfoldable pub run : List (Connection × Operation) → Tables → Tables
run [] t = t
run ((c, o) ∷ ops) t = run ops (step c o t)

-- The time that PruneAuthenticationState is called with, and 0 for the other calls.
abbrev pub cutoff : Operation → ℕ
cutoff (prunes_authentication before) = before
cutoff _ = 0

-- What became of a row: it is there, with its user code and its expiry, or it had expired before the
-- time of a call of PruneAuthenticationState.
abbrev pub Traces : Operation → DeviceAuthorization → Option DeviceAuthorization → Type 0
Traces o d (some d') =
    Moves d.status d'.status × (d'.user_code ≡ d.user_code) × (d'.expires_at ≡ d.expires_at)
Traces o d none = d.expires_at < cutoff o

-- A call of PruneAuthenticationState is one for rows that expired before the given time.
abbrev pub PrunesUntil : ℕ → Connection × Operation → Type 0
PrunesUntil expires_at (c, o) = cutoff o ≤ expires_at
