-- ===== src/Postgres/Tables.antt =====
-- internal/postgres/store.go and internal/postgres/migrations: the rows of the tables, the statements
-- that the store sends, with the UNIQUE constraints, and the outcome of a transaction. The rounding of
-- TIMESTAMPTZ to microseconds is left out: a time is read as it was written.
pub mod Statements
pub mod Inversion
use dingtalk_oa_attachment_b.Prelude.{
  ℕ, Bool, true, false, List, [], ◌∷◌, Option, none, some, Text, ◌==◌, text_eq, if◌then◌else◌,
}
use dingtalk_oa_attachment_b.Domain.Errors.{
  Fault, Sentinel, Result, ok, err, ◌>>◌, is, only, no_rows, unique_violation, unavailable,
  conflict,
}
use dingtalk_oa_attachment_b.Domain.Audit.{AuditEvent}
use dingtalk_oa_attachment_b.Domain.Approval.{User}

pub data Status : Type 0 where
  pending authorizing approved denied consumed : Status

-- A row of device_authorizations less its primary key, the hash of the device code.
pub record DeviceAuthorization : Type 0 where
  pub user_code : Text
  pub oauth_state_hash : Option Text
  pub status : Status
  pub corp_id : Option Text
  pub user_id : Option Text
  pub created_at : ℕ
  pub expires_at : ℕ
  pub authorized_at : Option ℕ
  pub consumed_at : Option ℕ

pub record UserRow : Type 0 where
  pub user : User
  pub created_at : ℕ
  pub updated_at : ℕ

pub record SessionSeed : Type 0 where
  pub access_token_hash : Text
  pub refresh_token_hash : Text
  pub access_expires_at : ℕ
  pub refresh_expires_at : ℕ

pub record Session : Type 0 where
  pub id : ℕ
  pub corp_id : Text
  pub user_id : Text
  pub seed : SessionSeed
  pub revoked_at : Option ℕ
  pub created_at : ℕ

pub record Tables : Type 0 where
  pub users : List UserRow
  pub device_authorizations : List (Text × DeviceAuthorization)
  pub sessions : List Session
  pub next_session_id : ℕ
  pub audit_events : List AuditEvent

-- What the server answers to a commit, of a transaction or of a statement on its own: an error does
-- not tell whether it took effect, which the Boolean says.
pub data Commit : Type 0 where
  committed : Commit
  lost : Bool → Fault → Commit

-- How the connection behaves during one operation: the answer to each of its calls.
pub record Connection : Type 0 where
  pub begins : Result (Unit {0})
  pub loads : Result (Unit {0})
  pub loads_user : Result (Unit {0})
  pub writes : Result (Unit {0})
  pub inserts : Result (Unit {0})
  pub commits : Commit
  pub confirms : Result (Unit {0})

-- QueryRow and Scan
abbrev pub query_row {ℓ} : {A : Type ℓ} → Result (Unit {0}) → Option A → Result A
query_row (err f) found = err f
query_row (ok _) none = err (only no_rows)
query_row (ok _) (some a) = ok a

-- Exec of a statement, with whether it would break a UNIQUE constraint.
abbrev pub exec : Result (Unit {0}) → Bool → Result (Unit {0})
exec (err f) violates = err f
exec (ok _) true = err (only unique_violation)
exec (ok _) false = ok tt

-- classifyWriteError
unfoldable pub classify_write_error : Fault → Fault
classify_write_error f = if is f unique_violation then only conflict else only unavailable

-- `"%w: …: %w"` with ErrUnavailable
abbrev pub unavailable_by : Fault → Fault
unavailable_by f = unavailable ∷ f

-- The two tests that follow each QueryRow.
abbrev pub missing : Sentinel → Fault → Fault
missing s f = if is f no_rows then only s else unavailable_by f

abbrev pub failing {ℓ} : {A : Type ℓ} → (Fault → Fault) → Result A → Result A
failing g (ok a) = ok a
failing g (err f) = err (g f)

-- How the body of a transaction ends without an error: by a return before the commit, whose deferred
-- rollback drops the writes, or at the commit.
pub data Work {ℓ} (A : Type ℓ) : Type ℓ where
  returns : A → Work A
  commits : A → Tables → Work A

-- The end of a transaction, with what the code does when the commit fails.
abbrev pub finish {ℓ} :
    {A : Type ℓ}
    → Commit
    → (Fault → Tables → Result A)
    → Tables
    → Result (Work A)
    → Result A × Tables
finish c confirm t (err f) = (err f, t)
finish c confirm t (ok (returns a)) = (ok a, t)
finish committed confirm t (ok (commits a t')) = (ok a, t')
finish (lost true f) confirm t (ok (commits a t')) = (confirm f t', t')
finish (lost false f) confirm t (ok (commits a t')) = (confirm f t, t)

-- `return fmt.Errorf("%w: commit …: %w", domain.ErrUnavailable, err)`
abbrev pub no_confirmation {ℓ} : {A : Type ℓ} → Fault → Tables → Result A
no_confirmation f t = err (unavailable_by f)

-- Exec on the pool: one statement, which commits on its own. With how an error is wrapped, the answer
-- to the statement, and the tables before and after it.
abbrev pub autocommit :
    Commit → (Fault → Fault) → Result (Unit {0}) → Tables → Tables → Result (Unit {0}) × Tables
autocommit c wrap answer t t' =
    finish c (λ f _. err (wrap f)) t (failing wrap answer >> ok (commits tt t'))
