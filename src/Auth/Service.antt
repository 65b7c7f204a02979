-- ===== src/Auth/Service.antt =====
-- internal/auth/service.go: the end of a login, and the sessions. The store, the identity provider and
-- the hash are interfaces; Postgres models an implementation of the store.
pub mod Completion
use dingtalk_oa_attachment_b.Prelude.{
  ℕ, zero, suc, ◌+◌, ◌/◌, Bool, true, false, ◌||◌, not, List, [], ◌∷◌, ◌++◌, Text, lit, ◌==◌,
  text_eq, is_empty, if◌then◌else◌,
}
use dingtalk_oa_attachment_b.Domain.Errors.{
  Fault, Result, ok, err, is, ◌>>=◌, ◌>>◌, refuse_if, only, invalid_input, unauthorized, forbidden,
  upstream, unavailable, deadline_exceeded,
}
use dingtalk_oa_attachment_b.Domain.Approval.{User}
use dingtalk_oa_attachment_b.Domain.Audit.{is_blank}
use dingtalk_oa_attachment_b.Postgres.Tables.{SessionSeed}

-- Repository, over the state that it keeps: the database, the clock and what the connections answer.
pub record Repository (S : Type 0) : Type 0 where
  pub reject_oauth_state : S → Text → Result (Unit {0}) × S
  pub claim_oauth_state : S → Text → Result Text × S
  pub reject_device_authorization : S → Text → Result (Unit {0}) × S
  pub complete_device_authorization : S → Text → User → Result (Unit {0}) × S
  pub exchange_device_authorization : S → Text → SessionSeed → Result User × S
  pub get_session_by_access_token : S → Text → Result User × S
  pub rotate_session : S → Text → SessionSeed → Result User × S
  pub revoke_session : S → Text → Result (Unit {0}) × S

pub record IdentityToken : Type 0 where
  pub access_token : Text
  pub corp_id : Text

pub record IdentityProfile : Type 0 where
  pub union_id : Text
  pub display_name : Text

-- IdentityProvider
pub record IdentityProvider : Type 0 where
  pub exchange_authorization_code : Text → Result IdentityToken
  pub current_user : Text → Result IdentityProfile
  pub user_id_by_union_id : Text → Result Text

pub record AuthService (S : Type 0) : Type 0 where
  pub repository : Repository S
  pub identity_provider : IdentityProvider
  -- The MAC with the pepper of the hasher.
  pub mac : Text → Text
  pub corp_id : Text
  -- In nanoseconds, as all times.
  pub access_token_ttl : ℕ
  pub refresh_token_ttl : ℕ

-- What the generator and the clock give to one call of newSession.
pub record Drawn : Type 0 where
  pub access_token : Result Text
  pub refresh_token : Result Text
  pub now : ℕ

pub record SessionResponse : Type 0 where
  pub access_token : Text
  pub token_type : Text
  pub expires_in : ℕ
  pub refresh_token : Text
  pub refresh_expires_in : ℕ

module _ {S : Type 0} (service : AuthService S) where
  -- Hasher.Hash
  unfoldable pub hash : Text → Result Text
  hash credential = if is_empty credential then err [] else ok (service.mac credential)

  -- An error of the first call ends the chain, and the state stays.
  abbrev with_value : {A B : Type 0} → Result A → S → (A → Result B × S) → Result B × S
  with_value (err f) s next = (err f, s)
  with_value (ok a) s next = next a

  -- The same, after a call that changes the state.
  abbrev then_with : {A B : Type 0} → Result A × S → (A → S → Result B × S) → Result B × S
  then_with (err f, s) next = (err f, s)
  then_with (ok a, s) next = next a s

  abbrev hashed_or : Fault → Text → Result Text
  hashed_or fault credential = elim (hash credential) [ ok h ↦ ok h | err f ↦ err fault ]

  -- RejectAuthorization
  unfoldable pub reject_authorization : S → Text → Result (Unit {0}) × S
  reject_authorization s state =
      with_value (refuse_if (is_blank state) (only invalid_input) >> hash state) s
        (λ state_hash. service.repository.reject_oauth_state s state_hash)

  -- One more attempt, or the error of the deadline.
  abbrev pub again : (S → Result (Unit {0}) × S) → Result (Unit {0}) × S → Result (Unit {0}) × S
  again next (ok u, s) = (ok u, s)
  again next (err f, s) = if is f unavailable then next s else (err f, s)

  abbrev pub at_deadline : Result (Unit {0}) × S → Result (Unit {0}) × S
  at_deadline (ok u, s) = (ok u, s)
  at_deadline (err f, s) =
      if is f unavailable then (err (f ++ only deadline_exceeded), s) else (err f, s)

  -- rejectClaimedAuthorization, with the number of attempts that fit in before the last one, at the
  -- deadline.
  unfoldable pub reject_claimed : ℕ → S → Text → Result (Unit {0}) × S
  reject_claimed zero s code = at_deadline (service.repository.reject_device_authorization s code)
  reject_claimed (suc n) s code =
      again (λ s'. reject_claimed n s' code) (service.repository.reject_device_authorization s code)

  -- The user that the identity provider names.
  unfoldable pub identified : Text → Result User
  identified code = do
    token ← service.identity_provider.exchange_authorization_code code
    refuse_if (not (token.corp_id == service.corp_id)) (only forbidden)
    refuse_if (is_empty token.access_token) (only upstream)
    profile ← service.identity_provider.current_user token.access_token
    refuse_if (is_empty profile.union_id) (only upstream)
    user_id ← service.identity_provider.user_id_by_union_id profile.union_id
    refuse_if (is_empty user_id) (only upstream)
    ok (record {
      corp_id = token.corp_id;
      user_id = user_id;
      union_id = profile.union_id;
      display_name = profile.display_name;
    })

  abbrev joined : Fault → Result (Unit {0}) × S → Result (Unit {0}) × S
  joined f (ok u, s) = (err f, s)
  joined f (err g, s) = (err (f ++ g), s)

  -- The deferred call: a login that has failed is rejected.
  abbrev pub unless_ok : ℕ → Text → Result (Unit {0}) × S → Result (Unit {0}) × S
  unless_ok attempts device_code_hash (ok u, s) = (ok u, s)
  unless_ok attempts device_code_hash (err f, s) =
      joined f (reject_claimed attempts s device_code_hash)

  unfoldable pub complete_claimed : ℕ → Text → Text → S → Result (Unit {0}) × S
  complete_claimed attempts code device_code_hash s = unless_ok attempts device_code_hash (
      with_value (identified code) s
        (λ user. service.repository.complete_device_authorization s device_code_hash user))

  -- CompleteAuthorization
  unfoldable pub complete_authorization : ℕ → S → Text → Text → Result (Unit {0}) × S
  complete_authorization attempts s state code =
      with_value (refuse_if (is_blank state || is_blank code) (only invalid_input) >> hash state) s
        (λ state_hash.
          then_with (service.repository.claim_oauth_state s state_hash)
            (complete_claimed attempts code))

  abbrev whole_seconds : ℕ → ℕ
  whole_seconds duration = duration / 1000000000

  -- newSession
  unfoldable pub new_session : Drawn → Result (SessionSeed × SessionResponse)
  new_session drawn = do
    access_token ← drawn.access_token
    refresh_token ← drawn.refresh_token
    access_token_hash ← hash access_token
    refresh_token_hash ← hash refresh_token
    ok (
      record {
        access_token_hash = access_token_hash;
        refresh_token_hash = refresh_token_hash;
        access_expires_at = drawn.now + service.access_token_ttl;
        refresh_expires_at = drawn.now + service.refresh_token_ttl;
      },
      record {
        access_token = access_token;
        token_type = lit "Bearer";
        expires_in = whole_seconds service.access_token_ttl;
        refresh_token = refresh_token;
        refresh_expires_in = whole_seconds service.refresh_token_ttl;
      },
    )

  abbrev respond : SessionResponse → Result User × S → Result SessionResponse × S
  respond response (err f, s) = (err f, s)
  respond response (ok user, s) = (ok response, s)

  -- The hash of a credential, then a new session.
  unfoldable pub drawn_for : Fault → Text → Drawn → Result (Text × (SessionSeed × SessionResponse))
  drawn_for fault credential drawn = do
    credential_hash ← hashed_or fault credential
    session ← new_session drawn
    ok (credential_hash, session)

  -- ExchangeDeviceAuthorization
  unfoldable pub exchange : S → Drawn → Text → Result SessionResponse × S
  exchange s drawn device_code =
      with_value (drawn_for (only invalid_input) device_code drawn) s
        (λ v. respond v.1.1 (service.repository.exchange_device_authorization s v.0 v.1.0))

  -- Authenticate
  unfoldable pub authenticate : S → Text → Result User × S
  authenticate s access_token =
      with_value (hashed_or (only unauthorized) access_token) s
        (λ h. service.repository.get_session_by_access_token s h)

  -- Refresh
  unfoldable pub refresh : S → Drawn → Text → Result SessionResponse × S
  refresh s drawn refresh_token =
      with_value (drawn_for (only unauthorized) refresh_token drawn) s
        (λ v. respond v.1.1 (service.repository.rotate_session s v.0 v.1.0))

  -- Revoke
  unfoldable pub revoke : S → Text → Result (Unit {0}) × S
  revoke s access_token =
      with_value (hashed_or (only unauthorized) access_token) s
        (λ h. service.repository.revoke_session s h)
