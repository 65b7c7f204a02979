-- ===== src/Auth/Service/Completion.antt =====
-- Whom the end of a login approves.
use dingtalk_oa_attachment_b.Prelude.{
  ℕ, zero, suc, ◌≡◌, refl, subst, false, ◌||◌, not, Text, ◌==◌, text_eq, is_empty, arith, inl, inr,
  Bool-cases,
}
use dingtalk_oa_attachment_b.Domain.Errors.{
  Fault, Result, ok, err, is, ◌>>◌, refuse_if, only, invalid_input, forbidden, upstream,
  unavailable,
}
use dingtalk_oa_attachment_b.Domain.Errors.Inversion.{bind_ok, refuse_ok, ok_inj}
use dingtalk_oa_attachment_b.Domain.Approval.{User}
use dingtalk_oa_attachment_b.Domain.Audit.{is_blank}
use dingtalk_oa_attachment_b.Auth.Service.{
  AuthService, hash, with_value, then_with, at_deadline, again, reject_claimed, identified, joined,
  unless_ok, complete_claimed, complete_authorization,
}

-- A user of the configured corporation, with the IDs that the identity provider gave.
pub record IsMember {S : Type 0} (service : AuthService S) (user : User) : Type 0 where
  pub own_corp : user.corp_id ≡ service.corp_id
  pub named : is_empty user.user_id ≡ false
  pub joined_up : is_empty user.union_id ≡ false

module _ {S : Type 0} (service : AuthService S) where
  identified-IsMember :
      (code : Text) (user : User) → identified service code ≡ ok user → IsMember service user
  unfolding identified
  identified-IsMember code user e =
      let provider = service.identity_provider in
      let (token, _, e1) = bind_ok (provider.exchange_authorization_code code) _ e in
      let (corp, e2) = refuse_ok (not (token.corp_id == service.corp_id)) (only forbidden) _ e1 in
      let (_, e3) = refuse_ok (is_empty token.access_token) (only upstream) _ e2 in
      let (profile, _, e4) = bind_ok (provider.current_user token.access_token) _ e3 in
      let (union, e5) = refuse_ok (is_empty profile.union_id) (only upstream) _ e4 in
      let (user_id, _, e6) = bind_ok (provider.user_id_by_union_id profile.union_id) _ e5 in
      let (named, done) = refuse_ok (is_empty user_id) (only upstream) _ e6 in
      subst (IsMember service) (ok_inj done)
        (record { own_corp = ground arith; named = named; joined_up = union })

  -- A property of the state that the calls of a login keep, the approval of a member among them.
  pub record IsKept (Inv : S → Type 0) : Type 0 where
    pub claims : (s : S) (h : Text) → Inv s → Inv (service.repository.claim_oauth_state s h).1
    pub rejects :
        (s : S) (c : Text) → Inv s → Inv (service.repository.reject_device_authorization s c).1
    pub completes :
        (s : S) (c : Text) (user : User)
        → IsMember service user
        → Inv s
        → Inv (service.repository.complete_device_authorization s c user).1

  module _ (Inv : S → Type 0) (kept : IsKept Inv) where
    at_deadline_keeps : (r : Result (Unit {0}) × S) → Inv r.1 → Inv (at_deadline service r).1
    at_deadline_keeps (ok u, s) h = h
    at_deadline_keeps (err f, s) h = elim (Bool-cases (is f unavailable)) [
      | inl gone ↦ rw gone h
      | inr other ↦ rw other h
    ]

    again_keeps :
        (next : S → Result (Unit {0}) × S) (r : Result (Unit {0}) × S)
        → ((s : S) → Inv s → Inv (next s).1)
        → Inv r.1
        → Inv (again service next r).1
    again_keeps next (ok u, s) f h = h
    again_keeps next (err g, s) f h = elim (Bool-cases (is g unavailable)) [
      | inl gone ↦ rw gone (f s h)
      | inr other ↦ rw other h
    ]

    reject_claimed_keeps :
        (n : ℕ) (s : S) (code : Text) → Inv s → Inv (reject_claimed service n s code).1
    unfolding reject_claimed
    reject_claimed_keeps zero s code h = at_deadline_keeps _ (kept.rejects s code h)
    reject_claimed_keeps (suc n) s code h =
        again_keeps (λ s'. reject_claimed service n s' code) _
          (λ s' h'. reject_claimed_keeps n s' code h') (kept.rejects s code h)

    joined_keeps : (f : Fault) (r : Result (Unit {0}) × S) → Inv r.1 → Inv (joined service f r).1
    joined_keeps f (ok u, s) h = h
    joined_keeps f (err g, s) h = h

    unless_ok_keeps :
        (attempts : ℕ) (code : Text) (r : Result (Unit {0}) × S)
        → Inv r.1
        → Inv (unless_ok service attempts code r).1
    unless_ok_keeps attempts code (ok u, s) h = h
    unless_ok_keeps attempts code (err f, s) h =
        joined_keeps f (reject_claimed service attempts s code)
          (reject_claimed_keeps attempts s code h)

    approve_keeps :
        (s : S) (device_code_hash : Text) (m : Result User)
        → ((user : User) → m ≡ ok user → IsMember service user)
        → Inv s
        → Inv
            (with_value service m s
              (λ user. service.repository.complete_device_authorization s device_code_hash user)).1
    approve_keeps s device_code_hash (err f) member h = h
    approve_keeps s device_code_hash (ok user) member h =
        kept.completes s device_code_hash user (member user refl) h

    complete_claimed_keeps :
        (attempts : ℕ) (code device_code_hash : Text) (s : S)
        → Inv s
        → Inv (complete_claimed service attempts code device_code_hash s).1
    unfolding complete_claimed
    complete_claimed_keeps attempts code device_code_hash s h =
        unless_ok_keeps attempts device_code_hash _
          (approve_keeps s device_code_hash (identified service code) (identified-IsMember code) h)

    then_with_keeps :
        {A : Type 0} (r : Result A × S) (next : A → S → Result (Unit {0}) × S)
        → ((a : A) (s : S) → Inv s → Inv (next a s).1)
        → Inv r.1
        → Inv (then_with service r next).1
    then_with_keeps (err f, s) next g h = h
    then_with_keeps (ok a, s) next g h = g a s h

    claim_keeps :
        (attempts : ℕ) (code : Text) (s : S) (m : Result Text)
        → Inv s
        → Inv
            (with_value service m s (λ state_hash.
              then_with service
                (service.repository.claim_oauth_state s state_hash)
                (complete_claimed service attempts code))).1
    claim_keeps attempts code s (err f) h = h
    claim_keeps attempts code s (ok state_hash) h =
        then_with_keeps (service.repository.claim_oauth_state s state_hash)
          (complete_claimed service attempts code) (complete_claimed_keeps attempts code)
          (kept.claims s state_hash h)

    -- CompleteAuthorization keeps every property of the store that claiming a state and rejecting a
    -- device code keep, and that completing one keeps for a user of the configured corporation with a
    -- user ID and a union ID: for every state and code that the request brings, every answer of the
    -- identity provider, and every number of attempts to reject.
    pub complete_authorization_keeps :
        (attempts : ℕ) (s : S) (state code : Text)
        → Inv s
        → Inv (complete_authorization service attempts s state code).1
    unfolding complete_authorization
    complete_authorization_keeps attempts s state code h =
        claim_keeps attempts code s
          (refuse_if (is_blank state || is_blank code) (only invalid_input) >> hash service state) h
