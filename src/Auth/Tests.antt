-- ===== src/Auth/Tests.antt =====
-- A login above a store that lists the users it has approved.
use dingtalk_oa_attachment_b.Prelude.{◌≡◌, refl, List, [], ◌∷◌, Text-discrete, ℕ_discrete, lit, All}
use dingtalk_oa_attachment_b.Runes.{trim_space, trim_left, trim_right, is_space}
use dingtalk_oa_attachment_b.Domain.Errors.{ok, err}
use dingtalk_oa_attachment_b.Domain.Approval.{User}
use dingtalk_oa_attachment_b.Auth.Service.{
  AuthService, Repository, IdentityProvider, hash, identified, complete_claimed,
  complete_authorization,
}
use dingtalk_oa_attachment_b.Auth.Service.Completion.{IsKept, complete_authorization_keeps}

abbrev repository : Repository (List User)
repository = record {
  reject_oauth_state = λ s h. (ok tt, s);
  claim_oauth_state = λ s h. (ok h, s);
  reject_device_authorization = λ s c. (ok tt, s);
  complete_device_authorization = λ s c user. (ok tt, user ∷ s);
  exchange_device_authorization = λ s c seed. (err [], s);
  get_session_by_access_token = λ s h. (err [], s);
  rotate_session = λ s h seed. (err [], s);
  revoke_session = λ s h. (ok tt, s);
}

abbrev provider : IdentityProvider
provider = record {
  exchange_authorization_code =
      λ code. ok (record { access_token = lit "token"; corp_id = lit "corp" });
  current_user = λ token. ok (record { union_id = lit "union"; display_name = lit "Ann" });
  user_id_by_union_id = λ union_id. ok (lit "ann");
}

abbrev service : AuthService (List User)
service = record {
  repository = repository;
  identity_provider = provider;
  mac = λ credential. credential;
  corp_id = lit "corp";
  access_token_ttl = 1000000000;
  refresh_token_ttl = 2000000000;
}

abbrev OwnUsers : List User → Type 0
OwnUsers users = All (λ user. user.corp_id ≡ service.corp_id) users

OwnUsers-kept : IsKept service OwnUsers
OwnUsers-kept = record {
  claims = λ s h inv. inv;
  rejects = λ s c inv. inv;
  completes = λ s c user member inv. (member.own_corp, inv);
}

abbrev ann : User
ann = record {
  corp_id = lit "corp";
  user_id = lit "ann";
  union_id = lit "union";
  display_name = lit "Ann";
}

ann_approved : complete_authorization service 0 [] (lit "state") (lit "code") ≡ (ok tt, ann ∷ [])
unfolding complete_authorization complete_claimed identified hash trim_space trim_left trim_right
    is_space Text-discrete ℕ_discrete
ann_approved = refl

complete_authorization_keeps_example :
    OwnUsers (complete_authorization service 0 [] (lit "state") (lit "code")).1
complete_authorization_keeps_example =
    complete_authorization_keeps service OwnUsers OwnUsers-kept 0 [] (lit "state") (lit "code") tt
