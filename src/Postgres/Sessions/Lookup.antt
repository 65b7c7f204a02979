-- ===== src/Postgres/Sessions/Lookup.antt =====
-- Which session an access token finds.
use dingtalk_oa_attachment_b.Prelude.{
  ℕ, ◌≡◌, refl, sym, ◌∙◌, Bool, true, ◌&&◌, List, [], ◌∷◌, ◌++◌, none, some, Text, ◌==◌, text_eq,
  arith,
}
use dingtalk_oa_attachment_b.Domain.Errors.{Result, ok}
use dingtalk_oa_attachment_b.Domain.Approval.{User}
use dingtalk_oa_attachment_b.Postgres.Tables.{UserRow, Session, Tables}
use dingtalk_oa_attachment_b.Postgres.Tables.Statements.{select}
use dingtalk_oa_attachment_b.Postgres.Tables.Inversion.{load_ok}
use dingtalk_oa_attachment_b.Postgres.Devices.{is_user}
use dingtalk_oa_attachment_b.Postgres.Sessions.{join_users, has_access, get_session_by_access_token}

module _ (p : Session → Bool) (users : List UserRow) where
  -- A join finds nothing where no row of the first table passes.
  pub join_users-none :
      (q : Session → Bool)
      → ((s : Session) → p s ≡ true → q s ≡ true)
      → (ss : List Session) → select q ss ≡ none
      → join_users p users ss ≡ none
  unfolding join_users select
  join_users-none q f [] e = refl
  join_users-none q f (s ∷ ss) e = ground (arith, f s, join_users-none q f ss)

  pub join_users-append :
      (ss : List Session) (s : Session) (u : UserRow)
      → join_users p users ss ≡ none
      → select (is_user s.corp_id s.user_id) users ≡ some u
      → p s ≡ true
      → join_users p users (ss ++ s ∷ []) ≡ some (s, u.user)
  unfolding join_users
  join_users-append [] s u e found h = ground arith
  join_users-append (x ∷ ss) s u e found h = ground (arith, join_users-append ss s u)

pub has_access-token :
    (token : Text) (now : ℕ) (s : Session)
    → has_access token now s ≡ true
    → (s.seed.access_token_hash == token) ≡ true
has_access-token token now s h = left _ _ h
  where
    left : (a b : Bool) → (a && b) ≡ true → a ≡ true
    left a b h = ground arith

-- An access token that no session has does not authenticate.
pub unknown_token :
    (answer : Result (Unit {0})) (token : Text) (now : ℕ) (t : Tables) (user : User)
    → select (λ s. s.seed.access_token_hash == token) t.sessions ≡ none
    → get_session_by_access_token answer token now t ≡ ok user
    → ⊥
unfolding get_session_by_access_token
unknown_token answer token now t user e h =
    let (row, found, _) =
      load_ok _ answer (join_users (has_access token now) t.users t.sessions) _ h in
    absurd (
      differ (
        sym (
          join_users-none (has_access token now) t.users _ (has_access-token token now) t.sessions
            e)
        ∙ found))
  where
    differ : {A : Type 0} {a : A} → none ≡ some a → ⊥
    differ e = ground arith
