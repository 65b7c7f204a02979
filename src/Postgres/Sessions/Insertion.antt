-- ===== src/Postgres/Sessions/Insertion.antt =====
-- What a successful insertSession and a successful confirmation show.
use dingtalk_oa_attachment_b.Prelude.{
  ℕ, ◌≡◌, refl, subst, Bool, false, ◌||◌, Option, none, some, arith,
}
use dingtalk_oa_attachment_b.Domain.Errors.{Result, ok, err}
use dingtalk_oa_attachment_b.Domain.Approval.{User}
use dingtalk_oa_attachment_b.Postgres.Tables.{
  SessionSeed, Tables, Connection, returns, commits, classify_write_error,
}
use dingtalk_oa_attachment_b.Domain.Errors.Inversion.{ok_inj}
use dingtalk_oa_attachment_b.Postgres.Tables.Inversion.{exec_ok}
use dingtalk_oa_attachment_b.Postgres.Devices.{exists}
use dingtalk_oa_attachment_b.Postgres.Sessions.{
  insert_session, breaks_token_keys, add_session, confirm_session_commit,
}

pub insert_session-ok :
    (c : Connection) (user : User) (seed : SessionSeed) (now : ℕ) (t t' : Tables)
    → insert_session c user seed now t ≡ ok t'
    → (breaks_token_keys seed t ≡ false) × (add_session user seed now t ≡ t')
unfolding insert_session
insert_session-ok c user seed now t t' e =
    let (fresh, e1) = exec_ok classify_write_error c.inserts (breaks_token_keys seed t) _ e in
    (fresh, ok_inj e1)

pub confirm_ok : (r : Result User) (user : User) → confirm_session_commit r ≡ ok user → r ≡ ok user
unfolding confirm_session_commit
confirm_ok (ok a) user e = e
confirm_ok (err f) user e = ground arith

pub exists_none {ℓ} : {A : Type ℓ} (o : Option A) (b : Bool) → (exists o || b) ≡ false → o ≡ none
exists_none none b h = refl
exists_none (some x) b h = ground arith

pub no_return : (user b : User) (t : Tables) → commits user t ≡ returns b → ⊥
no_return user b t e = subst (λ w. elim w [ commits _ _ ↦ Unit {0} | returns _ ↦ ⊥ ]) e tt
