-- ===== src/Postgres/Tables/Inversion.antt =====
-- What a transaction that ended without an error did, step by step.
use dingtalk_oa_attachment_b.Prelude.{
  ◌≡◌, refl, subst, Bool, true, false, Option, none, some, ap, subst, arith,
}
use dingtalk_oa_attachment_b.Domain.Errors.{Fault, Result, ok, err, ◌>>=◌, ◌>>◌}
use dingtalk_oa_attachment_b.Domain.Errors.Inversion.{err_ok}
use dingtalk_oa_attachment_b.Postgres.Tables.{
  Tables, Commit, committed, lost, Work, returns, commits, finish, query_row, failing, exec,
  autocommit,
}

module _ {ℓ} {B : Type ℓ} {b : B} where
  pub load_ok {κ} :
      {A : Type κ} (g : Fault → Fault) (answer : Result (Unit {0})) (found : Option A)
      (f : A → Result B)
      → (failing g (query_row answer found) >>= f) ≡ ok b
      → (a : A) × (found ≡ some a) × (f a ≡ ok b)
  load_ok g (err x) found f e = ground arith
  load_ok g (ok _) none f e = ground arith
  load_ok g (ok _) (some a) f e = (a, refl, e)

  pub exec_ok :
      (g : Fault → Fault) (answer : Result (Unit {0})) (violates : Bool) (k : Result B)
      → (failing g (exec answer violates) >> k) ≡ ok b
      → (violates ≡ false) × (k ≡ ok b)
  exec_ok g (err x) violates k e = ground arith
  exec_ok g (ok _) true k e = ground arith
  exec_ok g (ok _) false k e = (refl, e)

pub finish_lem {ℓ κ} :
    {A : Type ℓ} (P : Tables → Type κ) (c : Commit) (confirm : Fault → Tables → Result A)
    (t : Tables) (body : Result (Work A))
    → P t
    → ((a : A) (t' : Tables) → body ≡ ok (commits a t') → P t')
    → P (finish c confirm t body).1
finish_lem P c confirm t (err f) h step = h
finish_lem P c confirm t (ok (returns a)) h step = h
finish_lem P committed confirm t (ok (commits a t')) h step = step a t' refl
finish_lem P (lost true f) confirm t (ok (commits a t')) h step = step a t' refl
finish_lem P (lost false f) confirm t (ok (commits a t')) h step = h

pub commits_tables {ℓ} :
    {A : Type ℓ} {a b : A} {t t' : Tables} → ok (commits a t) ≡ ok (commits b t') → t ≡ t'
commits_tables {t = t} e = ap (λ r. elim r [ ok (commits _ u) ↦ u | _ ↦ t ]) e

-- A transaction that ended well, by its commit or by the confirmation of a commit that failed.
pub finish_ok {ℓ κ} :
    {A : Type ℓ} (P : Tables → Type κ) (c : Commit) (confirm : Fault → Tables → Result A)
    (t : Tables) (body : Result (Work A)) (a : A) (t' : Tables)
    → ((b : A) (t1 : Tables) → body ≡ ok (commits b t1) → P t1)
    → ((b : A) → body ≡ ok (returns b) → ⊥)
    → ((b : A) (t1 : Tables) (f : Fault) → body ≡ ok (commits b t1) → confirm f t ≡ ok a → ⊥)
    → finish c confirm t body ≡ (ok a, t')
    → P t'
finish_ok P c confirm t (err f) a t' done kept unsure e = absurd (fails (ap (λ r. r.0) e))
  where
    fails : err f ≡ ok a → ⊥
    fails e = ground arith
finish_ok P c confirm t (ok (returns b)) a t' done kept unsure e = absurd (kept b refl)
finish_ok P committed confirm t (ok (commits b t1)) a t' done kept unsure e =
    subst P (ap (λ r. r.1) e) (done b t1 refl)
finish_ok P (lost true f) confirm t (ok (commits b t1)) a t' done kept unsure e =
    subst P (ap (λ r. r.1) e) (done b t1 refl)
finish_ok P (lost false f) confirm t (ok (commits b t1)) a t' done kept unsure e =
    absurd (unsure b t1 f refl (ap (λ r. r.0) e))

-- A statement on its own that was answered without an error took effect.
pub autocommit_ok :
    (c : Commit) (wrap : Fault → Fault) (answer : Result (Unit {0})) (k : Result (Unit {0}))
    (t t' : Tables)
    → ((autocommit c wrap answer t t').0 >> k) ≡ ok tt
    → t' ≡ (autocommit c wrap answer t t').1
autocommit_ok c wrap (err f) k t t' e = absurd (err_ok e)
autocommit_ok committed wrap (ok _) k t t' e = refl
autocommit_ok (lost true f) wrap (ok _) k t t' e = absurd (err_ok e)
autocommit_ok (lost false f) wrap (ok _) k t t' e = absurd (err_ok e)
