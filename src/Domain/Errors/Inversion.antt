-- ===== src/Domain/Errors/Inversion.antt =====
-- What a chain of calls that ended without an error did.
use dingtalk_oa_attachment_b.Prelude.{◌≡◌, refl, Bool, true, false, ap, arith}
use dingtalk_oa_attachment_b.Domain.Errors.{Fault, Result, ok, err, ◌>>=◌, ◌>>◌, refuse_if}

module _ {ℓ} {B : Type ℓ} {b : B} where
  pub bind_ok {κ} :
      {A : Type κ} (m : Result A) (f : A → Result B)
      → (m >>= f) ≡ ok b
      → (a : A) × (m ≡ ok a) × (f a ≡ ok b)
  bind_ok (ok a) f e = (a, refl, e)
  bind_ok (err x) f e = ground arith

  pub then_ok : (m : Result (Unit {0})) (k : Result B) → (m >> k) ≡ ok b → k ≡ ok b
  then_ok (ok a) k e = e
  then_ok (err x) k e = ground arith

  pub refuse_ok :
      (c : Bool) (f : Fault) (k : Result B) → (refuse_if c f >> k) ≡ ok b → (c ≡ false) × (k ≡ ok b)
  refuse_ok true f k e = ground arith
  refuse_ok false f k e = (refl, e)

pub ok_inj {ℓ} : {A : Type ℓ} {a b : A} → ok a ≡ ok b → a ≡ b
ok_inj {a = a} e = ap (λ r. elim r [ ok x ↦ x | err _ ↦ a ]) e

pub err_ok {ℓ} : {A : Type ℓ} {f : Fault} {a : A} → err f ≡ ok a → ⊥
err_ok e = ground arith
