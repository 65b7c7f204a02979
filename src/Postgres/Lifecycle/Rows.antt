-- ===== src/Postgres/Lifecycle/Rows.antt =====
-- How one change of the table of device codes carries over to the states of a login.
use dingtalk_oa_attachment_b.Prelude.{
  ℕ, ◌≡◌, refl, sym, ap, ◌∙◌, subst, inl, inr, Bool, true, false, List, Option, none, some, Text,
  ◌==◌, text_eq, arith, ltb→lt, Bool-cases, if◌then◌else◌,
}
use dingtalk_oa_attachment_b.Prelude.Assoc.{
  lookup, insert, delete_where, NodupKeys, lookup-insert, lookup-delete_where, unless,
  insert-NodupKeys, delete_where-NodupKeys,
}
use dingtalk_oa_attachment_b.Postgres.Tables.{DeviceAuthorization, Tables}
use dingtalk_oa_attachment_b.Postgres.Tables.Statements.{
  update_rows, changed, lookup-update_rows, update_rows-NodupKeys,
}
use dingtalk_oa_attachment_b.Postgres.Upkeep.{has_lapsed}
use dingtalk_oa_attachment_b.Postgres.Lifecycle.{Operation, prunes_authentication, stays, Traces}

-- The rows of one table against those of the other, and the keys of both.
abbrev pub Follows :
    Operation → List (Text × DeviceAuthorization) → List (Text × DeviceAuthorization) → Type 0
Follows o m m' =
    NodupKeys m'
    × ((code : Text) (d : DeviceAuthorization)
        → lookup code m ≡ some d
        → Traces o d (lookup code m'))

abbrev pub Leads : Operation → Tables → Tables → Type 0
Leads o t t' = Follows o t.device_authorizations t'.device_authorizations

eq_true : (j k : Text) → (j == k) ≡ true → j ≡ k
eq_true j k e = ground arith

some_inj {ℓ} : {A : Type ℓ} {a b : A} → some a ≡ some b → a ≡ b
some_inj e = ground arith

module _ (o : Operation) where
  pub same : (m : List (Text × DeviceAuthorization)) → NodupKeys m → Follows o m m
  same m u = (u, λ code d e. subst (Traces o d) (sym e) (stays, refl, refl))

  choose :
      (b : Bool) (d new : DeviceAuthorization) (other : Option DeviceAuthorization)
      → (b ≡ true → Traces o d (some new))
      → Traces o d other
      → Traces o d (if b then some new else other)
  choose true d new other f h = f refl
  choose false d new other f h = h

  -- A row is written under its key.
  pub put :
      (m : List (Text × DeviceAuthorization)) (code : Text) (old new : DeviceAuthorization)
      → NodupKeys m
      → lookup code m ≡ some old
      → Traces o old (some new)
      → Follows o m (insert code new m)
  put m code old new u found traced = (
    insert-NodupKeys code new m u,
    λ j d e. subst (Traces o d) (sym (lookup-insert code j new m)) (
        choose (code == j) d new (lookup j m)
          (λ h.
            subst (λ d'. Traces o d' (some new))
              (some_inj (sym found ∙ (ap (λ k. lookup k m) (eq_true code j h) ∙ e))) traced)
          (subst (Traces o d) (sym e) (stays, refl, refl))),
  )

  change_one :
      (b : Bool) (d d' : DeviceAuthorization)
      → (b ≡ true → Traces o d (some d'))
      → Traces o d (some (if b then d' else d))
  change_one true d d' f = f refl
  change_one false d d' f = (stays, refl, refl)

  -- The rows that pass a test are changed.
  pub change :
      (m : List (Text × DeviceAuthorization)) (p : DeviceAuthorization → Bool)
      (f : DeviceAuthorization → DeviceAuthorization)
      → NodupKeys m
      → ((d : DeviceAuthorization) → p d ≡ true → Traces o d (some (f d)))
      → Follows o m (update_rows p f m)
  change m p f u traced = (
    update_rows-NodupKeys p f m u,
    λ j d e.
        subst (Traces o d) (sym (lookup-update_rows p f j m ∙ ap (changed p f) e))
          (change_one (p d) d (f d) (traced d)),
  )

-- A row is added under a new key.
pub create-Follows :
    (o : Operation) (m : List (Text × DeviceAuthorization)) (code : Text)
    (new : DeviceAuthorization)
    → NodupKeys m
    → lookup code m ≡ none
    → Follows o m (insert code new m)
create-Follows o m code new u absent = (
  insert-NodupKeys code new m u,
  λ j d e. subst (Traces o d) (sym (lookup-insert code j new m)) (
      choose o (code == j) d new (lookup j m)
        (λ h. absurd (none_some (sym absent ∙ (ap (λ k. lookup k m) (eq_true code j h) ∙ e))))
        (subst (Traces o d) (sym e) (stays, refl, refl))),
)
  where
    none_some : {A : Type 0} {a : A} → none ≡ some a → ⊥
    none_some e = ground arith

pub prune-Follows :
    (before : ℕ) (m : List (Text × DeviceAuthorization))
    → NodupKeys m
    → Follows (prunes_authentication before) m (delete_where (λ code d. has_lapsed before d) m)
prune-Follows before m u = (
  delete_where-NodupKeys (λ code d. has_lapsed before d) m u,
  λ j d e.
      subst (Traces (prunes_authentication before) d)
        (sym (
          lookup-delete_where (λ code d'. has_lapsed before d') j m u
          ∙ ap (unless (λ code d'. has_lapsed before d') j) e))
        (elim (Bool-cases (has_lapsed before d)) [
          | inl h ↦ rw h (ltb→lt d.expires_at before h)
          | inr h ↦ rw h (stays, refl, refl)
        ]),
)
