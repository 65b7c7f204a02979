-- ===== src/Domain/Errors.antt =====
-- internal/domain/errors.go. An error is the list of the sentinels that `errors.Is` finds in it: `%w`
-- and `errors.Join` put lists together, `%v` drops what it prints.
pub mod Inversion
use dingtalk_oa_attachment_b.Prelude.{
  Bool, true, false, List, [], ◌∷◌, Text, lit, Eq, contains, if◌then◌else◌, ◌≡◌, refl, ◌⊎◌, inl,
  inr,
}

-- The sentinels of this package, then those of the standard library that the code tests for.
pub data Sentinel : Type 0 where
  invalid_input unauthorized forbidden not_found conflict expired : Sentinel
  already_used authorization_pending rate_limited too_large upstream unavailable : Sentinel
  canceled deadline_exceeded no_rows unique_violation end_of_file unexpected_eof no_progress :
      Sentinel

unfoldable pub Sentinel-discrete : Discrete Sentinel
Sentinel-discrete = hlevel

instance abbrev pub sentinel_eq : Eq Sentinel
sentinel_eq = record { dec = Sentinel-discrete }

abbrev pub Fault : Type 0
Fault = List Sentinel

-- errors.Is
abbrev pub is : Fault → Sentinel → Bool
is f s = contains f s

abbrev pub only : Sentinel → Fault
only s = s ∷ []

pub data Result {ℓ} (A : Type ℓ) : Type ℓ where
  ok : A → Result A
  err : Fault → Result A

pub Result-cases {ℓ} :
    {A : Type ℓ} (r : Result A) → ((a : A) × (r ≡ ok a)) ⊎ ((f : Fault) × (r ≡ err f))
Result-cases (ok a) = inl (a, refl)
Result-cases (err f) = inr (f, refl)

-- `if err != nil { return …, err }` between two calls.
abbrev pub ◌>>=◌ {ℓ κ} : {A : Type ℓ} {B : Type κ} → Result A → (A → Result B) → Result B
err failure >>= next = err failure
ok value >>= next = next value

infixl 5 ◌>>=◌ ◌>>◌
-- `if refused { return …, fault }`
abbrev pub refuse_if : Bool → Fault → Result (Unit {0})
refuse_if true f = err f
refuse_if false f = ok tt

-- The same after a call that returns an error only.
abbrev pub ◌>>◌ {ℓ} : {B : Type ℓ} → Result (Unit {0}) → Result B → Result B
check >> next = check >>= λ _. next

-- ErrorClass
unfoldable pub error_class : Fault → Text
error_class f =
    if is f invalid_input
    then lit "invalid_input"
    else if is f unauthorized
    then lit "unauthorized"
    else if is f forbidden
    then lit "forbidden"
    else if is f not_found
    then lit "not_found"
    else if is f conflict
    then lit "conflict"
    else if is f expired
    then lit "expired"
    else if is f already_used
    then lit "already_used"
    else if is f authorization_pending
    then lit "authorization_pending"
    else if is f rate_limited
    then lit "rate_limited"
    else if is f too_large
    then lit "too_large"
    else if is f unavailable
    then lit "unavailable"
    else lit "upstream"
