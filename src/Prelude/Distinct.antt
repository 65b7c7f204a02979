-- ===== src/Prelude/Distinct.antt =====
-- Lists of texts in which nothing stands twice.
use mathlib.Core.Path.{◌≡◌, refl}
use mathlib.Core.Bool.{false, ◌||◌}
use mathlib.Core.List.{List, [], ◌∷◌, ◌++◌, map}
use native.Mathlib.Omega.{arith}
use dingtalk_oa_attachment_b.Prelude.Equality.{Text, text_eq, contains}

abbrev pub AreDistinct : List Text → Type 0
AreDistinct [] = Unit {0}
AreDistinct (x ∷ xs) = (contains xs x ≡ false) × AreDistinct xs

pub contains-append :
    (xs ys : List Text) (a : Text) → contains (xs ++ ys) a ≡ (contains xs a || contains ys a)
contains-append [] ys a = refl
contains-append (x ∷ xs) ys a = ground (arith, contains-append xs ys a)

module _ {A : Type 0} (f : A → Text) where
  pub contains-map-append :
      (xs ys : List A) (a : Text)
      → contains (map f (xs ++ ys)) a ≡ (contains (map f xs) a || contains (map f ys) a)
  contains-map-append [] ys a = refl
  contains-map-append (x ∷ xs) ys a = ground (arith, contains-map-append xs ys a)

  pub AreDistinct-append :
      (xs : List A) (y : A)
      → AreDistinct (map f xs)
      → contains (map f xs) (f y) ≡ false
      → AreDistinct (map f (xs ++ y ∷ []))
  AreDistinct-append [] y d h = (refl, tt)
  AreDistinct-append (x ∷ xs) y d h = (
    ground (arith, d.0, contains-map-append xs (y ∷ []) (f x)),
    AreDistinct-append xs y d.1 (ground arith),
  )
