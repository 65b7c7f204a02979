-- ===== src/Prelude/Sorting.antt =====
-- Stable sorting by a test that says which of two comes first.
use Prim.Native.Nat.{suc}
use mathlib.Core.Path.{◌≡◌, refl, ◌∙◌}
use mathlib.Core.Logic.{inl, inr}
use mathlib.Core.Bool.{Bool, true, false, ◌||◌}
use mathlib.Core.List.{List, [], ◌∷◌, map}
use native.Mathlib.Omega.{arith}
use dingtalk_oa_attachment_b.Prelude.Tests.{if◌then◌else◌, Bool-cases}
use dingtalk_oa_attachment_b.Prelude.Lists.{length}
use dingtalk_oa_attachment_b.Prelude.Equality.{Text, ◌==◌, text_eq, contains}
use dingtalk_oa_attachment_b.Prelude.Predicates.{All}
use dingtalk_oa_attachment_b.Prelude.Distinct.{AreDistinct}

module _ {A : Type 0} (lt : A → A → Bool) where
  unfoldable pub put : A → List A → List A
  put c [] = c ∷ []
  put c (x ∷ xs) = let rest = put c xs in if lt x c then x ∷ rest else c ∷ x ∷ xs

  unfoldable pub sort_by : List A → List A
  sort_by [] = []
  sort_by (c ∷ cs) = put c (sort_by cs)

  -- None comes before the one in front of it.
  abbrev pub IsSorted : List A → Type 0
  IsSorted [] = Unit {0}
  IsSorted (x ∷ []) = Unit {0}
  IsSorted (x ∷ y ∷ ys) = (lt y x ≡ false) × IsSorted (y ∷ ys)

  abbrev pub IsAsymmetric : Type 0
  IsAsymmetric = (a b : A) → lt a b ≡ true → lt b a ≡ false

  -- The head of what `put` returns is the new one or the old head.
  put-IsSorted_after :
      (x c : A) (ys : List A)
      → lt c x ≡ false
      → IsSorted (x ∷ ys)
      → IsSorted (put c ys)
      → IsSorted (x ∷ put c ys)
  unfolding put
  put-IsSorted_after x c [] h s p = (h, tt)
  put-IsSorted_after x c (y ∷ ys) h s p = elim (Bool-cases (lt y c)) [
    | inl before ↦ let q = rw before at p in rw before (s.0, q)
    | inr after ↦ let q = rw after at p in rw after (h, q)
  ]

  tail_IsSorted : (y : A) (ys : List A) → IsSorted (y ∷ ys) → IsSorted ys
  tail_IsSorted y [] s = tt
  tail_IsSorted y (z ∷ zs) s = s.1

  put-IsSorted : (c : A) (xs : List A) → IsAsymmetric → IsSorted xs → IsSorted (put c xs)
  unfolding put
  put-IsSorted c [] asymm s = tt
  put-IsSorted c (x ∷ xs) asymm s = elim (Bool-cases (lt x c)) [
    | inl before ↦ rw before (
        put-IsSorted_after x c xs (asymm x c before) s
          (put-IsSorted c xs asymm (tail_IsSorted x xs s)))
    | inr after ↦ rw after (after, s)
  ]

  pub sort_by-IsSorted : (cs : List A) → IsAsymmetric → IsSorted (sort_by cs)
  unfolding sort_by
  sort_by-IsSorted [] asymm = tt
  sort_by-IsSorted (c ∷ cs) asymm = put-IsSorted c (sort_by cs) asymm (sort_by-IsSorted cs asymm)

  length-put : (c : A) (xs : List A) → length (put c xs) ≡ suc (length xs)
  unfolding put
  length-put c [] = refl
  length-put c (x ∷ xs) = ground (arith, length-put c xs)

  pub length-sort_by : (cs : List A) → length (sort_by cs) ≡ length cs
  unfolding sort_by
  length-sort_by [] = refl
  length-sort_by (c ∷ cs) = omega (arith, length-put c (sort_by cs), length-sort_by cs)

  module _ (f : A → Text) where
    contains-map-put :
        (c : A) (xs : List A) (a : Text)
        → contains (map f (put c xs)) a ≡ (f c == a || contains (map f xs) a)
    unfolding put
    contains-map-put c [] a = refl
    contains-map-put c (x ∷ xs) a = ground (arith, contains-map-put c xs a)

    pub contains-map-sort_by :
        (cs : List A) (a : Text) → contains (map f (sort_by cs)) a ≡ contains (map f cs) a
    unfolding sort_by
    contains-map-sort_by [] a = refl
    contains-map-sort_by (c ∷ cs) a =
        ground (arith, contains-map-put c (sort_by cs) a, contains-map-sort_by cs a)

    put-AreDistinct :
        (c : A) (xs : List A)
        → contains (map f xs) (f c) ≡ false
        → AreDistinct (map f xs)
        → AreDistinct (map f (put c xs))
    unfolding put
    put-AreDistinct c [] h d = (refl, tt)
    put-AreDistinct c (x ∷ xs) h d = elim (Bool-cases (lt x c)) [
      | inl before ↦ rw before (
        ground (arith, d.0, contains-map-put c xs (f x)),
        put-AreDistinct c xs (ground arith) d.1,
      )
      | inr after ↦ rw after (h, d)
    ]

    pub sort_by-AreDistinct :
        (cs : List A) → AreDistinct (map f cs) → AreDistinct (map f (sort_by cs))
    unfolding sort_by
    sort_by-AreDistinct [] d = tt
    sort_by-AreDistinct (c ∷ cs) d =
        put-AreDistinct c (sort_by cs) (contains-map-sort_by cs (f c) ∙ d.0)
          (sort_by-AreDistinct cs d.1)

  module _ (P : A → Type 0) where
    All-put : (c : A) (xs : List A) → P c → All P xs → All P (put c xs)
    unfolding put
    All-put c [] p h = (p, tt)
    All-put c (x ∷ xs) p h = elim (Bool-cases (lt x c)) [
      | inl before ↦ rw before (h.0, All-put c xs p h.1)
      | inr after ↦ rw after (p, h)
    ]

    pub All-sort_by : (cs : List A) → All P cs → All P (sort_by cs)
    unfolding sort_by
    All-sort_by [] h = tt
    All-sort_by (c ∷ cs) h = All-put c (sort_by cs) h.0 (All-sort_by cs h.1)
