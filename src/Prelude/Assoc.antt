-- ===== src/Prelude/Assoc.antt =====
-- Go maps with text keys, as association lists.
use mathlib.Core.Path.{◌≡◌, refl}
use mathlib.Core.Logic.{◌≢◌}
use mathlib.Core.Bool.{Bool}
use mathlib.Core.Option.{Option, none, some}
use mathlib.Core.List.{List, [], ◌∷◌}
use Prim.Native.Nat.{◌+◌, ◌≤◌}
use native.Mathlib.Omega.{arith}
use dingtalk_oa_attachment_b.Prelude.Tests.{if◌then◌else◌}
use dingtalk_oa_attachment_b.Prelude.Lists.{length}
use dingtalk_oa_attachment_b.Prelude.Equality.{Text, ◌==◌, text_eq}

module _ {ℓ} {V : Type ℓ} where
  unfoldable pub lookup : Text → List (Text × V) → Option V
  lookup k [] = none
  lookup k ((i, found) ∷ rest) = if i == k then some found else lookup k rest

  -- `m[k] = v`
  unfoldable pub insert : Text → V → List (Text × V) → List (Text × V)
  insert k v [] = (k, v) ∷ []
  insert k v ((i, old) ∷ rest) = if i == k then (k, v) ∷ rest else (i, old) ∷ insert k v rest

  -- `delete(m, k)`
  unfoldable pub erase : Text → List (Text × V) → List (Text × V)
  erase k [] = []
  erase k ((j, w) ∷ m) = let rest = erase k m in if j == k then rest else (j, w) ∷ rest

  -- The loop that deletes the entries which pass a test.
  unfoldable pub delete_where : (Text → V → Bool) → List (Text × V) → List (Text × V)
  delete_where p [] = []
  delete_where p ((j, w) ∷ m) = let rest = delete_where p m in if p j w then rest else (j, w) ∷ rest

  abbrev pub NodupKeys : List (Text × V) → Type ℓ
  NodupKeys [] = Unit
  NodupKeys ((k, _) ∷ m) = (lookup k m ≡ none) × NodupKeys m

  pub lookup-insert :
      (k j : Text) (v : V) (table : List (Text × V))
      → lookup j (insert k v table) ≡ (if k == j then some v else lookup j table)
  unfolding insert lookup
  lookup-insert k j v [] = refl
  lookup-insert k j v ((i, old) ∷ rest) = ground (arith, lookup-insert k j v rest)

  pub lookup-erase :
      (k j : Text) (m : List (Text × V))
      → lookup j (erase k m) ≡ (if k == j then none else lookup j m)
  unfolding lookup erase
  lookup-erase k j [] = ground arith
  lookup-erase k j ((i, w) ∷ m) = ground (arith, lookup-erase k j m)

  abbrev pub unless : (Text → V → Bool) → Text → Option V → Option V
  unless p j none = none
  unless p j (some w) = if p j w then none else some w

  pub lookup-delete_where :
      (p : Text → V → Bool) (j : Text) (m : List (Text × V))
      → NodupKeys m
      → lookup j (delete_where p m) ≡ unless p j (lookup j m)
  unfolding lookup delete_where
  lookup-delete_where p j [] u = refl
  lookup-delete_where p j ((i, w) ∷ m) u = ground (arith, lookup-delete_where p j m u.1)

  pub insert-NodupKeys :
      (k : Text) (v : V) (m : List (Text × V)) → NodupKeys m → NodupKeys (insert k v m)
  unfolding insert lookup
  insert-NodupKeys k v [] u = (refl, tt)
  insert-NodupKeys k v ((j, w) ∷ m) u =
      ground (arith, insert-NodupKeys k v m u.1, lookup-insert k j v m)

  pub delete_where-NodupKeys :
      (p : Text → V → Bool) (m : List (Text × V)) → NodupKeys m → NodupKeys (delete_where p m)
  unfolding delete_where lookup
  delete_where-NodupKeys p [] u = tt
  delete_where-NodupKeys p ((j, w) ∷ m) u =
      ground (arith, delete_where-NodupKeys p m u.1, lookup-delete_where p j m u.1)

  pub erase-NodupKeys : (k : Text) (m : List (Text × V)) → NodupKeys m → NodupKeys (erase k m)
  unfolding erase lookup
  erase-NodupKeys k [] u = tt
  erase-NodupKeys k ((j, w) ∷ m) u = ground (arith, erase-NodupKeys k m u.1, lookup-erase k j m)

  pub length-insert :
      (k : Text) (v : V) (m : List (Text × V)) → length (insert k v m) ≤ length m + 1
  unfolding insert
  length-insert k v [] = omega arith
  length-insert k v ((j, w) ∷ m) = ground (arith, length-insert k v m)

  pub length-insert_present :
      (k : Text) (v : V) (m : List (Text × V))
      → lookup k m ≢ none
      → length (insert k v m) ≡ length m
  unfolding insert lookup
  length-insert_present k v [] h = absurd (h refl)
  length-insert_present k v ((j, w) ∷ m) h = ground (arith, length-insert_present k v m)

  pub length-delete_where :
      (p : Text → V → Bool) (m : List (Text × V)) → length (delete_where p m) ≤ length m
  unfolding delete_where
  length-delete_where p [] = omega arith
  length-delete_where p ((j, w) ∷ m) = ground (arith, length-delete_where p m)

  length-erase-le : (k : Text) (m : List (Text × V)) → length (erase k m) ≤ length m
  unfolding erase
  length-erase-le k [] = omega arith
  length-erase-le k ((j, w) ∷ m) = ground (arith, length-erase-le k m)

  pub length-erase_present :
      (k : Text) (m : List (Text × V)) → lookup k m ≢ none → length (erase k m) + 1 ≤ length m
  unfolding erase lookup
  length-erase_present k [] h = absurd (h refl)
  length-erase_present k ((j, w) ∷ m) h =
      ground (arith, length-erase-le k m, length-erase_present k m)
