-- ===== src/Postgres/Tables/Statements.antt =====
-- SELECT, UPDATE and DELETE with a WHERE clause, on a table that is the list of its rows, and on one
-- whose rows stand under their primary key.
use dingtalk_oa_attachment_b.Prelude.{
  ℕ, ◌+◌, ◌≡◌, refl, ap, ◌∙◌, Bool, true, List, [], ◌∷◌, ◌++◌, Option, none, some, Text, text_eq,
  arith, if◌then◌else◌,
}
use dingtalk_oa_attachment_b.Prelude.Assoc.{lookup, NodupKeys}

module _ {ℓ} {A : Type ℓ} where
  unfoldable pub select : (A → Bool) → List A → Option A
  select p [] = none
  select p (x ∷ xs) = if p x then some x else select p xs

  unfoldable pub update : (A → Bool) → (A → A) → List A → List A
  update p f [] = []
  update p f (x ∷ xs) = (if p x then f x else x) ∷ update p f xs

  -- RowsAffected
  unfoldable pub count : (A → Bool) → List A → ℕ
  count p [] = 0
  count p (x ∷ xs) = (if p x then 1 else 0) + count p xs

  unfoldable pub delete : (A → Bool) → List A → List A
  delete p [] = []
  delete p (x ∷ xs) = let rest = delete p xs in if p x then rest else x ∷ rest

  pub select_sound : (p : A → Bool) (xs : List A) (a : A) → select p xs ≡ some a → p a ≡ true
  unfolding select
  select_sound p [] a e = ground arith
  select_sound p (x ∷ xs) a e = ground (arith, select_sound p xs a)

  pub select-append :
      (p : A → Bool) (xs : List A) (a : A)
      → select p xs ≡ none
      → p a ≡ true
      → select p (xs ++ a ∷ []) ≡ some a
  unfolding select
  select-append p [] a e h = rw h
  select-append p (x ∷ xs) a e h = ground (arith, select-append p xs a)

module _ {ℓ} {V : Type ℓ} where
  unfoldable pub select_row : (V → Bool) → List (Text × V) → Option (Text × V)
  select_row p [] = none
  select_row p ((k, v) ∷ m) = if p v then some (k, v) else select_row p m

  unfoldable pub update_rows : (V → Bool) → (V → V) → List (Text × V) → List (Text × V)
  update_rows p f [] = []
  update_rows p f ((k, v) ∷ m) = (k, if p v then f v else v) ∷ update_rows p f m

  unfoldable pub count_rows : (V → Bool) → List (Text × V) → ℕ
  count_rows p [] = 0
  count_rows p ((k, v) ∷ m) = (if p v then 1 else 0) + count_rows p m

  abbrev pub changed : (V → Bool) → (V → V) → Option V → Option V
  changed p f none = none
  changed p f (some v) = some (if p v then f v else v)

  pub lookup-update_rows :
      (p : V → Bool) (f : V → V) (j : Text) (m : List (Text × V))
      → lookup j (update_rows p f m) ≡ changed p f (lookup j m)
  unfolding lookup update_rows
  lookup-update_rows p f j [] = refl
  lookup-update_rows p f j ((k, v) ∷ m) = ground (arith, lookup-update_rows p f j m)

  pub update_rows-NodupKeys :
      (p : V → Bool) (f : V → V) (m : List (Text × V)) → NodupKeys m → NodupKeys (update_rows p f m)
  unfolding update_rows
  update_rows-NodupKeys p f [] u = tt
  update_rows-NodupKeys p f ((k, v) ∷ m) u =
      (lookup-update_rows p f k m ∙ ap (changed p f) u.0, update_rows-NodupKeys p f m u.1)

  pub select_row_sound :
      (p : V → Bool) (m : List (Text × V)) (k : Text) (v : V)
      → select_row p m ≡ some (k, v)
      → p v ≡ true
  unfolding select_row
  select_row_sound p [] k v e = ground arith
  select_row_sound p ((j, w) ∷ m) k v e = ground (arith, select_row_sound p m k v)

  pub select_row-lookup :
      (p : V → Bool) (m : List (Text × V)) (k : Text) (v : V)
      → NodupKeys m
      → select_row p m ≡ some (k, v)
      → lookup k m ≡ some v
  unfolding select_row lookup
  select_row-lookup p [] k v u e = ground arith
  select_row-lookup p ((j, w) ∷ m) k v u e = ground (arith, select_row-lookup p m k v u.1)
