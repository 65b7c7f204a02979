-- ===== src/Approvals/Authorization/Results.antt =====
-- The results that the goroutines of authorizeCandidates write, each at its own index.
use dingtalk_oa_attachment_b.Prelude.{
  ℕ, zero, suc, ◌≡◌, ◌≢◌, refl, ap, List, [], ◌∷◌, ◌++◌, Option, none, some, map, arith,
}
use dingtalk_oa_attachment_b.Domain.Errors.{Fault, ok, err}
use dingtalk_oa_attachment_b.Approvals.Candidates.{Candidate}
use dingtalk_oa_attachment_b.Approvals.Authorization.{
  Item, Outcome, Group, finish_one, first_of, set_at, nth,
}

abbrev pub placed : ℕ → Option Item → List (Option Item) → List (Option Item)
placed n none os = os
placed n (some item) os = set_at n item os

pub finish_one_ok :
    (n : ℕ) (g : Group) (one : Outcome)
    → (finish_one n g one).failed ≡ none
    → (o : Option Item) × (one.0 ≡ ok o)
      × (g.failed ≡ none)
      × ((finish_one n g one).results ≡ placed n o g.results)
      × ((finish_one n g one).audits ≡ g.audits ++ one.1)
unfolding finish_one
finish_one_ok n g (err f, events) h = absurd (first_of_some g.failed f h)
  where
    first_of_some : (o : Option Fault) (f : Fault) → first_of o f ≡ none → ⊥
    first_of_some none f h = ground arith
    first_of_some (some x) f h = ground arith
finish_one_ok n g (ok none, events) h = (none, refl, h, refl, refl)
finish_one_ok n g (ok (some item), events) h = (some item, refl, h, refl, refl)

pub nth-set_at_other :
    (j n : ℕ) (item : Item) (os : List (Option Item)) → j ≢ n → nth j (set_at n item os) ≡ nth j os
nth-set_at_other j n item [] h = ground arith
nth-set_at_other zero zero item (x ∷ xs) h = absurd (h refl)
nth-set_at_other zero (suc n) item (x ∷ xs) h = refl
nth-set_at_other (suc j) zero item (x ∷ xs) h = refl
nth-set_at_other (suc j) (suc n) item (x ∷ xs) h = nth-set_at_other j n item xs (λ e. h (ap suc e))

pub nth-set_at_same :
    (n : ℕ) (item : Item) (os : List (Option Item))
    → nth n os ≢ none
    → nth n (set_at n item os) ≡ some (some item)
nth-set_at_same n item [] h = absurd (h (ground arith))
nth-set_at_same zero item (x ∷ xs) h = refl
nth-set_at_same (suc n) item (x ∷ xs) h = nth-set_at_same n item xs h

pub nth_ext : (xs ys : List (Option Item)) → ((n : ℕ) → nth n xs ≡ nth n ys) → xs ≡ ys
nth_ext [] [] h = refl
nth_ext [] (y ∷ ys) h = ground (arith, h 0)
nth_ext (x ∷ xs) [] h = ground (arith, h 0)
nth_ext (x ∷ xs) (y ∷ ys) h = cc (some_inj (h 0), nth_ext xs ys (λ n. h (suc n)))
  where
    some_inj : {A : Type 0} {a b : A} → some a ≡ some b → a ≡ b
    some_inj e = cc

pub nth-map :
    (f : Candidate → Option Item) (n : ℕ) (cs : List Candidate) (c : Candidate)
    → nth n cs ≡ some c
    → nth n (map f cs) ≡ some (f c)
nth-map f n [] c h = ground arith
nth-map f zero (x ∷ xs) c h = ground arith
nth-map f (suc n) (x ∷ xs) c h = nth-map f n xs c h

pub nth-map-none :
    (f : Candidate → Option Item) (n : ℕ) (cs : List Candidate)
    → nth n cs ≡ none
    → nth n (map f cs) ≡ none
nth-map-none f n [] h = refl
nth-map-none f zero (x ∷ xs) h = ground arith
nth-map-none f (suc n) (x ∷ xs) h = nth-map-none f n xs h
