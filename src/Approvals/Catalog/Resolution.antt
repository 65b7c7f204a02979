-- ===== src/Approvals/Catalog/Resolution.antt =====
-- The ID that a user has for a category finds it again.
use dingtalk_oa_attachment_b.Prelude.{
  ◌≡◌, refl, sym, ◌∙◌, ap, true, false, List, [], ◌∷◌, some, Text, text_eq, contains, All, All-In,
  In, AreDistinct, arith, inl, inr,
}
use dingtalk_oa_attachment_b.Domain.Errors.{Result, ok}
use dingtalk_oa_attachment_b.Domain.Approval.{User}
use dingtalk_oa_attachment_b.Domain.Search.{
  ApprovalCategory, VisibleApprovalTemplateQuery, VisibleApprovalTemplatePage,
}
use dingtalk_oa_attachment_b.Approvals.Library.{Library, Bytes, category_id}
use dingtalk_oa_attachment_b.Approvals.Catalog.{fetch_visible_catalog, resolve_visible_category}
use dingtalk_oa_attachment_b.Approvals.Catalog.Order.{code_of, codes}
use dingtalk_oa_attachment_b.Approvals.Catalog.Fetching.{IsOffered, fetch_visible_catalog-IsCatalog}

contains-codes :
    (c : ApprovalCategory) (cs : List ApprovalCategory)
    → In c cs
    → contains (codes cs) (code_of c) ≡ true
contains-codes c [] h = absurd h
contains-codes c (x ∷ xs) (inl e) = ground (arith, ap code_of e)
contains-codes c (x ∷ xs) (inr h) = ground (arith, contains-codes c xs h)

module _ (go : Library) (key : Bytes) (user : User) where
  -- No two of the process codes have the same ID.
  abbrev pub HasOwnIds : List Text → Type 0
  HasOwnIds ks =
      (a b : Text)
      → contains ks a ≡ true
      → contains ks b ≡ true
      → category_id go key user a ≡ category_id go key user b
      → a ≡ b

  -- The category found first is the one with the ID.
  distinct_ids :
      (ks : List Text) (x c : ApprovalCategory) (xs : List ApprovalCategory)
      → HasOwnIds ks
      → contains ks (code_of x) ≡ true
      → contains ks (code_of c) ≡ true
      → contains (codes xs) (code_of x) ≡ false
      → IsOffered go key user x
      → IsOffered go key user c
      → In c xs
      → x.id ≡ c.id
      → ⊥
  distinct_ids ks x c xs own kx kc fresh vx vc h e =
      let same : code_of x ≡ code_of c =
        own (code_of x) (code_of c) kx kc (sym vx.own_id ∙ (e ∙ vc.own_id)) in
      ground (arith, contains-codes c xs h, same)

  resolve-In :
      (ks : List Text) (cs : List ApprovalCategory) (c : ApprovalCategory)
      → HasOwnIds ks
      → ((x : ApprovalCategory) → In x cs → contains ks (code_of x) ≡ true)
      → AreDistinct (codes cs)
      → All (IsOffered go key user) cs
      → In c cs
      → resolve_visible_category cs c.id ≡ some c
  unfolding resolve_visible_category
  resolve-In ks [] c own k d v h = absurd h
  resolve-In ks (x ∷ xs) c own k d v (inl e) = ground (arith, e, ap (λ y. y.id) e)
  resolve-In ks (x ∷ xs) c own k d v (inr h) = ground (
    arith,
    distinct_ids ks x c xs own (k x (inl refl)) (k c (inr h)) d.0 v.0
        (All-In (IsOffered go key user) c xs v.1 h) h,
    resolve-In ks xs c own (λ y i. k y (inr i)) d.1 v.1 h,
  )

  -- In a catalog that fetchVisibleCatalog returned, looking up the ID of a category finds this very
  -- category, if no two process codes of this catalog have the same ID for the user.
  pub resolve-fetch :
      (list_templates : VisibleApprovalTemplateQuery → Result VisibleApprovalTemplatePage)
      (cs : List ApprovalCategory) (c : ApprovalCategory)
      → HasOwnIds (codes cs)
      → fetch_visible_catalog go key user list_templates ≡ ok cs
      → In c cs
      → resolve_visible_category cs c.id ≡ some c
  resolve-fetch list_templates cs c own e h =
      let catalog = fetch_visible_catalog-IsCatalog go key user list_templates cs e in
      resolve-In (codes cs) cs c own (λ x i. contains-codes x cs i) catalog.1 catalog.3 h
