-- ===== src/Approvals/Catalog/Fetching.antt =====
-- What fetchVisibleCatalog returns.
use dingtalk_oa_attachment_b.Prelude.{
  ℕ, zero, suc, ◌+◌, ◌≤◌, ◌≡◌, refl, sym, ◌∙◌, subst, false, List, [], ◌∷◌, ◌++◌, Option, none,
  some, Text, text_eq, contains, map, length, length-append, All, All-append, AreDistinct,
  AreDistinct-append, contains-map-append, arith, inl, inr, Bool-cases,
}
use mathlib.Core.List.{append-nil, append_assoc}
use dingtalk_oa_attachment_b.Prelude.Sorting.{
  IsSorted, sort_by-IsSorted, length-sort_by, contains-map-sort_by, sort_by-AreDistinct,
  All-sort_by,
}
use dingtalk_oa_attachment_b.Prelude.Int.{ℤ, pos, leb_int}
use dingtalk_oa_attachment_b.Runes.{trim_space}
use dingtalk_oa_attachment_b.Domain.Errors.{Result, ok, err, only, upstream}
use dingtalk_oa_attachment_b.Domain.Errors.Inversion.{bind_ok, refuse_ok, ok_inj}
use dingtalk_oa_attachment_b.Domain.Approval.{User}
use dingtalk_oa_attachment_b.Domain.Search.{
  ApprovalCategory, VisibleApprovalTemplate, VisibleApprovalTemplateQuery,
  VisibleApprovalTemplatePage,
}
use dingtalk_oa_attachment_b.Approvals.Library.{Library, Bytes, category_id}
use dingtalk_oa_attachment_b.Approvals.Catalog.{
  Fetched, is_invalid_template, add_category, category_lt, sort_visible_categories, new_category,
  add_template, add_templates, after_page, templates_query, is_too_large, fetch_pages,
  fetch_visible_catalog, max_visible_templates, max_visible_template_pages,
}
use dingtalk_oa_attachment_b.Approvals.Catalog.Order.{code_of, codes, category_lt_asymm}

abbrev pub offered_code : VisibleApprovalTemplate → Text
offered_code t = trim_space t.process_code

module _ (go : Library) (key : Bytes) (user : User) where
  -- A category that the checks let through, with the ID that this user has for it.
  pub record IsOffered (c : ApprovalCategory) : Type 0 where
    pub own_id : c.id ≡ category_id go key user (code_of c)
    pub one_source : length c.sources ≡ 1
    pub valid : is_invalid_template (code_of c) c.display_name c.directory_name ≡ false

  -- What the loops keep of their variables, after the templates so far.
  record IsFetched (before : List VisibleApprovalTemplate) (f : Fetched) : Type 0 where
    offered : All IsOffered f.categories
    distinct : AreDistinct (codes f.categories)
    seen_all : (a : Text) → contains f.seen a ≡ contains (codes f.categories) a
    complete : (a : Text) → contains (codes f.categories) a ≡ contains (map offered_code before) a

  -- The same, with a bound on the number of categories.
  abbrev Extends : List VisibleApprovalTemplate → ℕ → Fetched → Type 0
  Extends before n f = IsFetched before f × (length f.categories ≤ n)

  add_category-Extends :
      (before : List VisibleApprovalTemplate) (f : Fetched) (t : VisibleApprovalTemplate)
      (name directory_name : Text)
      → is_invalid_template (offered_code t) name directory_name ≡ false
      → IsFetched before f
      → Extends
          (before ++ t ∷ [])
          (length f.categories + 1)
          (add_category go key user f (offered_code t) name directory_name)
  unfolding add_category new_category
  add_category-Extends before f t name directory_name good v =
      elim (Bool-cases (contains f.seen (offered_code t))) [
        | inl old ↦ rw old (
          record {
            offered = v.offered;
            distinct = v.distinct;
            seen_all = v.seen_all;
            complete = λ a. ground (
              arith,
              v.complete a,
              v.seen_all (offered_code t),
              contains-map-append offered_code before (t ∷ []) a,
            );
          },
          omega arith,
        )
        | inr new ↦
            let c = new_category go key user (offered_code t) name directory_name in
            rw new (
              record {
                offered =
                    All-append IsOffered f.categories _ v.offered
                      (record { own_id = refl; one_source = refl; valid = good }, tt);
                distinct =
                    AreDistinct-append code_of f.categories c v.distinct
                      (sym (v.seen_all (offered_code t)) ∙ new);
                seen_all = λ a.
                    ground
                      (arith, v.seen_all a, contains-map-append code_of f.categories (c ∷ []) a);
                complete = λ a. ground (
                  arith,
                  v.complete a,
                  contains-map-append code_of f.categories (c ∷ []) a,
                  contains-map-append offered_code before (t ∷ []) a,
                );
              },
              omega (arith, length-append f.categories (c ∷ [])),
            )
      ]

  add_template-Extends :
      (before : List VisibleApprovalTemplate) (f f' : Fetched) (t : VisibleApprovalTemplate)
      → add_template go key user f t ≡ ok f'
      → IsFetched before f
      → Extends (before ++ t ∷ []) (length f.categories + 1) f'
  unfolding add_template
  add_template-Extends before f f' t e v =
      let (good, done) =
        refuse_ok
          (is_invalid_template (trim_space t.process_code) (trim_space t.name)
            (trim_space t.directory_name))
          (only upstream) _ e in
      subst (Extends (before ++ t ∷ []) (length f.categories + 1)) (ok_inj done)
        (add_category-Extends before f t (trim_space t.name) (trim_space t.directory_name) good v)

  add_templates-Extends :
      (before : List VisibleApprovalTemplate) (f f' : Fetched) (ts : List VisibleApprovalTemplate)
      → add_templates go key user f ts ≡ ok f'
      → IsFetched before f
      → Extends (before ++ ts) (length f.categories + length ts) f'
  unfolding add_templates
  add_templates-Extends before f f' [] e v =
      subst (λ ts. Extends ts (length f.categories + 0) f') (sym (append-nil before))
        (subst (Extends before (length f.categories + 0)) (ok_inj e) (v, omega arith))
  add_templates-Extends before f f' (t ∷ ts) e v =
      let (g, first, rest) = bind_ok (add_template go key user f t) _ e in
      let one = add_template-Extends before f g t first v in
      let more = add_templates-Extends (before ++ t ∷ []) g f' ts rest one.0 in
      (
        subst (λ xs. IsFetched xs f') (append_assoc before (t ∷ []) ts) more.0,
        omega (arith, one.1, more.1),
      )

  abbrev IsCatalog : List VisibleApprovalTemplate → List ApprovalCategory → Type 0
  IsCatalog ts cs =
      IsSorted category_lt cs
      × AreDistinct (codes cs)
      × (length cs ≤ max_visible_templates)
      × All IsOffered cs
      × ((a : Text) → contains (codes cs) a ≡ contains (map offered_code ts) a)

  sorted-IsCatalog :
      (ts : List VisibleApprovalTemplate) (f : Fetched)
      → Extends ts max_visible_templates f
      → IsCatalog ts (sort_visible_categories f.categories)
  unfolding sort_visible_categories
  sorted-IsCatalog ts f v = (
    sort_by-IsSorted category_lt f.categories category_lt_asymm,
    sort_by-AreDistinct category_lt code_of f.categories v.0.distinct,
    omega (arith, length-sort_by category_lt f.categories, v.1),
    All-sort_by category_lt IsOffered f.categories v.0.offered,
    λ a. contains-map-sort_by category_lt code_of f.categories a ∙ v.0.complete a,
  )

  module _
      (list_templates : VisibleApprovalTemplateQuery → Result VisibleApprovalTemplatePage) where
    abbrev listed_after :
        (ℤ → List VisibleApprovalTemplate) → Option ℤ → List VisibleApprovalTemplate
    listed_after next none = []
    listed_after next (some token) = next token

    abbrev listed_page :
        (ℤ → List VisibleApprovalTemplate)
        → Result VisibleApprovalTemplatePage
        → List VisibleApprovalTemplate
    listed_page next (err f) = []
    listed_page next (ok page) = page.templates ++ listed_after next page.next_token

    -- The templates that the provider lists, page after page, at most this many.
    abbrev pub listed : ℕ → ℤ → List VisibleApprovalTemplate
    listed zero next_token = []
    listed (suc pages) next_token =
        listed_page (listed pages)
          (list_templates (templates_query go key user list_templates next_token))

    after_page-IsCatalog :
        (next : ℤ → Fetched → Result (List ApprovalCategory))
        (rest : ℤ → List VisibleApprovalTemplate) (token : ℤ) (o : Option ℤ) (f : Fetched)
        (ts : List VisibleApprovalTemplate) (cs : List ApprovalCategory)
        → ((t : ℤ) → next t f ≡ ok cs → IsCatalog (ts ++ rest t) cs)
        → Extends ts max_visible_templates f
        → after_page go key user next token f o ≡ ok cs
        → IsCatalog (ts ++ listed_after rest o) cs
    after_page-IsCatalog next rest token none f ts cs h v e =
        subst (λ xs. IsCatalog xs cs) (sym (append-nil ts))
          (subst (IsCatalog ts) (ok_inj e) (sorted-IsCatalog ts f v))
    after_page-IsCatalog next rest token (some t) f ts cs h v e =
        h t (refuse_ok (leb_int t token) (only upstream) _ e).1

    fetch_pages-IsCatalog :
        (pages : ℕ) (token : ℤ) (f : Fetched) (before : List VisibleApprovalTemplate)
        (cs : List ApprovalCategory)
        → fetch_pages go key user list_templates pages token f ≡ ok cs
        → IsFetched before f
        → IsCatalog (before ++ listed pages token) cs
    unfolding fetch_pages
    fetch_pages-IsCatalog zero token f before cs e v = ground arith
    fetch_pages-IsCatalog (suc pages) token f before cs e v =
        let (page, answered, e1) =
          bind_ok (list_templates (templates_query go key user list_templates token)) _ e in
        let (small, e2) =
          refuse_ok (is_too_large go key user list_templates f page) (only upstream) _ e1 in
        let (g, added, e3) = bind_ok (add_templates go key user f page.templates) _ e2 in
        let more = add_templates-Extends before f g page.templates added v in
        let rest =
          after_page-IsCatalog (fetch_pages go key user list_templates pages) (listed pages) token
            page.next_token g (before ++ page.templates) cs
            (λ t e. fetch_pages-IsCatalog pages t g (before ++ page.templates) cs e more.0)
            (more.0, ground arith) e3 in
        subst (λ r. IsCatalog (before ++ listed_page (listed pages) r) cs) (sym answered)
          (subst (λ ts. IsCatalog ts cs) (append_assoc before page.templates _) rest)

    -- When fetchVisibleCatalog returns a catalog, it is sorted, has at most 5000 categories and no
    -- process code twice, each category has one source, has passed the checks on its texts and has the
    -- ID of its process code for this user, and its process codes are exactly those of the templates
    -- that the provider lists on the pages up to the last one: for every answer of the provider.
    pub fetch_visible_catalog-IsCatalog :
        (cs : List ApprovalCategory)
        → fetch_visible_catalog go key user list_templates ≡ ok cs
        → IsCatalog (listed max_visible_template_pages (pos 0)) cs
    unfolding fetch_visible_catalog
    fetch_visible_catalog-IsCatalog cs e =
        fetch_pages-IsCatalog max_visible_template_pages (pos 0)
          (record { seen = []; categories = [] }) [] cs e
          (record { offered = tt; distinct = tt; seen_all = λ a. refl; complete = λ a. refl })
