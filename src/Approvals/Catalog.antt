-- ===== src/Approvals/Catalog.antt =====
-- internal/approvals/catalog.go: the categories that a user may choose from.
pub mod Fetching
pub mod Order
pub mod Resolution
pub mod Cache
use dingtalk_oa_attachment_b.Prelude.{
  ℕ, zero, suc, ◌+◌, Bool, true, false, ◌&&◌, ◌||◌, List, [], ◌∷◌, ◌++◌, Option, none, some, Text,
  ◌==◌, text_eq, contains, eqb, ltb, length, keep, is_empty, if◌then◌else◌,
}
use dingtalk_oa_attachment_b.Prelude.Int.{ℤ, pos, leb_int}
use dingtalk_oa_attachment_b.Prelude.Sorting.{sort_by}
use dingtalk_oa_attachment_b.Runes.{byte_len, trim_space, contains_text, text_lt}
use dingtalk_oa_attachment_b.Domain.Errors.{Result, ok, err, ◌>>=◌, ◌>>◌, refuse_if, only, upstream}
use dingtalk_oa_attachment_b.Domain.Approval.{User}
use dingtalk_oa_attachment_b.Domain.Search.{
  ApprovalCategory, VisibleApprovalTemplate, VisibleApprovalTemplateQuery,
  VisibleApprovalTemplatePage,
}
use dingtalk_oa_attachment_b.Approvals.Library.{Library, Bytes, category_id}

abbrev pub visible_template_page_size : ℕ
visible_template_page_size = 100

abbrev pub max_visible_template_pages : ℕ
max_visible_template_pages = 100

abbrev pub max_visible_templates : ℕ
max_visible_templates = 5000

-- The variables of fetchVisibleCatalog: `seenProcessCodes` and `categories`.
pub record Fetched : Type 0 where
  pub seen : List Text
  pub categories : List ApprovalCategory

-- The texts of a template that has passed the checks, with the spaces around them gone.
unfoldable pub is_invalid_template : Text → Text → Text → Bool
is_invalid_template process_code name directory_name =
    is_empty process_code
    || ltb 256 (byte_len process_code)
    || is_empty name
    || ltb 512 (byte_len name)
    || ltb 512 (byte_len directory_name)

-- The order of sort.Slice.
unfoldable pub category_lt : ApprovalCategory → ApprovalCategory → Bool
category_lt a b =
    if a.directory_name == b.directory_name
    then if a.display_name == b.display_name
      then text_lt a.id b.id
      else text_lt a.display_name b.display_name
    else text_lt a.directory_name b.directory_name

-- sortVisibleCategories. Go's sort.Slice need not be stable; two categories of a catalog that neither
-- precedes the other have the same texts.
unfoldable pub sort_visible_categories : List ApprovalCategory → List ApprovalCategory
sort_visible_categories categories = sort_by category_lt categories

module _ (go : Library) (key : Bytes) (user : User) where
  unfoldable pub new_category : Text → Text → Text → ApprovalCategory
  new_category process_code name directory_name = record {
    id = category_id go key user process_code;
    display_name = name;
    directory_name = directory_name;
    description = [];
    sources = record { process_code = process_code } ∷ [];
  }

  -- A category that is not in the map yet.
  unfoldable pub add_category : Fetched → Text → Text → Text → Fetched
  add_category f process_code name directory_name =
      if contains f.seen process_code then f else record {
        seen = process_code ∷ f.seen;
        categories = f.categories ++ new_category process_code name directory_name ∷ [];
      }

  -- One template of a page.
  unfoldable pub add_template : Fetched → VisibleApprovalTemplate → Result Fetched
  add_template f template =
      let process_code = trim_space template.process_code in
      let name = trim_space template.name in
      let directory_name = trim_space template.directory_name in
      refuse_if (is_invalid_template process_code name directory_name) (only upstream)
      >> ok (add_category f process_code name directory_name)

  -- The loop over the templates of a page.
  unfoldable pub add_templates : Fetched → List VisibleApprovalTemplate → Result Fetched
  add_templates f [] = ok f
  add_templates f (t ∷ ts) = add_template f t >>= λ f'. add_templates f' ts

  -- What follows a page: the sorted catalog, or the next page, which `next` asks for.
  abbrev pub after_page :
      (ℤ → Fetched → Result (List ApprovalCategory))
      → ℤ
      → Fetched
      → Option ℤ
      → Result (List ApprovalCategory)
  after_page next next_token f none = ok (sort_visible_categories f.categories)
  after_page next next_token f (some token) =
      refuse_if (leb_int token next_token) (only upstream) >> next token f

  module _
      (list_templates : VisibleApprovalTemplateQuery → Result VisibleApprovalTemplatePage) where
    abbrev pub templates_query : ℤ → VisibleApprovalTemplateQuery
    templates_query next_token = record {
      user_id = user.user_id;
      next_token = next_token;
      max_results = visible_template_page_size;
    }

    abbrev pub is_too_large : Fetched → VisibleApprovalTemplatePage → Bool
    is_too_large f page =
        ltb visible_template_page_size (length page.templates)
        || ltb max_visible_templates (length f.categories + length page.templates)

    -- The loop over the pages, with the number of pages it may still ask for. The tokens increase, so
    -- no query is made twice.
    unfoldable pub fetch_pages : ℕ → ℤ → Fetched → Result (List ApprovalCategory)
    fetch_pages zero next_token f = err (only upstream)
    fetch_pages (suc pages) next_token f = list_templates (templates_query next_token) >>= λ page.
        refuse_if (is_too_large f page) (only upstream)
        >> (add_templates f page.templates >>= λ f'.
            after_page (fetch_pages pages) next_token f' page.next_token)

    -- fetchVisibleCatalog
    unfoldable pub fetch_visible_catalog : Result (List ApprovalCategory)
    fetch_visible_catalog =
        fetch_pages max_visible_template_pages (pos 0) (record { seen = []; categories = [] })

-- resolveVisibleCategory
unfoldable pub resolve_visible_category : List ApprovalCategory → Text → Option ApprovalCategory
resolve_visible_category [] category_id = none
resolve_visible_category (c ∷ cs) category_id =
    if eqb (byte_len c.id) (byte_len category_id) && c.id == category_id
    then some c
    else resolve_visible_category cs category_id

-- visibleCategoriesMatchingKeyword
unfoldable pub visible_categories_matching_keyword :
    Library → List ApprovalCategory → Text → List ApprovalCategory
visible_categories_matching_keyword go categories keyword =
    if is_empty keyword
    then categories
    else let needle = go.to_lower keyword in
      keep
        (λ c.
          contains_text (go.to_lower c.id) needle
          || contains_text (go.to_lower c.display_name) needle
          || contains_text (go.to_lower c.directory_name) needle
          || contains_text (go.to_lower c.description) needle)
        categories
