-- ===== src/Approvals/Catalog/Order.antt =====
-- The order of a catalog.
use dingtalk_oa_attachment_b.Prelude.{
  ◌≡◌, refl, true, false, List, [], ◌∷◌, Text, text_eq, map, arith,
}
use dingtalk_oa_attachment_b.Prelude.Sorting.{IsAsymmetric}
use dingtalk_oa_attachment_b.Runes.{text_lt}
use dingtalk_oa_attachment_b.Domain.Search.{ApprovalCategory, ApprovalCategorySource}
use dingtalk_oa_attachment_b.Approvals.Catalog.{category_lt}

abbrev first_code : List ApprovalCategorySource → Text
first_code [] = []
first_code (s ∷ ss) = s.process_code

-- The process code of a category, which has one source.
abbrev pub code_of : ApprovalCategory → Text
code_of c = first_code c.sources

abbrev pub codes : List ApprovalCategory → List Text
codes cs = map code_of cs

pub text_lt_asymm : (s t : Text) → text_lt s t ≡ true → text_lt t s ≡ false
unfolding text_lt
text_lt_asymm [] [] h = ground arith
text_lt_asymm [] (b ∷ t) h = refl
text_lt_asymm (a ∷ s) [] h = ground arith
text_lt_asymm (a ∷ s) (b ∷ t) h = ground (arith, text_lt_asymm s t)

pub category_lt_asymm : IsAsymmetric category_lt
unfolding category_lt
category_lt_asymm a b h = ground (
  arith,
  text_lt_asymm a.directory_name b.directory_name,
  text_lt_asymm a.display_name b.display_name,
  text_lt_asymm a.id b.id,
)
