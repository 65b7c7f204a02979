-- ===== src/Approvals/Discovery/Walk.antt =====
-- A client that follows the cursors of VisibleCategories.
use dingtalk_oa_attachment_b.Prelude.{
  ℕ, ◌+◌, ◌-◌, ◌*◌, ◌≤◌, ◌<◌, ◌≡◌, refl, sym, ◌∙◌, ap, true, false, List, [], ◌∷◌, ◌++◌, Text, eqb,
  length, leb, map, take, drop, text_eq, All, arith, inl, inr, Bool-cases, take-append-drop,
  take_all, drop-drop, map-append, length-drop,
}
use dingtalk_oa_attachment_b.Prelude.Int.{pos}
use dingtalk_oa_attachment_b.Domain.Errors.{Result, ok, err, ◌>>=◌}
use dingtalk_oa_attachment_b.Domain.Approval.{User}
use dingtalk_oa_attachment_b.Domain.Audit.{is_blank}
use dingtalk_oa_attachment_b.Domain.Search.{ApprovalCategory}
use dingtalk_oa_attachment_b.Approvals.Times.{second, unix, unix_epoch}
use dingtalk_oa_attachment_b.Approvals.Cursor.{issued, encode_category}
use dingtalk_oa_attachment_b.Approvals.Discovery.Resuming.{
  IsWithinHour, IsServed, cursor_query, position_at, resume-encode,
}
use dingtalk_oa_attachment_b.Approvals.Service.{Service, normalize_keyword}
use dingtalk_oa_attachment_b.Approvals.Discovery.{
  Category, CategoryDiscoveryQuery, CategoryDiscoveryResult, Position, matching, resume, next_state,
  page_end, page_to, page_from, categories_page, category_page_size, public_category,
}

eqb_refl : (n : ℕ) → eqb n n ≡ true
eqb_refl n = ground arith

module _ (service : Service) (user : User) (catalog : List ApprovalCategory) where
  abbrev pub walk_on :
      (CategoryDiscoveryQuery → Result (List Category))
      → CategoryDiscoveryResult
      → Result (List Category)
  walk_on next r = elim r.complete [
    | true ↦ ok r.categories
    | false ↦
        next (cursor_query service user catalog r.next_cursor) >>= λ rest. ok (r.categories ++ rest)
  ]

  unfoldable pub walk : List ℕ → CategoryDiscoveryQuery → Result (List Category)
  walk [] query = err []
  walk (now ∷ times) query =
      categories_page service user catalog now now query >>= walk_on (walk times)

  -- The list from an offset on, in two parts.
  two_parts :
      (offset : ℕ) (cs : List ApprovalCategory)
      → map public_category (take category_page_size (drop offset cs))
          ++ map public_category (drop (offset + category_page_size) cs)
        ≡ map public_category (drop offset cs)
  two_parts offset cs =
      sym (
        map-append public_category (take category_page_size (drop offset cs))
          (drop (offset + category_page_size) cs))
      ∙ ap (map public_category) (
          ap (λ rest. take category_page_size (drop offset cs) ++ rest)
            (sym (drop-drop category_page_size offset (offset + category_page_size) cs refl))
          ∙ take-append-drop category_page_size (drop offset cs))

  abbrev total_of : Text → ℕ
  total_of keyword = length (matching service user catalog keyword)

  abbrev listed_from : Text → ℕ → List Category
  listed_from keyword offset =
      map public_category (drop offset (matching service user catalog keyword))

  -- A page that reaches the end.
  last_page :
      (next : CategoryDiscoveryQuery → Result (List Category)) (now : ℕ) (p : Position)
      → p.offset ≤ total_of p.keyword
      → total_of p.keyword ≤ p.offset + category_page_size
      → (page_from service user catalog now p >>= walk_on next)
        ≡ ok (listed_from p.keyword p.offset)
  unfolding page_from page_to page_end
  last_page next now p inside near =
      let cs = matching service user catalog p.keyword in
      let ends : page_end p.offset (length cs) ≡ length cs = ground arith in
      let whole =
        take_all (length cs - p.offset) (drop p.offset cs)
          (omega (arith, length-drop p.offset cs)) in
      rw (ends, eqb_refl (length cs), whole) refl

  -- A page that does not.
  inner_page :
      (next : CategoryDiscoveryQuery → Result (List Category)) (now : ℕ) (p : Position) (raw : Text)
      (rest : List Category)
      → p.offset + category_page_size < total_of p.keyword
      → encode_category service.go service.base64 service.key service.category_json now
          (next_state service user catalog p.keyword (p.offset + category_page_size) p.issued_at)
        ≡ ok raw
      → next (cursor_query service user catalog raw) ≡ ok rest
      → (page_from service user catalog now p >>= walk_on next)
        ≡ ok (
            map public_category
              (take category_page_size (drop p.offset (matching service user catalog p.keyword)))
            ++ rest)
  unfolding page_from page_to page_end
  inner_page next now p raw rest far encoded e =
      let end = p.offset + category_page_size in
      let total = length (matching service user catalog p.keyword) in
      let ends : page_end p.offset total ≡ end = ground arith in
      let goes_on : eqb end total ≡ false = ground arith in
      let size : end - p.offset ≡ category_page_size = omega arith in
      rw (ends, goes_on, encoded, size, e) refl

  first_issue :
      (start now : ℕ) → unix_epoch * second + second ≤ start → issued now (unix start) ≡ unix start
  first_issue start now h = ground arith

  walk_resumed :
      (times : List ℕ) (t : ℕ) (query : CategoryDiscoveryQuery) (p : Position)
      (rest : List Category)
      → resume service user catalog t query ≡ ok p
      → (page_from service user catalog t p >>= walk_on (walk times)) ≡ ok rest
      → walk (t ∷ times) query ≡ ok rest
  unfolding walk categories_page
  walk_resumed times t query p rest read e = rw read e

  walk_from :
      (times : List ℕ) (start now : ℕ) (p : Position)
      → IsServed service user catalog p.keyword start
      → unix_epoch * second + second ≤ start
      → issued now p.issued_at ≡ unix start
      → p.offset ≤ total_of p.keyword
      → total_of p.keyword ≤ p.offset + 100 * length times + 100
      → All (IsWithinHour start) times
      → (page_from service user catalog now p >>= walk_on (walk times))
        ≡ ok (listed_from p.keyword p.offset)
  walk_from [] start now p v epoch first inside long soon =
      last_page (walk []) now p inside (omega arith)
  walk_from (t ∷ ts) start now p v epoch first inside long soon =
      elim (Bool-cases (leb (total_of p.keyword) (p.offset + category_page_size))) [
        | inl near ↦ last_page (walk (t ∷ ts)) now p inside (ground arith)
        | inr far ↦
            let end = p.offset + category_page_size in
            let more : end < total_of p.keyword = ground arith in
            let (raw, written, read) =
              resume-encode service user catalog p.keyword start now t end p.issued_at v
                (omega arith) soon.0 first (omega arith) in
            let p' = position_at service user catalog p.keyword end start in
            let rest =
              walk_from ts start t p' v epoch (first_issue start t epoch) (omega arith)
                (omega arith) soon.1 in
            inner_page (walk (t ∷ ts)) now p raw (listed_from p.keyword end) more written (
              walk_resumed ts t (cursor_query service user catalog raw) p'
                (listed_from p.keyword end) read rest)
            ∙ ap ok (two_parts p.offset (matching service user catalog p.keyword))
      ]

  -- A client that asks for the categories of a keyword and then follows the cursors gets every category
  -- of the catalog that matches the keyword, once and in the order of the catalog, and then stops: with
  -- a request for each hundred categories and one more at least, all within an hour less a second after
  -- the first, which is after 1970, if the catalog does not change meanwhile, the libraries do what is
  -- documented of them, the hashes are not empty and the cursors fit into 8 KB.
  pub walk-matching :
      (times : List ℕ) (start : ℕ) (query : CategoryDiscoveryQuery) (keyword : Text)
      → IsServed service user catalog keyword start
      → unix_epoch * second + second ≤ start
      → All (IsWithinHour start) times
      → is_blank query.cursor ≡ true
      → normalize_keyword query.keyword ≡ ok keyword
      → length (matching service user catalog keyword) ≤ 100 * length times + 100
      → walk (start ∷ times) query
        ≡ ok (map public_category (matching service user catalog keyword))
  unfolding resume
  walk-matching times start query keyword v epoch soon blank named long =
      let p : Position = record { keyword = keyword; offset = 0; issued_at = pos 0 } in
      let read : resume service user catalog start query ≡ ok p = rw (blank, named) refl in
      walk_resumed times start query p (listed_from keyword 0) read
        (walk_from times start start p v epoch refl (omega arith) (omega arith) soon)
