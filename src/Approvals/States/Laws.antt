-- ===== src/Approvals/States/Laws.antt =====
-- The state that a search goes on from.
use dingtalk_oa_attachment_b.Prelude.{
  ℕ, ◌≡◌, refl, subst, ◌||◌, not, List, [], ◌∷◌, Text, length, map, ◌==◌, text_eq, arith, inl, inr,
  Bool-cases,
}
use dingtalk_oa_attachment_b.Prelude.Int.{ℤ, pos, less}
use dingtalk_oa_attachment_b.Runes.{trim_space}
use dingtalk_oa_attachment_b.Domain.Errors.{ok, only, invalid_input}
use dingtalk_oa_attachment_b.Domain.Errors.Inversion.{bind_ok, then_ok, refuse_ok, ok_inj}
use dingtalk_oa_attachment_b.Domain.Approval.{User}
use dingtalk_oa_attachment_b.Domain.Audit.{is_blank}
use dingtalk_oa_attachment_b.Domain.Search.{ApprovalCategory, ApprovalCategorySource}
use dingtalk_oa_attachment_b.Approvals.Times.{unix_milli_time, unix_time}
use dingtalk_oa_attachment_b.Approvals.Library.{approval_subject_hash, category_revision}
use dingtalk_oa_attachment_b.Approvals.Cursor.{CursorState, decode}
use dingtalk_oa_attachment_b.Approvals.Service.{Service, normalize_keyword}
use dingtalk_oa_attachment_b.Approvals.States.{
  SearchQuery, is_given, or_at, new_source, max_search_range, validate_time_range,
  cursor_matches_category, check_state, new_state, search_state,
}

length-sources :
    (sources : List ApprovalCategorySource) → length (map new_source sources) ≡ length sources
length-sources [] = refl
length-sources (s ∷ ss) = ground (arith, length-sources ss)

module _ (service : Service) (category : ApprovalCategory) (user : User) where
  abbrev IsOwn : CursorState → Type 0
  IsOwn s =
      (s.subject_hash ≡ approval_subject_hash service.go user)
      × (s.category_id ≡ category.id)
      × (s.category_revision ≡ category_revision service.go category)
      × (length s.sources ≡ length category.sources)

  new_state-IsOwn :
      (now : ℕ) (keyword : Text) (start end : ℤ) (s : CursorState)
      → new_state service category user now keyword start end ≡ ok s
      → IsOwn s
  unfolding new_state
  new_state-IsOwn now keyword start end s e =
      subst IsOwn (ok_inj (then_ok (validate_time_range start end (pos now)) _ e))
        (refl, refl, refl, length-sources category.sources)

  check_state-IsOwn :
      (state s : CursorState) → check_state service category user state ≡ ok s → IsOwn s
  unfolding check_state cursor_matches_category
  check_state-IsOwn state s e =
      let (matches, e1) =
        refuse_ok
          (not (state.category_id == category.id)
            || not (cursor_matches_category service.go state category))
          (only invalid_input) _ e in
      let (own, e2) =
        refuse_ok (not (state.subject_hash == approval_subject_hash service.go user))
          (only invalid_input) _ e1 in
      let done =
        then_ok
          (validate_time_range (unix_milli_time state.start_ms) (unix_milli_time state.end_ms)
            (unix_time state.issued_at))
          _ e2 in
      subst IsOwn (ok_inj done) (ground arith, ground arith, ground arith, ground arith)

  -- The state that searchState returns is that of this user and this category, as it is now, and has a
  -- source for each source of the category: for every query, with a cursor or without, and every time.
  pub search_state-IsOwn :
      (now read : ℕ) (query : SearchQuery) (s : CursorState)
      → search_state service category user now read query ≡ ok s
      → (s.subject_hash ≡ approval_subject_hash service.go user)
        × (s.category_id ≡ category.id)
        × (s.category_revision ≡ category_revision service.go category)
        × (length s.sources ≡ length category.sources)
  unfolding search_state
  search_state-IsOwn now read query s e = elim (Bool-cases (is_blank query.cursor)) [
    | inl blank ↦
        let (keyword, _, e1) =
          bind_ok (normalize_keyword query.keyword) _ (rw (blank, search_state) at e) in
        let end = or_at (pos now) query.created_before in
        new_state-IsOwn now keyword (or_at (less end max_search_range) query.created_after) end s e1
    | inr given ↦
        let (_, e1) =
          refuse_ok
            (is_given query.created_after
              || is_given query.created_before
              || not (is_blank query.keyword))
            (only invalid_input) _ (rw (given, search_state) at e) in
        let (state, _, e2) =
          bind_ok
            (decode service.go service.base64 service.key service.cursor_json read
              (trim_space query.cursor))
            _ e1 in
        check_state-IsOwn state s e2
  ]
