-- ===== src/Approvals/Candidates.antt =====
-- internal/approvals/service.go: listCandidates, which asks each open source of a category for a page
-- of process instance IDs.
pub mod Laws
use dingtalk_oa_attachment_b.Prelude.{
  ℕ, ◌+◌, ◌-◌, ◌/◌, Bool, true, false, List, [], ◌∷◌, ◌++◌, Option, none, some, Text, ◌==◌, text_eq,
  contains, eqb, ltb, length, if◌then◌else◌,
}
use dingtalk_oa_attachment_b.Prelude.Int.{ℤ}
use dingtalk_oa_attachment_b.Domain.Errors.{
  Fault, Result, ok, err, ◌>>=◌, ◌>>◌, refuse_if, only, upstream,
}
use dingtalk_oa_attachment_b.Domain.Identifier.{normalize_process_instance_id}
use dingtalk_oa_attachment_b.Domain.Search.{
  ApprovalCategory, ApprovalCategorySource, ApprovalInstanceIdQuery, ApprovalInstanceIdPage,
}

pub record CursorSource : Type 0 where
  pub next_token : ℤ
  pub done : Bool

pub record Candidate : Type 0 where
  pub process_instance_id : Text
  pub source : ApprovalCategorySource

-- The variables of the loop: `seen` and `candidates`.
pub record Listing : Type 0 where
  pub seen : List Text
  pub candidates : List Candidate

unfoldable pub count_active : List CursorSource → ℕ
count_active [] = 0
count_active (s ∷ ss) = (if s.done then 0 else 1) + count_active ss

-- What a page says of the next one.
unfoldable pub advance : CursorSource → Option ℤ → CursorSource
advance s none = record s { done = true }
advance s (some token) = record s { next_token = token }

-- One ID that has been normalised.
unfoldable pub add_id : ApprovalCategorySource → Listing → Text → Listing
add_id source l id = if contains l.seen id then l else record {
  seen = id ∷ l.seen;
  candidates = l.candidates ++ record { process_instance_id = id; source = source } ∷ [];
}

abbrev pub invalid_id : Fault → Fault
invalid_id f = only upstream

abbrev pub blame {ℓ} : {A : Type ℓ} → (Fault → Fault) → Result A → Result A
blame g (ok a) = ok a
blame g (err f) = err (g f)

-- The loop over the IDs of a page.
unfoldable pub add_ids : ApprovalCategorySource → Listing → List Text → Result Listing
add_ids source l [] = ok l
add_ids source l (raw ∷ raws) = blame invalid_id (normalize_process_instance_id raw) >>= λ id.
    add_ids source (add_id source l id) raws

module _ (list_ids : ApprovalInstanceIdQuery → Result ApprovalInstanceIdPage)
    (start_ms end_ms : ℤ) where
  abbrev query_of : ApprovalCategorySource → CursorSource → ℕ → ApprovalInstanceIdQuery
  query_of source state quota = record {
    process_code = source.process_code;
    start_ms = start_ms;
    end_ms = end_ms;
    next_token = state.next_token;
    max_results = quota;
  }

  -- One open source, with its share of the limit.
  unfoldable pub list_source :
      ApprovalCategorySource → CursorSource → ℕ → Listing → Result (CursorSource × Listing)
  list_source source state quota l = list_ids (query_of source state quota) >>= λ page.
      refuse_if (ltb quota (length page.process_instance_ids)) (only upstream)
      >> (add_ids source l page.process_instance_ids >>= λ l'.
          ok (advance state page.next_token, l'))

  -- The loop over the sources of the cursor. The category has as many sources, as searchState checks;
  -- where it has fewer, the source would panic.
  unfoldable pub list_sources :
      ℕ
      → ℕ
      → Listing
      → List CursorSource
      → List ApprovalCategorySource
      → Result (List CursorSource × Listing)
  list_sources limit active l [] sources = ok ([], l)
  list_sources limit active l (s ∷ ss) [] = err []
  list_sources limit active l (s ∷ ss) (source ∷ sources) =
      let quota = limit / active in
      elim s.done [
        | true ↦ list_sources limit active l ss sources >>= λ r. ok (s ∷ r.0, r.1)
        | false ↦ list_source source s quota l >>= λ one.
            list_sources (limit - quota) (active - 1) one.1 ss sources >>= λ r.
            ok (one.0 ∷ r.0, r.1)
      ]

  -- listCandidates, with the sources of the cursor as they are left.
  unfoldable pub list_candidates :
      ApprovalCategory → List CursorSource → ℕ → Result (List CursorSource × List Candidate)
  list_candidates category states limit =
      if eqb (count_active states) 0
      then ok (states, [])
      else list_sources limit (count_active states) (record { seen = []; candidates = [] }) states
          category.sources
        >>= λ r. ok (r.0, r.1.candidates)

-- hasRemainingSources
unfoldable pub has_remaining_sources : List CursorSource → Bool
has_remaining_sources [] = false
has_remaining_sources (s ∷ ss) = if s.done then has_remaining_sources ss else true
