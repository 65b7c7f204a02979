-- ===== src/Approvals/SearchLimiter/Unpruned.antt =====
-- The limiter of internal/approvals/limiter.go as a description that forgets nothing: the state of
-- each user is a function.
use dingtalk_oa_attachment_b.Prelude.{
  ℕ, Bool, true, false, List, [], ◌∷◌, Text, ◌==◌, text_eq, leb, if◌then◌else◌,
}
use dingtalk_oa_attachment_b.Approvals.SearchLimiter.{SearchRateState, current, one_more}

abbrev pub set : (Text → SearchRateState) → Text → SearchRateState → Text → SearchRateState
set states user s u = if user == u then s else states u

unfoldable pub answers_unpruned : ℕ → (Text → SearchRateState) → List (Text × ℕ) → List Bool
answers_unpruned limit states [] = []
answers_unpruned limit states ((user, now) ∷ calls) =
    let s = current now (states user) in
    let refused = answers_unpruned limit states calls in
    let let_through = answers_unpruned limit (set states user (one_more s)) calls in
    if leb limit s.requests then false ∷ refused else true ∷ let_through
