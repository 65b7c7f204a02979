-- ===== src/Approvals/Tests.antt =====
-- Three searches of a user who may make one in a minute.
mod Codec
mod Listings
mod Cursors
mod Walks
mod Searches
use dingtalk_oa_attachment_b.Prelude.{ℕ, ◌≡◌, List, [], ◌∷◌, none, Text, lit, arith}
use dingtalk_oa_attachment_b.Approvals.SearchLimiter.{
  SearchRateState, new_search_rate_limiter, or_zero_state, answers,
}
use dingtalk_oa_attachment_b.Approvals.SearchLimiter.Unpruned.{answers_unpruned}
use dingtalk_oa_attachment_b.Approvals.SearchLimiter.Laws.{answers-new}

abbrev searches : List (Text × ℕ)
searches = (lit "ann", 5) ∷ (lit "ann", 6) ∷ (lit "ann", 60000000005) ∷ []

abbrev unseen : Text → SearchRateState
unseen user = or_zero_state none

answers-new_example :
    answers (new_search_rate_limiter 1) searches ≡ answers_unpruned 1 unseen searches
answers-new_example = answers-new 1 searches (omega arith, (omega arith, (omega arith, tt)))
