-- ===== src/Httpapi/Tests.antt =====
-- Two requests under two keys.
use dingtalk_oa_attachment_b.Prelude.{[], ◌∷◌, Text, lit}
use dingtalk_oa_attachment_b.Httpapi.RateLimiter.{new_rate_limiter, run}
use dingtalk_oa_attachment_b.Httpapi.RateLimiter.Laws.{IsBounded, run-new-IsBounded}

abbrev as_it_is : Text → Text
as_it_is key = key

run-new-IsBounded_example :
    IsBounded (run as_it_is (new_rate_limiter 1) ((lit "a", 5) ∷ (lit "b", 6) ∷ [])).entries
run-new-IsBounded_example = run-new-IsBounded as_it_is 1 ((lit "a", 5) ∷ (lit "b", 6) ∷ [])
