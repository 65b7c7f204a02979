-- ===== src/Dingtalk/Tests.antt =====
-- A fetch that two callers wait for, one that fails, and a third caller.
use dingtalk_oa_attachment_b.Prelude.{ℕ, ◌+◌, ◌<◌, ◌≡◌, refl, List, [], ◌∷◌, lit, In}
use dingtalk_oa_attachment_b.Domain.Errors.{ok, err}
use dingtalk_oa_attachment_b.Dingtalk.TokenCache.{
  Event, asks, fetched, given, new_app_token_cache, is_usable, token, keep_token, fetch_token,
  happens,
}
use dingtalk_oa_attachment_b.Dingtalk.TokenCache.History.{replay, token-given}

abbrev events : List Event
events = fetched 98 (err []) ∷ asks 96 ∷ fetched 7 (ok (lit "token", 100)) ∷ asks 6 ∷ asks 5 ∷ []

token_at_once : (token 99 (replay 20 events)).0 ≡ given (lit "token")
unfolding new_app_token_cache is_usable token keep_token fetch_token happens
token_at_once = refl

token-given_example :
    (time : ℕ) × (ttl : ℕ) × In (fetched time (ok (lit "token", ttl))) events × (99 < time + ttl)
token-given_example = token-given 20 99 events (lit "token") token_at_once
