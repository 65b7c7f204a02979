-- ===== src/Dingtalk/TokenCache.antt =====
-- internal/dingtalk/token_cache.go: the token of the app, which one goroutine at a time fetches for all
-- that wait. Times are nanoseconds since the zero time; a lifetime that is not positive is 0.
pub mod History
use dingtalk_oa_attachment_b.Prelude.{
  ℕ, ◌+◌, ◌*◌, Bool, true, false, ◌&&◌, ◌||◌, not, List, [], ◌∷◌, Option, none, some, Text, ltb,
  is_empty, is_positive, if◌then◌else◌,
}
use dingtalk_oa_attachment_b.Domain.Errors.{Fault, Result, ok, err}

abbrev pub app_token_refresh_failure_backoff : ℕ
app_token_refresh_failure_backoff = 60 * 1000000000

-- tokenRefresh once its channel is closed, with the number of the refresh.
pub record TokenRefresh : Type 0 where
  pub id : ℕ
  pub token : Text
  pub fault : Option Fault

pub record TokenCache : Type 0 where
  pub token : Text
  pub expires_at : ℕ
  pub refresh : Option ℕ
  pub refresh_retry_at : ℕ
  pub refresh_before : ℕ
  -- The refreshes so far: the number of the next one, and those that are done, the last one first.
  pub next_refresh : ℕ
  pub finished : List TokenRefresh

-- newAppTokenCache
unfoldable pub new_app_token_cache : ℕ → TokenCache
new_app_token_cache refresh_before = record {
  token = [];
  expires_at = 0;
  refresh = none;
  refresh_retry_at = 0;
  refresh_before = refresh_before;
  next_refresh = 0;
  finished = [];
}

-- A token at once, or the refresh that the caller waits for.
pub data Reply : Type 0 where
  given : Text → Reply
  waits : ℕ → Reply

unfoldable pub is_usable : ℕ → TokenCache → Bool
is_usable now c =
    not (is_empty c.token)
    && ltb now c.expires_at
    && (ltb (now + c.refresh_before) c.expires_at || ltb now c.refresh_retry_at)

abbrev pub join_refresh : TokenCache → Option ℕ → Reply × TokenCache
join_refresh c (some id) = (waits id, c)
join_refresh c none = (
  waits c.next_refresh,
  record c { refresh = some c.next_refresh; next_refresh = c.next_refresh + 1 },
)

-- Token, up to the wait.
unfoldable pub token : ℕ → TokenCache → Reply × TokenCache
token now c = if is_usable now c then (given c.token, c) else join_refresh c c.refresh

abbrev pub finish_refresh : TokenCache → ℕ → Text → Option Fault → TokenCache
finish_refresh c id answer fault = record c {
  refresh = none;
  finished = record { id = id; token = answer; fault = fault } ∷ c.finished;
}

-- The answer of a fetch that brought no valid token.
unfoldable pub keep_token : ℕ → TokenCache → ℕ → Text → Fault → TokenCache
keep_token now c id answer fault =
    if not (is_empty c.token) && ltb now c.expires_at
    then finish_refresh (record c { refresh_retry_at = now + app_token_refresh_failure_backoff }) id
        c.token none
    else finish_refresh c id answer (some fault)

-- The end of fetchToken, with what the fetch returned: a token and its lifetime.
unfoldable pub fetch_token : ℕ → TokenCache → ℕ → Result (Text × ℕ) → TokenCache
fetch_token now c id (err f) = keep_token now c id [] f
fetch_token now c id (ok (answer, ttl)) =
    if not (is_empty answer) && is_positive ttl
    then finish_refresh (record c { token = answer; expires_at = now + ttl; refresh_retry_at = 0 })
        id answer none
    else keep_token now c id answer []

-- What happens to the cache: a call of Token, and the end of the refresh that is under way.
pub data Event : Type 0 where
  asks : ℕ → Event
  fetched : ℕ → Result (Text × ℕ) → Event

abbrev end_refresh : ℕ → TokenCache → Result (Text × ℕ) → Option ℕ → TokenCache
end_refresh now c answer none = c
end_refresh now c answer (some id) = fetch_token now c id answer

unfoldable pub happens : Event → TokenCache → TokenCache
happens (asks now) c = (token now c).1
happens (fetched now answer) c = end_refresh now c answer c.refresh
