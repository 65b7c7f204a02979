-- ===== src/Approvals/SearchLimiter.antt =====
-- internal/approvals/limiter.go. Times are nanoseconds since the zero time.
pub mod Unpruned
pub mod Laws
use dingtalk_oa_attachment_b.Prelude.{
  ℕ, ◌+◌, ◌-◌, ◌*◌, Bool, true, false, ◌||◌, List, [], ◌∷◌, Option, none, some, Text, eqb, leb, ltb,
  length, if◌then◌else◌,
}
use dingtalk_oa_attachment_b.Prelude.Assoc.{lookup, insert, delete_where}

abbrev pub search_rate_window : ℕ
search_rate_window = 60 * 1000000000

pub record SearchRateState : Type 0 where
  pub window_started : ℕ
  pub requests : ℕ

pub record SearchRateLimiter : Type 0 where
  pub limit : ℕ
  pub states : List (Text × SearchRateState)

-- newSearchRateLimiter
unfoldable pub new_search_rate_limiter : ℕ → SearchRateLimiter
new_search_rate_limiter limit = record { limit = limit; states = [] }

abbrev pub or_zero_state : Option SearchRateState → SearchRateState
or_zero_state none = record { window_started = 0; requests = 0 }
or_zero_state (some s) = s

-- The window of the state is not the one of this time.
unfoldable pub has_passed : ℕ → SearchRateState → Bool
has_passed now s = ltb now s.window_started || leb search_rate_window (now - s.window_started)

-- The state that a request at this time is held against.
unfoldable pub current : ℕ → SearchRateState → SearchRateState
current now s =
    if eqb s.window_started 0 || has_passed now s
    then record { window_started = now; requests = 0 }
    else s

abbrev pub one_more : SearchRateState → SearchRateState
one_more s = record s { requests = s.requests + 1 }

-- prune
unfoldable pub prune : ℕ → List (Text × SearchRateState) → List (Text × SearchRateState)
prune now states = delete_where (λ user s. has_passed now s) states

abbrev pub prune_if : Bool → ℕ → List (Text × SearchRateState) → List (Text × SearchRateState)
prune_if true now states = prune now states
prune_if false now states = states

-- The end of Allow, with the state that the request is held against.
unfoldable pub allow_held :
    SearchRateLimiter → Text → ℕ → SearchRateState → Bool × SearchRateLimiter
allow_held l user now s =
    if leb l.limit s.requests
    then (false, l)
    else let states = insert user (one_more s) l.states in
      (true, record l { states = prune_if (ltb 1024 (length states)) now states })

-- Allow
unfoldable pub allow : SearchRateLimiter → Text → ℕ → Bool × SearchRateLimiter
allow l user now = allow_held l user now (current now (or_zero_state (lookup user l.states)))

-- The answers to requests, in the order in which they hold the mutex.
unfoldable pub answers : SearchRateLimiter → List (Text × ℕ) → List Bool
answers l [] = []
answers l ((user, now) ∷ calls) = (allow l user now).0 ∷ answers (allow l user now).1 calls
