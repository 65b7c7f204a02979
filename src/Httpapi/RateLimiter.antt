-- ===== src/Httpapi/RateLimiter.antt =====
-- internal/httpapi/rate_limiter.go. Times are nanoseconds since the zero time. What
-- normalizedRateLimitKey makes of a key, which net/netip decides, is the parameter `normalize`.
pub mod Laws
use dingtalk_oa_attachment_b.Prelude.{
  ℕ, ◌+◌, ◌-◌, ◌*◌, ◌^◌, ◌%◌, Bool, true, false, ◌&&◌, ◌||◌, not, List, [], ◌∷◌, Option, none, some,
  Text, lit, ◌==◌, text_eq, eqb, leb, ltb, length, if◌then◌else◌,
}
use dingtalk_oa_attachment_b.Prelude.Assoc.{lookup, insert, delete_where}

abbrev pub max_rate_limit_entries : ℕ
max_rate_limit_entries = 4096

abbrev pub overflow_rate_limit_key : Text
overflow_rate_limit_key = lit "__overflow__"

abbrev pub minute : ℕ
minute = 60 * 1000000000

pub record RateLimitEntry : Type 0 where
  pub window_start : ℕ
  pub last_seen : ℕ
  pub count : ℕ

pub record RateLimiter : Type 0 where
  pub limit : ℕ
  pub entries : List (Text × RateLimitEntry)
  pub requests : ℕ

abbrev pub zero_entry : RateLimitEntry
zero_entry = record { window_start = 0; last_seen = 0; count = 0 }

-- newRateLimiter
unfoldable pub new_rate_limiter : ℕ → RateLimiter
new_rate_limiter limit = record {
  limit = limit;
  entries = (overflow_rate_limit_key, zero_entry) ∷ [];
  requests = 0;
}

abbrev pub has_entry : Option RateLimitEntry → Bool
has_entry none = false
has_entry (some _) = true

abbrev pub or_zero_entry : Option RateLimitEntry → RateLimitEntry
or_zero_entry none = zero_entry
or_zero_entry (some e) = e

-- The key that is counted: the overflow key for a new one when the map is full.
unfoldable pub counted_key : RateLimiter → Text → Text
counted_key l key =
    if not (has_entry (lookup key l.entries)) && leb max_rate_limit_entries (length l.entries)
    then overflow_rate_limit_key
    else key

-- The entry after one more request. A time before the start of the window leaves the window open, as
-- the negative duration of the source does.
unfoldable pub count_request : ℕ → RateLimitEntry → RateLimitEntry
count_request now e =
    if eqb e.window_start 0 || leb minute (now - e.window_start)
    then record { window_start = now; last_seen = now; count = 1 }
    else record { window_start = e.window_start; last_seen = now; count = e.count + 1 }

abbrev pub is_forgotten : ℕ → Text → RateLimitEntry → Bool
is_forgotten before key e = not (key == overflow_rate_limit_key) && ltb e.last_seen before

-- prune
unfoldable pub prune : ℕ → List (Text × RateLimitEntry) → List (Text × RateLimitEntry)
prune before entries = delete_where (is_forgotten before) entries

-- The end of Allow, with the key that is counted.
unfoldable pub allow_counted : RateLimiter → Text → ℕ → Bool × RateLimiter
allow_counted l key now =
    let e = count_request now (or_zero_entry (lookup key l.entries)) in
    let entries = insert key e l.entries in
    let requests = (l.requests + 1) % 2 ^ 64 in
    (
      leb e.count l.limit,
      record {
        limit = l.limit;
        entries = if eqb (requests % 1000) 0 then prune (now - 10 * minute) entries else entries;
        requests = requests;
      },
    )

-- Allow
unfoldable pub allow : (Text → Text) → RateLimiter → Text → ℕ → Bool × RateLimiter
allow normalize l key now = allow_counted l (counted_key l (normalize key)) now

-- Requests in the order in which they hold the mutex.
unfoldable pub run : (Text → Text) → RateLimiter → List (Text × ℕ) → RateLimiter
run normalize l [] = l
run normalize l ((key, now) ∷ calls) = run normalize (allow normalize l key now).1 calls
