-- ===== src/Attachments/Limiter.antt =====
-- internal/attachments/service.go: downloadLimiter, which bounds the downloads that a user has open.
-- The closure that `acquire` returns is a handle, kept with the flag of its `sync.Once`.
pub mod Laws
use dingtalk_oa_attachment_b.Prelude.{
  ℕ, zero, suc, ◌+◌, ◌-◌, Bool, true, false, List, [], ◌∷◌, ◌++◌, Option, none, some, Text, eqb,
  leb, length, if◌then◌else◌,
}
use dingtalk_oa_attachment_b.Prelude.Assoc.{lookup, insert, erase}

pub record Handle : Type 0 where
  pub user : Text
  pub is_done : Bool

pub record DownloadLimiter : Type 0 where
  pub limit : ℕ
  pub active_by_user : List (Text × ℕ)
  pub handles : List Handle

-- newDownloadLimiter
unfoldable pub new_download_limiter : ℕ → DownloadLimiter
new_download_limiter limit = record { limit = limit; active_by_user = []; handles = [] }

abbrev pub or_zero : Option ℕ → ℕ
or_zero none = 0
or_zero (some n) = n

-- `limiter.activeByUser[userID]`
abbrev pub active : DownloadLimiter → Text → ℕ
active l user = or_zero (lookup user l.active_by_user)

unfoldable pub grant : DownloadLimiter → Text → DownloadLimiter
grant l user = record l {
  active_by_user = insert user (active l user + 1) l.active_by_user;
  handles = l.handles ++ record { user = user; is_done = false } ∷ [];
}

-- acquire. The handle is the number of the closure.
unfoldable pub acquire : DownloadLimiter → Text → Option (ℕ × DownloadLimiter)
unfolding grant
acquire l user = if leb l.limit (active l user) then none else some (length l.handles, grant l user)

unfoldable pub get_handle : List Handle → ℕ → Option Handle
get_handle [] i = none
get_handle (h ∷ hs) zero = some h
get_handle (h ∷ hs) (suc i) = get_handle hs i

unfoldable pub mark_done : List Handle → ℕ → List Handle
mark_done [] i = []
mark_done (h ∷ hs) zero = record h { is_done = true } ∷ hs
mark_done (h ∷ hs) (suc i) = h ∷ mark_done hs i

-- What the closure does the first time. The count is positive here, since the handle is open.
unfoldable pub give_back : DownloadLimiter → Text → List (Text × ℕ)
give_back l user =
    let left = active l user - 1 in
    if eqb left 0
    then erase user (insert user left l.active_by_user)
    else insert user left l.active_by_user

-- A call of the closure that `acquire` returned.
unfoldable pub release : DownloadLimiter → ℕ → DownloadLimiter
unfolding get_handle mark_done give_back
release l i = elim (get_handle l.handles i) [
  | none ↦ l
  | some h ↦
      if h.is_done
      then l
      else record l { active_by_user = give_back l h.user; handles = mark_done l.handles i }
]

-- Calls by concurrent requests, in the order in which they hold the mutex.
pub data Call : Type 0 where
  acquires : Text → Call
  releases : ℕ → Call

unfoldable pub step : DownloadLimiter → Call → DownloadLimiter
step l (acquires user) = elim (acquire l user) [ none ↦ l | some (i, l') ↦ l' ]
step l (releases i) = release l i

unfoldable pub run : DownloadLimiter → List Call → DownloadLimiter
run l [] = l
run l (c ∷ cs) = run (step l c) cs
