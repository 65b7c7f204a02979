-- ===== src/Attachments/Limiter/Laws.antt =====
-- The count of a user is the number of its open handles, and never above the limit.
use dingtalk_oa_attachment_b.Prelude.{
  ℕ, zero, suc, ◌+◌, ◌-◌, ◌≤◌, ◌<◌, ◌≡◌, ◌≢◌, refl, inl, inr, true, false, List, [], ◌∷◌, ◌++◌,
  none, some, Text, ◌==◌, text_eq, eqb, leb, length, if◌then◌else◌, arith, Bool-cases, Option-cases,
}
use dingtalk_oa_attachment_b.Prelude.Assoc.{lookup, insert, lookup-insert, lookup-erase}
use dingtalk_oa_attachment_b.Attachments.Limiter.{
  Handle, DownloadLimiter, new_download_limiter, grant, active, acquire, get_handle, mark_done,
  give_back, release, Call, acquires, releases, step, run,
}

abbrev pub holds : Handle → Text → ℕ
holds h user = if h.is_done then 0 else if h.user == user then 1 else 0

-- The handles of a user that were not called yet.
abbrev pub open_handles : List Handle → Text → ℕ
open_handles [] user = 0
open_handles (h ∷ hs) user = holds h user + open_handles hs user

open_handles-append :
    (hs : List Handle) (user u : Text)
    → open_handles (hs ++ record { user = user; is_done = false } ∷ []) u
      ≡ open_handles hs u + (if user == u then 1 else 0)
open_handles-append [] user u = ground arith
open_handles-append (h ∷ hs) user u = omega (arith, open_handles-append hs user u)

open_handles-mark_done :
    (hs : List Handle) (i : ℕ) (h : Handle) (u : Text)
    → get_handle hs i ≡ some h
    → h.is_done ≡ false
    → open_handles (mark_done hs i) u + (if h.user == u then 1 else 0) ≡ open_handles hs u
unfolding get_handle mark_done
open_handles-mark_done [] i h u e o = cc
open_handles-mark_done (x ∷ hs) zero h u e o = ground arith
open_handles-mark_done (x ∷ hs) (suc i) h u e o =
    ground (arith, open_handles-mark_done hs i h u e o)

pub record IsExact (l : DownloadLimiter) : Type 0 where
  pub counted : (u : Text) → active l u ≡ open_handles l.handles u
  pub bounded : (u : Text) → active l u ≤ l.limit
  -- An entry of the map is never zero: a user without downloads takes no room.
  pub positive : (u : Text) → lookup u l.active_by_user ≢ some 0

grant-IsExact :
    (l : DownloadLimiter) (user : Text)
    → IsExact l
    → active l user < l.limit
    → IsExact (grant l user)
unfolding grant
grant-IsExact l user v room = record {
  counted = λ u. ground (
    arith,
    lookup-insert user u (active l user + 1) l.active_by_user,
    open_handles-append l.handles user u,
    v.counted u,
  );
  bounded =
      λ u. ground (arith, lookup-insert user u (active l user + 1) l.active_by_user, v.bounded u);
  positive =
      λ u. ground (arith, lookup-insert user u (active l user + 1) l.active_by_user, v.positive u);
}

-- What `give_back` leaves of the count of a user.
lookup-give_back :
    (l : DownloadLimiter) (user u : Text)
    → lookup u (give_back l user) ≡ (
        if user == u
        then (if eqb (active l user - 1) 0 then none else some (active l user - 1))
        else lookup u l.active_by_user)
unfolding give_back
lookup-give_back l user u = ground (
  arith,
  lookup-insert user u (active l user - 1) l.active_by_user,
  lookup-erase user u (insert user (active l user - 1) l.active_by_user),
)

module _ (l : DownloadLimiter) (i : ℕ) (h : Handle) (v : IsExact l)
    (found : get_handle l.handles i ≡ some h) (open' : h.is_done ≡ false) where
  closed : DownloadLimiter
  closed = record l { active_by_user = give_back l h.user; handles = mark_done l.handles i }

  closed-IsExact : IsExact closed
  unfolding closed
  closed-IsExact = record {
    counted = λ u. ground (
      arith,
      lookup-give_back l h.user u,
      open_handles-mark_done l.handles i h u found open',
      v.counted u,
    );
    bounded = λ u. ground (arith, lookup-give_back l h.user u, v.bounded u);
    positive = λ u. ground (arith, lookup-give_back l h.user u, v.positive u);
  }

release-IsExact : (l : DownloadLimiter) (i : ℕ) → IsExact l → IsExact (release l i)
unfolding release
release-IsExact l i v = elim (Option-cases (get_handle l.handles i)) [
  | inl e ↦ rw (e, release) v
  | inr (h, e) ↦ elim (Bool-cases h.is_done) [
    | inl d ↦ rw (e, release) (rw d v)
    | inr o ↦ rw (e, release) (rw o (unfold closed in closed-IsExact l i h v e o))
  ]
]

pub step-IsExact : (l : DownloadLimiter) (c : Call) → IsExact l → IsExact (step l c)
unfolding step acquire
step-IsExact l (acquires user) v = elim (Bool-cases (leb l.limit (active l user))) [
  | inl full ↦ rw (full, step) v
  | inr room ↦ rw (room, step) (grant-IsExact l user v (ground arith))
]
step-IsExact l (releases i) v = release-IsExact l i v

run-IsExact : (cs : List Call) (l : DownloadLimiter) → IsExact l → IsExact (run l cs)
unfolding run
run-IsExact [] l v = v
run-IsExact (c ∷ cs) l v = run-IsExact cs (step l c) (step-IsExact l c v)

new-IsExact : (limit : ℕ) → IsExact (new_download_limiter limit)
unfolding new_download_limiter lookup
new-IsExact limit = record {
  counted = λ u. refl;
  bounded = λ u. omega arith;
  positive = λ u. ground arith;
}

-- After any calls on a new limiter the count of every user is the number of its handles that were
-- not called yet, it is at most the limit, and the map has no entry for a user without downloads.
pub run-new-IsExact : (limit : ℕ) (cs : List Call) → IsExact (run (new_download_limiter limit) cs)
run-new-IsExact limit cs = run-IsExact cs _ (new-IsExact limit)

get_handle-mark_done :
    (hs : List Handle) (i : ℕ) (h : Handle)
    → get_handle hs i ≡ some h
    → get_handle (mark_done hs i) i ≡ some (record h { is_done = true })
unfolding get_handle mark_done
get_handle-mark_done [] i h e = cc
get_handle-mark_done (x ∷ hs) zero h e = ground arith
get_handle-mark_done (x ∷ hs) (suc i) h e = get_handle-mark_done hs i h e

get_handle-append : (hs : List Handle) (h : Handle) → get_handle (hs ++ h ∷ []) (length hs) ≡ some h
unfolding get_handle
get_handle-append [] h = refl
get_handle-append (x ∷ hs) h = get_handle-append hs h

-- A handle gives its slot back once, however often the closure is called.
pub release_twice : (l : DownloadLimiter) (i : ℕ) → release (release l i) i ≡ release l i
unfolding release
release_twice l i = elim (Option-cases (get_handle l.handles i)) [
  | inl e ↦ ground arith
  | inr (h, e) ↦ ground (arith, get_handle-mark_done l.handles i h e)
]

-- A slot that is acquired and given back leaves the count of every user as it was.
pub active-release-grant :
    (l : DownloadLimiter) (user u : Text)
    → active (release (grant l user) (length l.handles)) u ≡ active l u
unfolding release grant
active-release-grant l user u =
    let taken : Handle = record { user = user; is_done = false } in
    ground (
      arith,
      get_handle-append l.handles taken,
      lookup-give_back (grant l user) user u,
      lookup-insert user u (active l user + 1) l.active_by_user,
      lookup-insert user user (active l user + 1) l.active_by_user,
    )

-- What `acquire` returns.
pub acquire-grant :
    (l l' : DownloadLimiter) (user : Text) (i : ℕ)
    → acquire l user ≡ some (i, l')
    → (i ≡ length l.handles) × (l' ≡ grant l user) × (active l user < l.limit)
unfolding acquire
acquire-grant l l' user i e = elim (Bool-cases (leb l.limit (active l user))) [
  | inl full ↦ absurd (ground arith)
  | inr room ↦ (ground arith, ground arith, ground arith)
]

pub active-grant :
    (l : DownloadLimiter) (user u : Text)
    → active (grant l user) u ≡ active l u + (if user == u then 1 else 0)
unfolding grant
active-grant l user u = ground (arith, lookup-insert user u (active l user + 1) l.active_by_user)
