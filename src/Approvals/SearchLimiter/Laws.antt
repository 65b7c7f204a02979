-- ===== src/Approvals/SearchLimiter/Laws.antt =====
-- What `prune` deletes is what a later request starts anew.
use dingtalk_oa_attachment_b.Prelude.{
  ℕ, ◌-◌, ◌≤◌, ◌≡◌, refl, sym, ap, subst, ◌⊎◌, inl, inr, Bool, true, false, List, [], ◌∷◌, Option,
  none, some, Text, ◌==◌, text_eq, leb, if◌then◌else◌, arith, Bool-cases,
}
use dingtalk_oa_attachment_b.Prelude.Assoc.{
  lookup, insert, NodupKeys, unless, lookup-insert, lookup-delete_where, insert-NodupKeys,
  delete_where-NodupKeys,
}
use dingtalk_oa_attachment_b.Approvals.SearchLimiter.{
  SearchRateState, SearchRateLimiter, new_search_rate_limiter, or_zero_state, search_rate_window,
  has_passed, current, one_more, prune, prune_if, allow_held, allow, answers,
}
use dingtalk_oa_attachment_b.Approvals.SearchLimiter.Unpruned.{set, answers_unpruned}

-- The times do not decrease, from the given one on, which is not the zero time.
abbrev pub IsOrdered : ℕ → List (Text × ℕ) → Type 0
IsOrdered start [] = Unit {0}
IsOrdered start ((_, now) ∷ calls) = (start ≤ now) × IsOrdered now calls

-- The state in the map is the one described, or there is none and the window described has passed.
abbrev pub Forgets : ℕ → Option SearchRateState → SearchRateState → Type 0
Forgets now o s =
    (s.window_started ≤ now)
    × ((or_zero_state o ≡ s) ⊎ ((o ≡ none) × (search_rate_window ≤ now - s.window_started)))

record Agrees (now : ℕ) (states : List (Text × SearchRateState)) (f : Text → SearchRateState)
    : Type 0 where
  keyed : NodupKeys states
  same : (u : Text) → Forgets now (lookup u states) (f u)

-- A request is held against the same state.
current-Forgets :
    (start now : ℕ) (o : Option SearchRateState) (s : SearchRateState)
    → start ≤ now
    → Forgets start o s
    → current now (or_zero_state o) ≡ current now s
unfolding current has_passed
current-Forgets start now o s h (_, inl e) = ap (current now) e
current-Forgets start now o s h (before, inr (absent, late)) = rw absent (ground arith)

later-Forgets :
    (start now : ℕ) (o : Option SearchRateState) (s : SearchRateState)
    → start ≤ now
    → Forgets start o s
    → Forgets now o s
later-Forgets start now o s h (before, inl e) = (omega arith, inl e)
later-Forgets start now o s h (before, inr (absent, late)) =
    (omega arith, inr (absent, omega arith))

-- Pruning keeps the agreement.
unless_same :
    (now : ℕ) (user : Text) (x : SearchRateState)
    → x.window_started ≤ now
    → Forgets now (unless (λ u y. has_passed now y) user (some x)) x
unfolding has_passed
unless_same now user x before = elim (Bool-cases (has_passed now x)) [
  | inl passed ↦ rw passed (before, inr (refl, ground arith))
  | inr recent ↦ rw recent (before, inl refl)
]

unless-Forgets :
    (now : ℕ) (user : Text) (o : Option SearchRateState) (s : SearchRateState)
    → Forgets now o s
    → Forgets now (unless (λ u y. has_passed now y) user o) s
unless-Forgets now user none s h = h
unless-Forgets now user (some x) s (before, inl e) =
    subst (λ z. Forgets now (unless (λ u y. has_passed now y) user (some x)) z) e
      (unless_same now user x (subst (λ z. z.window_started ≤ now) (sym e) before))
unless-Forgets now user (some x) s (before, inr (absent, late)) = ground arith

either-Forgets :
    (b : Bool) (now : ℕ) (x s : SearchRateState) (o : Option SearchRateState)
    → x.window_started ≤ now
    → Forgets now o s
    → Forgets now (if b then some x else o) (if b then x else s)
either-Forgets true now x s o h g = (h, inl refl)
either-Forgets false now x s o h g = g

insert-Agrees :
    (now : ℕ) (states : List (Text × SearchRateState)) (f : Text → SearchRateState) (user : Text)
    (s : SearchRateState)
    → s.window_started ≤ now
    → Agrees now states f
    → Agrees now (insert user s states) (set f user s)
insert-Agrees now states f user s h a = record {
  keyed = insert-NodupKeys user s states a.keyed;
  same = λ u.
      subst (λ o. Forgets now o (set f user s u)) (sym (lookup-insert user u s states))
        (either-Forgets (user == u) now s (f u) (lookup u states) h (a.same u));
}

prune-Agrees :
    (due : Bool) (now : ℕ) (states : List (Text × SearchRateState)) (f : Text → SearchRateState)
    → Agrees now states f
    → Agrees now (prune_if due now states) f
unfolding prune
prune-Agrees false now states f a = a
prune-Agrees true now states f a = record {
  keyed = delete_where-NodupKeys (λ user s. has_passed now s) states a.keyed;
  same = λ u.
      subst (λ o. Forgets now o (f u))
        (sym (lookup-delete_where (λ user s. has_passed now s) u states a.keyed))
        (unless-Forgets now u (lookup u states) (f u) (a.same u));
}

current_started : (now : ℕ) (s : SearchRateState) → (current now s).window_started ≤ now
unfolding current has_passed
current_started now s = ground arith

same_answers :
    (start : ℕ) (l : SearchRateLimiter) (f : Text → SearchRateState) (calls : List (Text × ℕ))
    → IsOrdered start calls
    → Agrees start l.states f
    → answers l calls ≡ answers_unpruned l.limit f calls
unfolding answers answers_unpruned allow allow_held
same_answers start l f [] h a = refl
same_answers start l f ((user, now) ∷ calls) (h, rest) a =
    let agrees : Agrees now l.states f = record {
      keyed = a.keyed;
      same = λ u. later-Forgets start now (lookup u l.states) (f u) h (a.same u);
    } in
    let held = current-Forgets start now (lookup user l.states) (f user) h (a.same user) in
    rw held (elim (Bool-cases (leb l.limit (current now (f user)).requests)) [
      | inl full ↦ rw (full) (ap (λ r. false ∷ r) (same_answers now l f calls rest agrees))
      | inr free ↦ rw (free) (
          ap (λ r. true ∷ r)
            (same_answers now _ (set f user (one_more (current now (f user)))) calls rest (
              prune-Agrees _ now _ _ (
                insert-Agrees now l.states f user (one_more (current now (f user)))
                  (current_started now (f user)) agrees))))
    ])

-- If the times of the requests do not decrease, a new limiter answers as the one that keeps the state
-- of every user for ever: what it deletes to stay small changes no answer.
pub answers-new :
    (limit : ℕ) (calls : List (Text × ℕ))
    → IsOrdered 0 calls
    → answers (new_search_rate_limiter limit) calls
      ≡ answers_unpruned limit (λ user. or_zero_state none) calls
unfolding new_search_rate_limiter lookup
answers-new limit calls h =
    same_answers 0 (new_search_rate_limiter limit) (λ user. or_zero_state none) calls h
      (record { keyed = tt; same = λ u. (omega arith, inl refl) })
