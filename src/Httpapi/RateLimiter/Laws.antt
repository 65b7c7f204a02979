-- ===== src/Httpapi/RateLimiter/Laws.antt =====
-- The map of the limiter stays small, and keeps the entry for the keys that it has no room for.
use dingtalk_oa_attachment_b.Prelude.{
  ℕ, ◌-◌, ◌*◌, ◌≤◌, ◌≡◌, refl, sym, subst, Bool, true, false, ◌&&◌, not, List, [], ◌∷◌, Text,
  Text-discrete, ℕ_discrete, ◌==◌, text_eq, leb, ltb, length, if◌then◌else◌, arith, Bool-cases,
  Option-cases, inl, inr,
}
use dingtalk_oa_attachment_b.Prelude.Assoc.{
  lookup, insert, delete_where, NodupKeys, lookup-insert, lookup-delete_where, insert-NodupKeys,
  delete_where-NodupKeys, length-insert, length-insert_present, length-delete_where,
}
use dingtalk_oa_attachment_b.Httpapi.RateLimiter.{
  RateLimitEntry, RateLimiter, max_rate_limit_entries, overflow_rate_limit_key, has_entry,
  counted_key, is_forgotten, prune, allow_counted, allow, run, new_rate_limiter, minute,
}

-- The map has one entry for each key, at most 4096 in all, and one of them is the overflow entry.
pub record IsBounded (entries : List (Text × RateLimitEntry)) : Type 0 where
  pub keyed : NodupKeys entries
  pub small : length entries ≤ max_rate_limit_entries
  pub spare : has_entry (lookup overflow_rate_limit_key entries) ≡ true

length-insert_found :
    (key : Text) (e : RateLimitEntry) (m : List (Text × RateLimitEntry))
    → has_entry (lookup key m) ≡ true
    → length (insert key e m) ≡ length m
length-insert_found key e m h = length-insert_present key e m (λ absent. ground arith)

-- The overflow key and the bound, as any key and any number.
module _ (o : Text) (bound : ℕ) (m : List (Text × RateLimitEntry)) (e : RateLimitEntry) where
  length-insert_counted :
      (key : Text)
      → has_entry (lookup o m) ≡ true
      → length m ≤ bound
      → length
          (insert (if not (has_entry (lookup key m)) && leb bound (length m) then o else key) e m)
        ≤ bound
  length-insert_counted key spare small = elim (Bool-cases (has_entry (lookup key m))) [
    | inl found ↦
        rw (found) (subst (λ n. n ≤ bound) (sym (length-insert_found key e m found)) small)
    | inr fresh ↦ rw (fresh) (elim (Bool-cases (leb bound (length m))) [
      | inl full ↦ rw (full) (subst (λ n. n ≤ bound) (sym (length-insert_found o e m spare)) small)
      | inr room ↦ rw (room) (ground (arith, length-insert key e m))
    ])
  ]

  lookup-insert_kept :
      (key : Text) → has_entry (lookup o m) ≡ true → has_entry (lookup o (insert key e m)) ≡ true
  lookup-insert_kept key spare = ground (arith, lookup-insert key o e m)

lookup-prune_kept :
    (o : Text) (before : ℕ) (m : List (Text × RateLimitEntry))
    → NodupKeys m
    → has_entry (lookup o m) ≡ true
    → has_entry (lookup o (delete_where (λ key e. not (key == o) && ltb e.last_seen before) m))
      ≡ true
lookup-prune_kept o before m keyed spare = elim (Option-cases (lookup o m)) [
  | inl absent ↦ ground arith
  | inr (e, found) ↦
      ground
        (arith, lookup-delete_where (λ key e. not (key == o) && ltb e.last_seen before) o m keyed)
]

insert-IsBounded :
    (l : RateLimiter) (key : Text) (e : RateLimitEntry)
    → IsBounded l.entries
    → IsBounded (insert (counted_key l key) e l.entries)
unfolding counted_key
insert-IsBounded l key e b = record {
  keyed = insert-NodupKeys (counted_key l key) e l.entries b.keyed;
  small =
      length-insert_counted overflow_rate_limit_key max_rate_limit_entries l.entries e key b.spare
        b.small;
  spare =
      lookup-insert_kept overflow_rate_limit_key max_rate_limit_entries l.entries e
        (counted_key l key) b.spare;
}

prune-IsBounded :
    (before : ℕ) (m : List (Text × RateLimitEntry)) → IsBounded m → IsBounded (prune before m)
unfolding prune
prune-IsBounded before m b = record {
  keyed = delete_where-NodupKeys (is_forgotten before) m b.keyed;
  small = omega (arith, length-delete_where (is_forgotten before) m, b.small);
  spare = lookup-prune_kept overflow_rate_limit_key before m b.keyed b.spare;
}

pruned-IsBounded :
    (due : Bool) (before : ℕ) (m : List (Text × RateLimitEntry))
    → IsBounded m
    → IsBounded (if due then prune before m else m)
pruned-IsBounded true before m b = prune-IsBounded before m b
pruned-IsBounded false before m b = b

allow-IsBounded :
    (normalize : Text → Text) (l : RateLimiter) (key : Text) (now : ℕ)
    → IsBounded l.entries
    → IsBounded (allow normalize l key now).1.entries
unfolding allow allow_counted
allow-IsBounded normalize l key now b =
    pruned-IsBounded _ (now - 10 * minute) _ (insert-IsBounded l (normalize key) _ b)

run-IsBounded :
    (normalize : Text → Text) (l : RateLimiter) (calls : List (Text × ℕ))
    → IsBounded l.entries
    → IsBounded (run normalize l calls).entries
unfolding run
run-IsBounded normalize l [] b = b
run-IsBounded normalize l ((key, now) ∷ calls) b =
    run-IsBounded normalize (allow normalize l key now).1 calls
      (allow-IsBounded normalize l key now b)

-- After any requests on a new limiter, under any keys and at any times, its map has one entry for
-- each key, at most 4096 in all, and the overflow entry is one of them.
pub run-new-IsBounded :
    (normalize : Text → Text) (limit : ℕ) (calls : List (Text × ℕ))
    → IsBounded (run normalize (new_rate_limiter limit) calls).entries
unfolding new_rate_limiter lookup Text-discrete ℕ_discrete
run-new-IsBounded normalize limit calls =
    run-IsBounded normalize (new_rate_limiter limit) calls
      (record { keyed = (refl, tt); small = omega arith; spare = refl })
