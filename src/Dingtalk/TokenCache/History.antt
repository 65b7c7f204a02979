-- ===== src/Dingtalk/TokenCache/History.antt =====
-- Where a token comes from, and that no caller waits in vain.
use dingtalk_oa_attachment_b.Prelude.{
  ℕ, ◌+◌, ◌<◌, ◌≡◌, refl, ap, subst, ◌⊎◌, ◌&&◌, not, List, [], ◌∷◌, Option, none, some, Text, ltb,
  is_empty, is_positive, In, arith, inl, inr, Bool-cases,
}
use dingtalk_oa_attachment_b.Domain.Errors.{Fault, Result, ok, err}
use dingtalk_oa_attachment_b.Dingtalk.TokenCache.{
  TokenCache, given, waits, Event, asks, fetched, new_app_token_cache, is_usable, join_refresh,
  token, keep_token, fetch_token, end_refresh, happens,
}

-- The cache after these events, the last one first.
abbrev pub replay : ℕ → List Event → TokenCache
replay refresh_before [] = new_app_token_cache refresh_before
replay refresh_before (e ∷ before) = happens e (replay refresh_before before)

-- A fetch brought this token, and it expires then.
pub record IsFetched (h : List Event) (answer : Text) (expiry : ℕ) : Type 0 where
  pub time : ℕ
  pub ttl : ℕ
  pub brought : In (fetched time (ok (answer, ttl))) h
  pub expires : expiry ≡ time + ttl

abbrev HasSource : List Event → TokenCache → Type 0
HasSource h c = (c.token ≡ []) ⊎ IsFetched h c.token c.expires_at

older : (e : Event) (h : List Event) (c : TokenCache) → HasSource h c → HasSource (e ∷ h) c
older e h c (inl none_yet) = inl none_yet
older e h c (inr s) =
    inr (record { time = s.time; ttl = s.ttl; brought = inr s.brought; expires = s.expires })

join_refresh-HasSource :
    (h : List Event) (c : TokenCache) (o : Option ℕ)
    → HasSource h c
    → HasSource h (join_refresh c o).1
join_refresh-HasSource h c none s = s
join_refresh-HasSource h c (some id) s = s

token-HasSource :
    (now : ℕ) (h : List Event) (c : TokenCache) → HasSource h c → HasSource h (token now c).1
unfolding token
token-HasSource now h c s = elim (Bool-cases (is_usable now c)) [
  | inl usable ↦ rw usable s
  | inr stale ↦ rw stale (join_refresh-HasSource h c c.refresh s)
]

keep_token-HasSource :
    (now id : ℕ) (h : List Event) (c : TokenCache) (answer : Text) (f : Fault)
    → HasSource h c
    → HasSource h (keep_token now c id answer f)
unfolding keep_token
keep_token-HasSource now id h c answer f s =
    elim (Bool-cases (not (is_empty c.token) && ltb now c.expires_at)) [
      | inl usable ↦ rw usable s
      | inr stale ↦ rw stale s
    ]

fetch_token-HasSource :
    (now id : ℕ) (h : List Event) (c : TokenCache) (answer : Result (Text × ℕ))
    → HasSource h c
    → HasSource (fetched now answer ∷ h) (fetch_token now c id answer)
unfolding fetch_token
fetch_token-HasSource now id h c (err f) s =
    keep_token-HasSource now id (fetched now (err f) ∷ h) c [] f (older (fetched now (err f)) h c s)
fetch_token-HasSource now id h c (ok (answer, ttl)) s =
    elim (Bool-cases (not (is_empty answer) && is_positive ttl)) [
      | inl valid ↦
          rw valid (inr (record { time = now; ttl = ttl; brought = inl refl; expires = refl }))
      | inr bad ↦ rw bad (
          keep_token-HasSource now id (fetched now (ok (answer, ttl)) ∷ h) c answer []
            (older (fetched now (ok (answer, ttl))) h c s))
    ]

end_refresh-HasSource :
    (now : ℕ) (h : List Event) (c : TokenCache) (answer : Result (Text × ℕ)) (o : Option ℕ)
    → HasSource h c
    → HasSource (fetched now answer ∷ h) (end_refresh now c answer o)
end_refresh-HasSource now h c answer none s = older (fetched now answer) h c s
end_refresh-HasSource now h c answer (some id) s = fetch_token-HasSource now id h c answer s

replay-HasSource : (refresh_before : ℕ) (h : List Event) → HasSource h (replay refresh_before h)
unfolding new_app_token_cache happens
replay-HasSource refresh_before [] = inl refl
replay-HasSource refresh_before (asks now ∷ h) =
    older (asks now) h (token now (replay refresh_before h)).1
      (token-HasSource now h (replay refresh_before h) (replay-HasSource refresh_before h))
replay-HasSource refresh_before (fetched now answer ∷ h) =
    end_refresh-HasSource now h (replay refresh_before h) answer _
      (replay-HasSource refresh_before h)

join_refresh_waits : (c : TokenCache) (o : Option ℕ) (t : Text) → (join_refresh c o).0 ≡ given t → ⊥
join_refresh_waits c none t e = ground arith
join_refresh_waits c (some id) t e = ground arith

given_inj : {s t : Text} → given s ≡ given t → s ≡ t
given_inj {s = s} e = ap (λ r. elim r [ given x ↦ x | waits n ↦ s ]) e

-- A token that Token gives at once has been brought by a fetch that ended before, and has not expired:
-- for every list of calls of Token and of ends of fetches, with whatever answers, in any order of time.
pub token-given :
    (refresh_before now : ℕ) (h : List Event) (t : Text)
    → (token now (replay refresh_before h)).0 ≡ given t
    → (time : ℕ) × (ttl : ℕ) × In (fetched time (ok (t, ttl))) h × (now < time + ttl)
unfolding token is_usable
token-given refresh_before now h t e =
    let c = replay refresh_before h in
    elim (Bool-cases (is_usable now c)) [
      | inr stale ↦ absurd (join_refresh_waits c c.refresh t (rw (stale, token) at e))
      | inl usable ↦
          let same : c.token ≡ t = given_inj (rw (usable, token) at e) in
          elim (replay-HasSource refresh_before h) [
            | inl none_yet ↦ ground arith
            | inr s ↦ (
              s.time,
              s.ttl,
              subst (λ x. In (fetched s.time (ok (x, s.ttl))) h) same s.brought,
              ground (arith, s.expires),
            )
          ]
    ]
