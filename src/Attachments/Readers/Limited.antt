-- ===== src/Attachments/Readers/Limited.antt =====
-- limitedReadCloser: what a caller receives of a body, for every way of reading it.
use dingtalk_oa_attachment_b.Prelude.{
  ℕ, zero, suc, ◌+◌, ◌-◌, ◌≤◌, ◌<◌, ◌≡◌, ◌≢◌, refl, sym, ap, ◌∙◌, ◌⊎◌, inl, inr, List, [], ◌∷◌,
  ◌++◌, Option, none, some, is_positive, eqb, length, take, drop, length-append, length-take-le,
  take-append-drop, arith, Bool-cases,
}
use mathlib.Core.List.{append-nil}
use dingtalk_oa_attachment_b.Attachments.Readers.{
  ReadError, eof, unexpected_eof, no_progress, over_limit, over_metadata, failed, Body, IsReader,
  LimitedReader, smaller, limited_open, limited_take, limited_probe, limited_read,
}
use dingtalk_oa_attachment_b.Attachments.Readers.Runs.{Outcome, conclude, read_until, regroup}

take-append :
    (xs ys : List ℕ) (m : ℕ) → length xs ≤ m → take m (xs ++ ys) ≡ xs ++ take (m - length xs) ys
take-append [] ys m h = ap (λ k. take k ys) (omega arith)
take-append (x ∷ xs) ys zero h = absurd (omega arith)
take-append (x ∷ xs) ys (suc m) h =
    ap (λ (t : List ℕ). x ∷ t)
      (take-append xs ys m (omega arith) ∙ ap (λ k. xs ++ take k ys) (omega arith))

abbrev pub Facts : ℕ → List ℕ → List ℕ → Option ReadError → Type 0
Facts m xs bytes e =
    (e ≡ some eof → (bytes ≡ xs) × (length xs ≤ m))
    × (e ≡ some over_limit → (bytes ≡ take m xs) × (m < length xs))
    × ((ys : List ℕ) × (xs ≡ bytes ++ ys))
    × (length bytes ≤ m)

-- The reader that `Open` puts over a body.
abbrev pub limited : {S : Type 0} → S → ℕ → LimitedReader S
limited s m = record { body = s; remaining = m; terminal_error = none }

module _ {S : Type 0} (content : S → List ℕ) where
  -- The bytes that the reader has not delivered. After an end of file that came with bytes it has
  -- delivered all.
  abbrev pub Left : LimitedReader S → List ℕ → Type 0
  Left r xs =
      ((r.terminal_error ≡ none) × (content r.body ≡ xs))
      ⊎ ((r.terminal_error ≡ some eof) × (xs ≡ []))

  -- What bytes and an error say of the `xs` that were left, when `m` bytes were allowed.
  abbrev pub Kept : ℕ → List ℕ → List ℕ → LimitedReader S → Option ReadError → Type 0
  Kept m xs bytes r none =
      (ys : List ℕ) × (xs ≡ bytes ++ ys) × Left r ys × (m ≡ length bytes + r.remaining)
  Kept m xs bytes r (some eof) = (bytes ≡ xs) × (length xs ≤ m)
  Kept m xs bytes r (some over_limit) = (bytes ≡ take m xs) × (m < length xs)
  Kept m xs bytes r (some e) = (ys : List ℕ) × (xs ≡ bytes ++ ys) × (length bytes ≤ m)

  pub facts :
      (m : ℕ) (xs bytes : List ℕ) (r : LimitedReader S) (e : Option ReadError)
      → Kept m xs bytes r e
      → Facts m xs bytes e
  facts m xs bytes r none (ys, p, left, q) =
      (λ h. absurd (cc), λ h. absurd (cc), (ys, p), omega arith)
  facts m xs bytes r (some eof) k = (
    λ h. k,
    λ h. absurd (cc),
    ([], sym k.0 ∙ sym (append-nil bytes)),
    omega (arith, ap length k.0),
  )
  facts m xs bytes r (some over_limit) k = (
    λ h. absurd (cc),
    λ h. k,
    (drop m xs, sym (take-append-drop m xs) ∙ ap (λ t. t ++ drop m xs) (sym k.0)),
    omega (arith, ap length k.0, length-take-le m xs),
  )
  facts m xs bytes r (some unexpected_eof) (ys, p, n) =
      (λ h. absurd (cc), λ h. absurd (cc), (ys, p), n)
  facts m xs bytes r (some no_progress) (ys, p, n) =
      (λ h. absurd (cc), λ h. absurd (cc), (ys, p), n)
  facts m xs bytes r (some over_metadata) (ys, p, n) =
      (λ h. absurd (cc), λ h. absurd (cc), (ys, p), n)
  facts m xs bytes r (some (failed f)) (ys, p, n) = (λ h. absurd (cc), λ h. absurd (cc), (ys, p), n)

  module _ (b : Body S) where
    limited_take-Kept :
        (r : LimitedReader S) (bytes : List ℕ) (e : Option ReadError) (s : S) (xs : List ℕ)
        → xs ≡ bytes ++ content s
        → length bytes ≤ r.remaining
        → (e ≡ some eof → content s ≡ [])
        → e ≢ some over_limit
        → let o = limited_take b r (record { bytes = bytes; error = e }) s in
          Kept r.remaining xs o.0.bytes o.1 o.0.error
    unfolding limited_take
    limited_take-Kept r [] none s xs p fits ends own = (content s, p, inl (refl, refl), omega arith)
    limited_take-Kept r (x ∷ bs) none s xs p fits ends own =
        (content s, p, inl (refl, refl), omega arith)
    limited_take-Kept r [] (some eof) s xs p fits ends own =
        let e = ends refl in (ground arith, omega (arith, ap length p, ap length e))
    limited_take-Kept r (x ∷ bs) (some eof) s xs p fits ends own =
        ([], p ∙ ap (◌++◌ (x ∷ bs)) (ends refl), inr (refl, refl), omega arith)
    limited_take-Kept r bytes (some over_limit) s xs p fits ends own = absurd (own refl)
    limited_take-Kept r [] (some unexpected_eof) s xs p fits ends own = (content s, p, fits)
    limited_take-Kept r (x ∷ bs) (some unexpected_eof) s xs p fits ends own = (content s, p, fits)
    limited_take-Kept r [] (some no_progress) s xs p fits ends own = (content s, p, fits)
    limited_take-Kept r (x ∷ bs) (some no_progress) s xs p fits ends own = (content s, p, fits)
    limited_take-Kept r [] (some over_metadata) s xs p fits ends own = (content s, p, fits)
    limited_take-Kept r (x ∷ bs) (some over_metadata) s xs p fits ends own = (content s, p, fits)
    limited_take-Kept r [] (some (failed f)) s xs p fits ends own = (content s, p, fits)
    limited_take-Kept r (x ∷ bs) (some (failed f)) s xs p fits ends own = (content s, p, fits)

    limited_probe-Kept :
        (r : LimitedReader S) (bytes : List ℕ) (e : Option ReadError) (s : S) (xs : List ℕ)
        → xs ≡ bytes ++ content s
        → r.remaining ≡ 0
        → (e ≡ some eof → content s ≡ [])
        → e ≢ some over_limit
        → let o = limited_probe b r (record { bytes = bytes; error = e }) s in
          Kept r.remaining xs o.0.bytes o.1 o.0.error
    unfolding limited_probe
    limited_probe-Kept r (x ∷ bs) e s xs p room ends own =
        (rw room refl, omega (arith, ap length p))
    limited_probe-Kept r [] none s xs p room ends own = (xs, refl, omega arith)
    limited_probe-Kept r [] (some eof) s xs p room ends own =
        (sym (p ∙ ends refl), omega (arith, ap length p, ap length (ends refl)))
    limited_probe-Kept r [] (some over_limit) s xs p room ends own = absurd (own refl)
    limited_probe-Kept r [] (some unexpected_eof) s xs p room ends own = (xs, refl, omega arith)
    limited_probe-Kept r [] (some no_progress) s xs p room ends own = (xs, refl, omega arith)
    limited_probe-Kept r [] (some over_metadata) s xs p room ends own = (xs, refl, omega arith)
    limited_probe-Kept r [] (some (failed f)) s xs p room ends own = (xs, refl, omega arith)

  module _ (b : Body S) (law : IsReader b content) where
    limited_open-Kept :
        (n : ℕ) (r : LimitedReader S)
        → r.terminal_error ≡ none
        → let o = limited_open b n r in Kept r.remaining (content r.body) o.0.bytes o.1 o.0.error
    unfolding limited_open
    limited_open-Kept n r live = elim (Bool-cases (eqb n 0)) [
      | inl empty ↦ rw (empty, limited_open) (content r.body, refl, inl (live, refl), omega arith)
      | inr full ↦
          rw (full, limited_open)
            (elim (Bool-cases (is_positive r.remaining)) [
              | inl room ↦
                  rw (room, limited_open)
                    (limited_take-Kept b r _ _ _ (content r.body)
                      (law.next (smaller n r.remaining) r.body)
                      (ground (arith, law.fits (smaller n r.remaining) r.body))
                      (law.ends (smaller n r.remaining) r.body)
                      (law.own_limit (smaller n r.remaining) r.body))
              | inr none_left ↦
                  rw (none_left, limited_open)
                    (limited_probe-Kept b r _ _ _ (content r.body) (law.next 1 r.body)
                      (ground arith) (law.ends 1 r.body) (law.own_limit 1 r.body))
            ])
    ]

    pub limited_read-Kept :
        (n : ℕ) (r : LimitedReader S) (xs : List ℕ)
        → Left r xs
        → let o = limited_read b n r in Kept r.remaining xs o.0.bytes o.1 o.0.error
    unfolding limited_read
    limited_read-Kept n r xs (inr (e, done)) =
        rw (e, limited_read) (sym done, omega (arith, ap length done))
    limited_read-Kept n r xs (inl (e, left)) =
        rw (e, limited_read, ← left) (limited_open-Kept n r e)

    append_Kept :
        (m m' : ℕ) (xs bytes ys bs : List ℕ) (e : Option ReadError) (r : LimitedReader S)
        → xs ≡ bytes ++ ys
        → m ≡ length bytes + m'
        → Kept m' ys bs r e
        → Kept m xs (bytes ++ bs) r e
    append_Kept m m' xs bytes ys bs none r p q (zs, k, left, n) =
        (zs, regroup bytes bs zs p k, left, omega (arith, length-append bytes bs))
    append_Kept m m' xs bytes ys bs (some eof) r p q (k, n) =
        (ap (◌++◌ bytes) k ∙ sym p, omega (arith, ap length p, length-append bytes ys))
    append_Kept m m' xs bytes ys bs (some over_limit) r p q (k, n) = (
      ap (◌++◌ bytes) k
          ∙ ap (λ j. bytes ++ take j ys) (omega arith)
          ∙ sym (take-append bytes ys m (omega arith))
          ∙ ap (take m) (sym p),
      omega (arith, ap length p, length-append bytes ys),
    )
    append_Kept m m' xs bytes ys bs (some unexpected_eof) r p q (zs, k, n) =
        (zs, regroup bytes bs zs p k, omega (arith, length-append bytes bs))
    append_Kept m m' xs bytes ys bs (some no_progress) r p q (zs, k, n) =
        (zs, regroup bytes bs zs p k, omega (arith, length-append bytes bs))
    append_Kept m m' xs bytes ys bs (some over_metadata) r p q (zs, k, n) =
        (zs, regroup bytes bs zs p k, omega (arith, length-append bytes bs))
    append_Kept m m' xs bytes ys bs (some (failed f)) r p q (zs, k, n) =
        (zs, regroup bytes bs zs p k, omega (arith, length-append bytes bs))

    conclude-Kept :
        (m : ℕ) (xs bytes : List ℕ) (e : Option ReadError) (r : LimitedReader S)
        (o : Outcome (LimitedReader S))
        → Kept m xs bytes r e
        → ((ys : List ℕ) → Left r ys → Kept r.remaining ys o.delivered o.reader o.error)
        → let p = conclude e bytes r o in Kept m xs p.delivered p.reader p.error
    conclude-Kept m xs bytes none r o (ys, p, left, q) rest =
        append_Kept m r.remaining xs bytes ys o.delivered o.error o.reader p q (rest ys left)
    conclude-Kept m xs bytes (some eof) r o k rest = k
    conclude-Kept m xs bytes (some over_limit) r o k rest = k
    conclude-Kept m xs bytes (some unexpected_eof) r o k rest = k
    conclude-Kept m xs bytes (some no_progress) r o k rest = k
    conclude-Kept m xs bytes (some over_metadata) r o k rest = k
    conclude-Kept m xs bytes (some (failed f)) r o k rest = k

    -- For every way of reading, from a reader that may deliver `m` bytes and has `xs` left.
    pub read_until-Kept :
        (ns : List ℕ) (r : LimitedReader S) (xs : List ℕ)
        → Left r xs
        → let o = read_until (limited_read b) ns r in
          Kept r.remaining xs o.delivered o.reader o.error
    unfolding read_until
    read_until-Kept [] r xs left = (xs, refl, left, omega arith)
    read_until-Kept (n ∷ ns) r xs left =
        conclude-Kept r.remaining xs _ _ _ (read_until (limited_read b) ns (limited_read b n r).1)
          (limited_read-Kept n r xs left) (λ ys l. read_until-Kept ns (limited_read b n r).1 ys l)

module _ {S : Type 0} (b : Body S) (content : S → List ℕ) (law : IsReader b content) (ns : List ℕ)
    (s : S) (m : ℕ) where
  abbrev outcome : Outcome (LimitedReader S)
  outcome = read_until (limited_read b) ns (limited s m)

  outcome-Facts : Facts m (content s) outcome.delivered outcome.error
  outcome-Facts =
      facts content m (content s) outcome.delivered outcome.reader outcome.error
        (read_until-Kept content b law ns (limited s m) (content s) (inl (refl, refl)))

  -- However a caller reads a body that keeps the contract of io.Reader through a reader that allows
  -- `m` bytes: if it meets an end of file, it received the whole body, which has at most `m` bytes.
  pub limited_complete :
      (read_until (limited_read b) ns (limited s m)).error ≡ some eof
      → ((read_until (limited_read b) ns (limited s m)).delivered ≡ content s)
        × (length (content s) ≤ m)
  limited_complete = outcome-Facts.0

  -- However a caller reads a body that keeps the contract of io.Reader through a reader that allows
  -- `m` bytes: if it meets ErrTooLarge, the body has more than `m` bytes, and it received the first
  -- `m` of them.
  pub limited_refused :
      (read_until (limited_read b) ns (limited s m)).error ≡ some over_limit
      → ((read_until (limited_read b) ns (limited s m)).delivered ≡ take m (content s))
        × (m < length (content s))
  limited_refused = outcome-Facts.1

  -- However a caller reads a body that keeps the contract of io.Reader through a reader that allows
  -- `m` bytes: it received a beginning of the body, of at most `m` bytes.
  pub limited_prefix :
      ((ys : List ℕ) × (content s ≡ (read_until (limited_read b) ns (limited s m)).delivered ++ ys))
      × (length (read_until (limited_read b) ns (limited s m)).delivered ≤ m)
  limited_prefix = (outcome-Facts.2, outcome-Facts.3)
