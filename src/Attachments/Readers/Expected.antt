-- ===== src/Attachments/Readers/Expected.antt =====
-- expectedSizeReadCloser: what a caller receives of a body whose size the approval states.
use dingtalk_oa_attachment_b.Prelude.{
  ℕ, ◌+◌, ◌-◌, ◌≤◌, ◌<◌, ◌≡◌, refl, sym, ap, ◌∙◌, inl, inr, List, [], ◌∷◌, ◌++◌, Option, none, some,
  is_positive, eqb, length, length-append, arith, Bool-cases,
}
use mathlib.Core.List.{append-nil}
use dingtalk_oa_attachment_b.Attachments.Readers.{
  ReadError, eof, unexpected_eof, no_progress, over_limit, over_metadata, failed, Body,
  ExpectedReader, smaller, expected_take, expected_probe, expected_read,
}
use dingtalk_oa_attachment_b.Attachments.Readers.Source.{Gives, Gives-prefix, IsSource}
use dingtalk_oa_attachment_b.Attachments.Readers.Runs.{Outcome, conclude, read_until, regroup}

-- The reader that Download puts over a body whose size is stated.
abbrev pub expected : {S : Type 0} → S → ℕ → ExpectedReader S
expected s m = record { body = s; remaining = m }

module _ {S : Type 0} (Holds : S → List ℕ → Type 0) where
  -- What bytes and an error say of the `xs` that were held, when `m` bytes were still stated.
  abbrev pub Kept : ℕ → List ℕ → List ℕ → ExpectedReader S → Option ReadError → Type 0
  Kept m xs bytes r none =
      (ys : List ℕ) × (xs ≡ bytes ++ ys) × Holds r.body ys × (m ≡ length bytes + r.remaining)
  Kept m xs bytes r (some eof) = (bytes ≡ xs) × (length xs ≡ m)
  Kept m xs bytes r (some over_metadata) =
      (ys : List ℕ) × (xs ≡ bytes ++ ys) × (length bytes ≡ m) × (m < length xs)
  Kept m xs bytes r (some e) = (ys : List ℕ) × (xs ≡ bytes ++ ys) × (length bytes ≤ m)

  module _ (b : Body S) where
    expected_take-Kept :
        (r : ExpectedReader S) (bytes : List ℕ) (e : Option ReadError) (s : S) (xs : List ℕ)
        → Gives Holds xs bytes s e
        → length bytes ≤ r.remaining
        → let o = expected_take b r (record { bytes = bytes; error = e }) s in
          Kept r.remaining xs o.0.bytes o.1 o.0.error
    unfolding expected_take
    expected_take-Kept r bytes none s xs (ys, p, h) fits = (ys, p, h, omega arith)
    expected_take-Kept r bytes (some eof) s xs p fits =
        elim (Bool-cases (is_positive (r.remaining - length bytes))) [
          | inl short ↦ rw (short, expected_take) ([], sym p ∙ sym (append-nil bytes), fits)
          | inr full ↦ rw (full, expected_take) (p, ground (arith, ap length p))
        ]
    expected_take-Kept r bytes (some over_metadata) s xs g fits = absurd g
    expected_take-Kept r bytes (some unexpected_eof) s xs (ys, p) fits = (ys, p, fits)
    expected_take-Kept r bytes (some no_progress) s xs (ys, p) fits = (ys, p, fits)
    expected_take-Kept r bytes (some over_limit) s xs (ys, p) fits = (ys, p, fits)
    expected_take-Kept r bytes (some (failed f)) s xs (ys, p) fits = (ys, p, fits)

    expected_probe-Kept :
        (r : ExpectedReader S) (bytes : List ℕ) (e : Option ReadError) (s : S) (xs : List ℕ)
        → Gives Holds xs bytes s e
        → r.remaining ≡ 0
        → let o = expected_probe b r (record { bytes = bytes; error = e }) s in
          Kept r.remaining xs o.0.bytes o.1 o.0.error
    unfolding expected_probe
    expected_probe-Kept r (x ∷ bs) e s xs g room =
        let (ys, p) = Gives-prefix Holds xs (x ∷ bs) s e g in
        (xs, refl, omega arith, omega (arith, ap length p))
    expected_probe-Kept r [] none s xs (ys, p, h) room = (ys, p, h, omega arith)
    expected_probe-Kept r [] (some eof) s xs p room = (p, omega (arith, ap length p))
    expected_probe-Kept r [] (some over_metadata) s xs g room = absurd g
    expected_probe-Kept r [] (some unexpected_eof) s xs g room = (xs, refl, omega arith)
    expected_probe-Kept r [] (some no_progress) s xs g room = (xs, refl, omega arith)
    expected_probe-Kept r [] (some over_limit) s xs g room = (xs, refl, omega arith)
    expected_probe-Kept r [] (some (failed f)) s xs g room = (xs, refl, omega arith)

  module _ (b : Body S) (law : IsSource b Holds) where
    expected_read-Kept :
        (n : ℕ) (r : ExpectedReader S) (xs : List ℕ)
        → Holds r.body xs
        → let o = expected_read b n r in Kept r.remaining xs o.0.bytes o.1 o.0.error
    unfolding expected_read
    expected_read-Kept n r xs h = elim (Bool-cases (eqb n 0)) [
      | inl empty ↦ rw (empty, expected_read) (xs, refl, h, omega arith)
      | inr full ↦
          rw (full, expected_read)
            (elim (Bool-cases (is_positive r.remaining)) [
              | inl room ↦
                  rw (room, expected_read)
                    (expected_take-Kept b r _ _ _ xs
                      (law.answers (smaller n r.remaining) r.body xs h)
                      (ground (arith, law.fits (smaller n r.remaining) r.body xs h)))
              | inr none_left ↦
                  rw (none_left, expected_read)
                    (expected_probe-Kept b r _ _ _ xs (law.answers 1 r.body xs h) (ground arith))
            ])
    ]

    append_Kept :
        (m m' : ℕ) (xs bytes ys bs : List ℕ) (e : Option ReadError) (r : ExpectedReader S)
        → xs ≡ bytes ++ ys
        → m ≡ length bytes + m'
        → Kept m' ys bs r e
        → Kept m xs (bytes ++ bs) r e
    append_Kept m m' xs bytes ys bs none r p q (zs, k, h, n) =
        (zs, regroup bytes bs zs p k, h, omega (arith, length-append bytes bs))
    append_Kept m m' xs bytes ys bs (some eof) r p q (k, n) =
        (ap (◌++◌ bytes) k ∙ sym p, omega (arith, ap length p, length-append bytes ys))
    append_Kept m m' xs bytes ys bs (some over_metadata) r p q (zs, k, n, l) = (
      zs,
      regroup bytes bs zs p k,
      omega (arith, length-append bytes bs),
      omega (arith, ap length p, length-append bytes ys),
    )
    append_Kept m m' xs bytes ys bs (some unexpected_eof) r p q (zs, k, n) =
        (zs, regroup bytes bs zs p k, omega (arith, length-append bytes bs))
    append_Kept m m' xs bytes ys bs (some no_progress) r p q (zs, k, n) =
        (zs, regroup bytes bs zs p k, omega (arith, length-append bytes bs))
    append_Kept m m' xs bytes ys bs (some over_limit) r p q (zs, k, n) =
        (zs, regroup bytes bs zs p k, omega (arith, length-append bytes bs))
    append_Kept m m' xs bytes ys bs (some (failed f)) r p q (zs, k, n) =
        (zs, regroup bytes bs zs p k, omega (arith, length-append bytes bs))

    conclude-Kept :
        (m : ℕ) (xs bytes : List ℕ) (e : Option ReadError) (r : ExpectedReader S)
        (o : Outcome (ExpectedReader S))
        → Kept m xs bytes r e
        → ((ys : List ℕ) → Holds r.body ys → Kept r.remaining ys o.delivered o.reader o.error)
        → let p = conclude e bytes r o in Kept m xs p.delivered p.reader p.error
    conclude-Kept m xs bytes none r o (ys, p, h, q) rest =
        append_Kept m r.remaining xs bytes ys o.delivered o.error o.reader p q (rest ys h)
    conclude-Kept m xs bytes (some eof) r o k rest = k
    conclude-Kept m xs bytes (some over_metadata) r o k rest = k
    conclude-Kept m xs bytes (some unexpected_eof) r o k rest = k
    conclude-Kept m xs bytes (some no_progress) r o k rest = k
    conclude-Kept m xs bytes (some over_limit) r o k rest = k
    conclude-Kept m xs bytes (some (failed f)) r o k rest = k

    pub read_until-Kept :
        (ns : List ℕ) (r : ExpectedReader S) (xs : List ℕ)
        → Holds r.body xs
        → let o = read_until (expected_read b) ns r in
          Kept r.remaining xs o.delivered o.reader o.error
    unfolding read_until
    read_until-Kept [] r xs h = (xs, refl, h, omega arith)
    read_until-Kept (n ∷ ns) r xs h =
        conclude-Kept r.remaining xs _ _ _ (read_until (expected_read b) ns (expected_read b n r).1)
          (expected_read-Kept n r xs h) (λ ys l. read_until-Kept ns (expected_read b n r).1 ys l)

module _ {S : Type 0} (b : Body S) (Holds : S → List ℕ → Type 0) (law : IsSource b Holds)
    (ns : List ℕ) (s : S) (xs : List ℕ) (held : Holds s xs) (m : ℕ) where
  abbrev outcome : Outcome (ExpectedReader S)
  outcome = read_until (expected_read b) ns (expected s m)

  kept : Kept Holds m xs outcome.delivered outcome.reader outcome.error
  kept = read_until-Kept Holds b law ns (expected s m) xs held

  -- However a caller reads a body that holds the bytes `xs` and keeps the contract of a source, as the
  -- limitedReadCloser of Open does, through a reader that expects `m` bytes: if it meets an end of
  -- file, it received the whole body, which has exactly `m` bytes.
  pub expected_complete :
      (read_until (expected_read b) ns (expected s m)).error ≡ some eof
      → ((read_until (expected_read b) ns (expected s m)).delivered ≡ xs) × (length xs ≡ m)
  expected_complete h = rw h at kept

  -- However a caller reads a body that holds the bytes `xs` and keeps the contract of a source, as the
  -- limitedReadCloser of Open does, through a reader that expects `m` bytes: if it meets the error for
  -- a body that is too long, the body has more than `m` bytes, and it received the first `m` of them.
  pub expected_refused :
      (read_until (expected_read b) ns (expected s m)).error ≡ some over_metadata
      → (ys : List ℕ) × (xs ≡ (read_until (expected_read b) ns (expected s m)).delivered ++ ys)
        × (length (read_until (expected_read b) ns (expected s m)).delivered ≡ m)
        × (m < length xs)
  expected_refused h = rw h at kept
