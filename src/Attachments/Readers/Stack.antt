-- ===== src/Attachments/Readers/Stack.antt =====
-- limitedReadCloser below expectedSizeReadCloser, as Service.Download stacks what Open returns.
use dingtalk_oa_attachment_b.Prelude.{
  ℕ, ◌≤◌, ◌≢◌, refl, inl, inr, List, [], ◌∷◌, Option, none, some, is_positive, eqb, length, arith,
  Bool-cases,
}
use dingtalk_oa_attachment_b.Attachments.Readers.{
  ReadError, Chunk, eof, unexpected_eof, no_progress, over_limit, over_metadata, failed, Body,
  IsReader, LimitedReader, smaller, limited_body, limited_open, limited_take, limited_probe,
  limited_read,
}
use dingtalk_oa_attachment_b.Attachments.Readers.Source.{Gives, IsSource}
use dingtalk_oa_attachment_b.Attachments.Readers.Limited.{Left, Kept, facts, limited_read-Kept}

-- One call of Read: no more bytes than fit the buffer, and never the error that the reader above makes.
abbrev IsFitting : ℕ → Chunk → Type 0
IsFitting n c = (length c.bytes ≤ n) × (c.error ≢ some over_metadata)

module _ {S : Type 0} (b : Body S) where
  limited_take-IsFitting :
      (r : LimitedReader S) (bytes : List ℕ) (e : Option ReadError) (s : S) (n : ℕ)
      → length bytes ≤ n
      → e ≢ some over_metadata
      → IsFitting n (limited_take b r (record { bytes = bytes; error = e }) s).0
  unfolding limited_take
  limited_take-IsFitting r [] none s n fits own = (fits, own)
  limited_take-IsFitting r (x ∷ bs) none s n fits own = (fits, own)
  limited_take-IsFitting r [] (some e) s n fits own = (fits, own)
  limited_take-IsFitting r (x ∷ bs) (some eof) s n fits own = (fits, λ h. absurd (cc))
  limited_take-IsFitting r (x ∷ bs) (some unexpected_eof) s n fits own = (fits, own)
  limited_take-IsFitting r (x ∷ bs) (some no_progress) s n fits own = (fits, own)
  limited_take-IsFitting r (x ∷ bs) (some over_limit) s n fits own = (fits, own)
  limited_take-IsFitting r (x ∷ bs) (some over_metadata) s n fits own = (fits, own)
  limited_take-IsFitting r (x ∷ bs) (some (failed f)) s n fits own = (fits, own)

  limited_probe-IsFitting :
      (r : LimitedReader S) (bytes : List ℕ) (e : Option ReadError) (s : S) (n : ℕ)
      → e ≢ some over_metadata
      → IsFitting n (limited_probe b r (record { bytes = bytes; error = e }) s).0
  unfolding limited_probe
  limited_probe-IsFitting r (x ∷ bs) e s n own = (omega arith, λ h. absurd (cc))
  limited_probe-IsFitting r [] none s n own = (omega arith, λ h. absurd (cc))
  limited_probe-IsFitting r [] (some e) s n own = (omega arith, own)

module _ {S : Type 0} (b : Body S) (content : S → List ℕ) (law : IsReader b content) where
  limited_open-IsFitting : (n : ℕ) (r : LimitedReader S) → IsFitting n (limited_open b n r).0
  unfolding limited_open
  limited_open-IsFitting n r = elim (Bool-cases (eqb n 0)) [
    | inl empty ↦ rw (empty, limited_open) (omega arith, λ h. absurd (cc))
    | inr full ↦
        rw (full, limited_open)
          (elim (Bool-cases (is_positive r.remaining)) [
            | inl room ↦
                rw (room, limited_open)
                  (limited_take-IsFitting b r _ _ _ n
                    (ground (arith, law.fits (smaller n r.remaining) r.body))
                    (law.own_metadata (smaller n r.remaining) r.body))
            | inr none_left ↦
                rw (none_left, limited_open)
                  (limited_probe-IsFitting b r _ _ _ n (law.own_metadata 1 r.body))
          ])
  ]

  limited_read-IsFitting :
      (n : ℕ) (r : LimitedReader S) (xs : List ℕ)
      → Left content r xs
      → IsFitting n (limited_read b n r).0
  unfolding limited_read
  limited_read-IsFitting n r xs (inr (e, done)) =
      rw (e, limited_read) (omega arith, λ h. absurd (cc))
  limited_read-IsFitting n r xs (inl (e, left)) = rw (e, limited_read) (limited_open-IsFitting n r)

  Kept-Gives :
      (m : ℕ) (xs bytes : List ℕ) (r : LimitedReader S) (e : Option ReadError)
      → Kept content m xs bytes r e
      → e ≢ some over_metadata
      → Gives (Left content) xs bytes r e
  Kept-Gives m xs bytes r none (ys, p, left, q) own = (ys, p, left)
  Kept-Gives m xs bytes r (some eof) k own = k.0
  Kept-Gives m xs bytes r (some over_metadata) k own = absurd (own refl)
  Kept-Gives m xs bytes r (some over_limit) k own =
      (facts content m xs bytes r (some over_limit) k).2
  Kept-Gives m xs bytes r (some unexpected_eof) (ys, p, n) own = (ys, p)
  Kept-Gives m xs bytes r (some no_progress) (ys, p, n) own = (ys, p)
  Kept-Gives m xs bytes r (some (failed f)) (ys, p, n) own = (ys, p)

  -- Over a body that keeps the contract of io.Reader and makes no error of the program's own readers,
  -- limitedReadCloser keeps the contract that expectedSizeReadCloser asks of the body below it: a read
  -- returns at most as many bytes as fit, the next ones of those not delivered yet, an end of file only
  -- with the last of them, and never the error that expectedSizeReadCloser makes.
  pub limited_body-IsSource : IsSource (limited_body b) (Left content)
  limited_body-IsSource = record {
    fits = λ n r xs left. (limited_read-IsFitting n r xs left).0;
    answers = λ n r xs left.
        Kept-Gives r.remaining xs _ _ _ (limited_read-Kept content b law n r xs left)
          (limited_read-IsFitting n r xs left).1;
  }
