-- ===== src/Attachments/Readers/Source.antt =====
-- What expectedSizeReadCloser relies on in the body below it, which io.Reader promises: a contract on
-- a body, as a relation between a state and the bytes that it still holds.
use dingtalk_oa_attachment_b.Prelude.{
  ℕ, ◌≤◌, ◌≡◌, ◌∙◌, sym, List, [], ◌++◌, Option, none, some, length,
}
use mathlib.Core.List.{append-nil}
use dingtalk_oa_attachment_b.Attachments.Readers.{
  ReadError, eof, unexpected_eof, no_progress, over_limit, over_metadata, failed, Body,
}

module _ {S : Type 0} (Holds : S → List ℕ → Type 0) where
  -- What bytes and an error say of the `xs` that were held. A body that returned an error promises
  -- nothing of the reads that follow. It does not make the error that the reader above it makes.
  abbrev pub Gives : List ℕ → List ℕ → S → Option ReadError → Type 0
  Gives xs bytes s none = (ys : List ℕ) × (xs ≡ bytes ++ ys) × Holds s ys
  Gives xs bytes s (some eof) = bytes ≡ xs
  Gives xs bytes s (some over_metadata) = ⊥
  Gives xs bytes s (some e) = (ys : List ℕ) × (xs ≡ bytes ++ ys)

  pub Gives-prefix :
      (xs bytes : List ℕ) (s : S) (e : Option ReadError)
      → Gives xs bytes s e
      → (ys : List ℕ) × (xs ≡ bytes ++ ys)
  Gives-prefix xs bytes s none (ys, p, h) = (ys, p)
  Gives-prefix xs bytes s (some eof) p = ([], sym p ∙ sym (append-nil bytes))
  Gives-prefix xs bytes s (some over_metadata) g = absurd g
  Gives-prefix xs bytes s (some unexpected_eof) g = g
  Gives-prefix xs bytes s (some no_progress) g = g
  Gives-prefix xs bytes s (some over_limit) g = g
  Gives-prefix xs bytes s (some (failed f)) g = g

-- A read returns at most as many bytes as fit, the next ones of those held, and io.EOF only with the
-- last of them.
pub record IsSource {S : Type 0} (b : Body S) (Holds : S → List ℕ → Type 0) : Type 0 where
  pub fits : (n : ℕ) (s : S) (xs : List ℕ) → Holds s xs → length (b.read n s).0.bytes ≤ n
  pub answers :
      (n : ℕ) (s : S) (xs : List ℕ)
      → Holds s xs
      → Gives Holds xs (b.read n s).0.bytes (b.read n s).1 (b.read n s).0.error
