-- ===== src/Attachments/Readers/Runs.antt =====
-- A caller that reads until an error, with a buffer of its choice for each read.
use dingtalk_oa_attachment_b.Prelude.{ℕ, ◌≡◌, ◌∙◌, ap, sym, List, [], ◌∷◌, ◌++◌, Option, none, some}
use mathlib.Core.List.{append_assoc}
use dingtalk_oa_attachment_b.Attachments.Readers.{Chunk, ReadError}

pub record Outcome (R : Type 0) : Type 0 where
  pub delivered : List ℕ
  pub error : Option ReadError
  pub reader : R

module _ {R : Type 0} where
  -- The outcome from one read, and from the reads after it if it returned no error.
  abbrev pub conclude : Option ReadError → List ℕ → R → Outcome R → Outcome R
  conclude none bytes r o = record o { delivered = bytes ++ o.delivered }
  conclude (some e) bytes r o = record { delivered = bytes; error = some e; reader = r }

module _ {R : Type 0} (read : ℕ → R → Chunk × R) where
  unfoldable pub read_until : List ℕ → R → Outcome R
  read_until [] r = record { delivered = []; error = none; reader = r }
  read_until (n ∷ ns) r = let (c, r') = read n r in conclude c.error c.bytes r' (read_until ns r')

pub regroup :
    {xs ys : List ℕ} (bytes bs zs : List ℕ)
    → xs ≡ bytes ++ ys
    → ys ≡ bs ++ zs
    → xs ≡ (bytes ++ bs) ++ zs
regroup bytes bs zs p k = p ∙ ap (◌++◌ bytes) k ∙ sym (append_assoc bytes bs zs)
