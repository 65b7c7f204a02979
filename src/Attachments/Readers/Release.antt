-- ===== src/Attachments/Readers/Release.antt =====
-- internal/attachments/service.go: releaseReadCloser, the outermost reader of a download, which gives
-- the slot back. The calls of its `release` are counted.
use dingtalk_oa_attachment_b.Prelude.{
  ℕ, ◌+◌, ◌≡◌, refl, sym, subst, Bool, true, false, ◌||◌, List, [], ◌∷◌, Option, none, some,
  Bool-cases, inl, inr, if◌then◌else◌,
}
use dingtalk_oa_attachment_b.Attachments.Readers.{Body, Chunk, ReadError}

pub record ReleaseReader (S : Type 0) : Type 0 where
  pub body : S
  pub is_done : Bool
  pub releases : ℕ

-- A call of Read with the length of its buffer, or of Close.
pub data Use : Type 0 where
  reads : ℕ → Use
  closes : Use

abbrev pub has_error : Option ReadError → Bool
has_error none = false
has_error (some _) = true

abbrev pub opened : {S : Type 0} → S → ReleaseReader S
opened s = record { body = s; is_done = false; releases = 0 }

-- releaseOnce
unfoldable pub release_once : {S : Type 0} → ReleaseReader S → ReleaseReader S
release_once r =
    if r.is_done then r else record { body = r.body; is_done = true; releases = r.releases + 1 }

module _ {S : Type 0} (b : Body S) where
  -- releaseReadCloser.Read
  unfoldable pub release_read : ℕ → ReleaseReader S → Chunk × ReleaseReader S
  release_read n r =
      let (c, s) = b.read n r.body in
      (c, if has_error c.error then release_once (record r { body = s }) else record r { body = s })

  -- releaseReadCloser.Close
  unfoldable pub release_close : ReleaseReader S → ReleaseReader S
  release_close r = release_once (record r { body = b.close r.body })

  unfoldable pub use_all : ReleaseReader S → List Use → ReleaseReader S
  use_all r [] = r
  use_all r (reads n ∷ uses) = use_all (release_read n r).1 uses
  use_all r (closes ∷ uses) = use_all (release_close r) uses

  -- Whether a body was closed, or a read of it returned an error.
  unfoldable pub is_over : S → List Use → Bool
  is_over s [] = false
  is_over s (reads n ∷ uses) = has_error (b.read n s).0.error || is_over (b.read n s).1 uses
  is_over s (closes ∷ uses) = true

  spent :
      (s : S) (k : ℕ) (uses : List Use)
      → (use_all (record { body = s; is_done = true; releases = k }) uses).releases ≡ k
  unfolding use_all release_read release_close release_once
  spent s k [] = refl
  spent s k (reads n ∷ uses) =
      let r : ReleaseReader S = record { body = (b.read n s).1; is_done = true; releases = k } in
      elim (Bool-cases (has_error (b.read n s).0.error)) [
        | inl e ↦
            subst (λ x. (use_all (if x then r else r) uses).releases ≡ k) (sym e)
              (spent (b.read n s).1 k uses)
        | inr e ↦
            subst (λ x. (use_all (if x then r else r) uses).releases ≡ k) (sym e)
              (spent (b.read n s).1 k uses)
      ]
  spent s k (closes ∷ uses) = spent (b.close s) k uses

  abbrev Counted : S → List Use → Bool → Type 0
  Counted s uses x =
      (use_all (if x then record { body = s; is_done = true; releases = 1 } else opened s)
        uses).releases
      ≡ (if x || is_over s uses then 1 else 0)

  -- However a download is read and closed, its slot is given back once if a read returned an error or
  -- the download was closed, and not at all if neither happened.
  pub releases-use_all :
      (s : S) (uses : List Use)
      → (use_all (opened s) uses).releases ≡ (if is_over s uses then 1 else 0)
  unfolding use_all release_read release_close release_once is_over
  releases-use_all s [] = refl
  releases-use_all s (reads n ∷ uses) = elim (Bool-cases (has_error (b.read n s).0.error)) [
    | inl e ↦ subst (Counted (b.read n s).1 uses) (sym e) (spent (b.read n s).1 1 uses)
    | inr e ↦ subst (Counted (b.read n s).1 uses) (sym e) (releases-use_all (b.read n s).1 uses)
  ]
  releases-use_all s (closes ∷ uses) = spent (b.close s) 1 uses
