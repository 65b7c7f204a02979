-- ===== src/Attachments/Readers.antt =====
-- The readers that stand between an upstream body and the response: limitedReadCloser of
-- internal/attachments/downloader.go and expectedSizeReadCloser of internal/attachments/service.go.
-- Service.Download puts the second over the first, and Open puts the first over the body of the HTTP
-- response, which is a parameter. Each takes the body below it as an argument.
pub mod Source
pub mod Limited
pub mod Expected
pub mod Runs
pub mod Release
pub mod Stack
use dingtalk_oa_attachment_b.Prelude.{
  ℕ, zero, suc, ◌+◌, ◌-◌, ◌≤◌, ◌≡◌, ◌≢◌, Bool, true, false, ◌&&◌, List, [], ◌∷◌, ◌++◌, Option, none,
  some, eqb, ltb, is_positive, leb, length, if◌then◌else◌, ◌⊎◌,
}
use dingtalk_oa_attachment_b.Domain.Errors.{Fault}

-- `eof` is io.EOF itself, which the code compares with `==`. The readers make `over_limit`
-- (ErrTooLarge) and `over_metadata` (ErrUpstream); `failed` is any other error.
pub data ReadError : Type 0 where
  eof unexpected_eof no_progress over_limit over_metadata : ReadError
  failed : Fault → ReadError

-- What a call of Read returns: the bytes that it put into the buffer, and its error.
pub record Chunk : Type 0 where
  pub bytes : List ℕ
  pub error : Option ReadError

-- An io.ReadCloser with states in `S`. A read is given the length of the buffer.
pub record Body (S : Type 0) : Type 0 where
  pub read : ℕ → S → Chunk × S
  pub close : S → S

-- The contract of io.Reader, for a body whose bytes are `content`: a read returns at most as many
-- bytes as fit, the next ones, and io.EOF only at the end. The body makes none of the errors that
-- the readers here make.
pub record IsReader {S : Type 0} (b : Body S) (content : S → List ℕ) : Type 0 where
  pub fits : (n : ℕ) (s : S) → length (b.read n s).0.bytes ≤ n
  pub next : (n : ℕ) (s : S) → content s ≡ (b.read n s).0.bytes ++ content (b.read n s).1
  pub ends : (n : ℕ) (s : S) → (b.read n s).0.error ≡ some eof → content (b.read n s).1 ≡ []
  pub own_limit : (n : ℕ) (s : S) → (b.read n s).0.error ≢ some over_limit
  pub own_metadata : (n : ℕ) (s : S) → (b.read n s).0.error ≢ some over_metadata

abbrev pub is_eof : Option ReadError → Bool
is_eof (some eof) = true
is_eof (some unexpected_eof) = false
is_eof (some no_progress) = false
is_eof (some over_limit) = false
is_eof (some over_metadata) = false
is_eof (some (failed f)) = false
is_eof none = false

abbrev pub smaller : ℕ → ℕ → ℕ
smaller a b = if ltb b a then b else a

pub record LimitedReader (S : Type 0) : Type 0 where
  pub body : S
  pub remaining : ℕ
  pub terminal_error : Option ReadError

pub record ExpectedReader (S : Type 0) : Type 0 where
  pub body : S
  pub remaining : ℕ

abbrev nothing : Option ReadError → Chunk
nothing e = record { bytes = []; error = e }

module _ {S : Type 0} (b : Body S) where
  -- The branch of limitedReadCloser.Read with bytes left: what the body's result does to the reader.
  unfoldable pub limited_take : LimitedReader S → Chunk → S → Chunk × LimitedReader S
  limited_take r c s =
      let left = r.remaining - length c.bytes in
      if is_positive (length c.bytes) && is_eof c.error
      then (
        record { bytes = c.bytes; error = none },
        record { body = b.close s; remaining = left; terminal_error = some eof },
      )
      else elim c.error [
        | none ↦ (c, record { body = s; remaining = left; terminal_error = none })
        | some e ↦ (c, record { body = b.close s; remaining = left; terminal_error = some e })
      ]

  abbrev stopped : LimitedReader S → S → ReadError → LimitedReader S
  stopped r s e = record { body = b.close s; remaining = r.remaining; terminal_error = some e }

  -- The branch with no bytes left, which asks for one byte more.
  unfoldable pub limited_probe : LimitedReader S → Chunk → S → Chunk × LimitedReader S
  limited_probe r c s =
      if is_positive (length c.bytes)
      then (nothing (some over_limit), stopped r s over_limit)
      else elim c.error [
        | some e ↦ (nothing (some e), stopped r s e)
        | none ↦ (nothing (some no_progress), stopped r s no_progress)
      ]

  limited_open : ℕ → LimitedReader S → Chunk × LimitedReader S
  unfolding limited_take limited_probe
  limited_open n r =
      if eqb n 0
      then (nothing none, r)
      else if is_positive r.remaining
      then (let (c, s) = b.read (smaller n r.remaining) r.body in limited_take r c s)
      else (let (c, s) = b.read 1 r.body in limited_probe r c s)

  -- limitedReadCloser.Read
  unfoldable pub limited_read : ℕ → LimitedReader S → Chunk × LimitedReader S
  unfolding limited_open
  limited_read n r = elim r.terminal_error [
    | some e ↦ (nothing (some e), r)
    | none ↦ limited_open n r
  ]

  -- limitedReadCloser with its two methods: what Open returns, and what the next reader reads.
  abbrev pub limited_body : Body (LimitedReader S)
  limited_body = record { read = limited_read; close = λ r. record r { body = b.close r.body } }

  abbrev missing : ℕ → Chunk → Chunk
  missing left c =
      if is_eof c.error && is_positive left then record c { error = some unexpected_eof } else c

  unfoldable pub expected_take : ExpectedReader S → Chunk → S → Chunk × ExpectedReader S
  expected_take r c s =
      let left = r.remaining - length c.bytes in
      (missing left c, record { body = s; remaining = left })

  unfoldable pub expected_probe : ExpectedReader S → Chunk → S → Chunk × ExpectedReader S
  expected_probe r c s = (
    nothing (if is_positive (length c.bytes) then some over_metadata else c.error),
    record r { body = s },
  )

  -- expectedSizeReadCloser.Read
  unfoldable pub expected_read : ℕ → ExpectedReader S → Chunk × ExpectedReader S
  unfolding expected_take expected_probe
  expected_read n r =
      if eqb n 0
      then (nothing none, r)
      else if is_positive r.remaining
      then (let (c, s) = b.read (smaller n r.remaining) r.body in expected_take r c s)
      else (let (c, s) = b.read 1 r.body in expected_probe r c s)
