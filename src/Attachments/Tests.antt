-- ===== src/Attachments/Tests.antt =====
-- Runs of internal/attachments on small inputs.
use dingtalk_oa_attachment_b.Prelude.{
  ℕ, zero, suc, ◌≤◌, ◌<◌, ◌≡◌, ◌≢◌, refl, sym, ◌⊎◌, inl, true, List, [], ◌∷◌, ◌++◌, none, some,
  Text, lit, All, length, take, drop, take-append-drop, length-take-le, is_empty, if◌then◌else◌,
  arith,
}
use dingtalk_oa_attachment_b.Runes.{byte_len}
use dingtalk_oa_attachment_b.Domain.Errors.{ok}
use dingtalk_oa_attachment_b.Attachments.Limiter.{
  DownloadLimiter, new_download_limiter, active, grant, release, acquires, releases, run,
}
use dingtalk_oa_attachment_b.Attachments.Limiter.Laws.{
  IsExact, run-new-IsExact, release_twice, active-release-grant,
}
use dingtalk_oa_attachment_b.Attachments.Readers.{
  Body, Chunk, IsReader, LimitedReader, limited_body, eof, over_limit, over_metadata, limited_read,
  limited_take, limited_probe, expected_read, expected_take, expected_probe,
}
use dingtalk_oa_attachment_b.Attachments.Readers.Source.{IsSource}
use dingtalk_oa_attachment_b.Attachments.Readers.Stack.{limited_body-IsSource}
use dingtalk_oa_attachment_b.Attachments.Readers.Release.{
  opened, reads, closes, use_all, is_over, releases-use_all,
}
use dingtalk_oa_attachment_b.Attachments.Readers.Runs.{read_until}
use dingtalk_oa_attachment_b.Attachments.Readers.Limited.{
  Left, limited, limited_complete, limited_refused, limited_prefix,
}
use dingtalk_oa_attachment_b.Attachments.Readers.Expected.{
  expected, expected_complete, expected_refused,
}
use dingtalk_oa_attachment_b.Attachments.Filename.{sanitize_filename, max_filename_bytes}
use dingtalk_oa_attachment_b.Attachments.Filename.Laws.{IsSafe, sanitize_filename-IsSafe}
use dingtalk_oa_attachment_b.Attachments.Downloader.{Network, dial_context}
use dingtalk_oa_attachment_b.Attachments.Downloader.Addresses.{v4, dotted}
use dingtalk_oa_attachment_b.Attachments.Downloader.Laws.{IsPublic, dial_context-IsPublic}

run-new-IsExact_example :
    IsExact
      (run (new_download_limiter 1) (acquires (lit "ann") ∷ acquires (lit "ann") ∷ releases 0 ∷ []))
run-new-IsExact_example =
    run-new-IsExact 1 (acquires (lit "ann") ∷ acquires (lit "ann") ∷ releases 0 ∷ [])

abbrev one_open : DownloadLimiter
one_open = grant (new_download_limiter 2) (lit "ann")

release_twice_example : release (release one_open 0) 0 ≡ release one_open 0
release_twice_example = release_twice one_open 0

active-release-grant_example :
    active (release (grant one_open (lit "ann")) (length one_open.handles)) (lit "ann")
    ≡ active one_open (lit "ann")
active-release-grant_example = active-release-grant one_open (lit "ann") (lit "ann")

-- A body that is the list of its bytes, and reports its end in a read of its own.
abbrev memory_chunk : ℕ → List ℕ → Chunk
memory_chunk n s = record { bytes = take n s; error = if is_empty s then some eof else none }

abbrev memory : Body (List ℕ)
memory = record { read = λ n s. (memory_chunk n s, drop n s); close = λ s. s }

abbrev bytes_of : List ℕ → List ℕ
bytes_of s = s

memory-ends : (n : ℕ) (s : List ℕ) → (memory_chunk n s).error ≡ some eof → drop n s ≡ []
memory-ends zero [] e = refl
memory-ends (suc n) [] e = refl
memory-ends n (x ∷ s) e = ground arith

memory-own :
    (n : ℕ) (s : List ℕ)
    → ((memory_chunk n s).error ≢ some over_limit) × ((memory_chunk n s).error ≢ some over_metadata)
memory-own n [] = (λ e. ground arith, λ e. ground arith)
memory-own n (x ∷ s) = (λ e. ground arith, λ e. ground arith)

memory-IsReader : IsReader memory bytes_of
memory-IsReader = record {
  fits = λ n s. length-take-le n s;
  next = λ n s. sym (take-append-drop n s);
  ends = memory-ends;
  own_limit = λ n s. (memory-own n s).0;
  own_metadata = λ n s. (memory-own n s).1;
}

abbrev two_bytes : List ℕ
two_bytes = 65 ∷ 66 ∷ []

abbrev buffers : List ℕ
buffers = 1 ∷ 1 ∷ 1 ∷ 1 ∷ []

limited_complete_example :
    ((read_until (limited_read memory) buffers (limited two_bytes 2)).delivered ≡ two_bytes)
    × (length two_bytes ≤ 2)
unfolding read_until limited_read limited_take limited_probe
limited_complete_example = limited_complete memory bytes_of memory-IsReader buffers two_bytes 2 refl

limited_refused_example :
    ((read_until (limited_read memory) buffers (limited two_bytes 1)).delivered ≡ take 1 two_bytes)
    × (1 < length two_bytes)
unfolding read_until limited_read limited_take limited_probe
limited_refused_example = limited_refused memory bytes_of memory-IsReader buffers two_bytes 1 refl

limited_prefix_example :
    ((ys : List ℕ) × (two_bytes
        ≡ (read_until (limited_read memory) buffers (limited two_bytes 1)).delivered ++ ys))
    × (length (read_until (limited_read memory) buffers (limited two_bytes 1)).delivered ≤ 1)
limited_prefix_example = limited_prefix memory bytes_of memory-IsReader buffers two_bytes 1

-- What Download stacks: the reader that expects a size, over the one of Open that allows `m` bytes.
abbrev stack : Body (LimitedReader (List ℕ))
stack = limited_body memory

stack-IsSource : IsSource stack (Left bytes_of)
stack-IsSource = limited_body-IsSource memory bytes_of memory-IsReader

limited_body-IsSource_example : IsSource (limited_body memory) (Left bytes_of)
limited_body-IsSource_example = limited_body-IsSource memory bytes_of memory-IsReader

expected_complete_example :
    ((read_until (expected_read stack) buffers (expected (limited two_bytes 4) 2)).delivered
      ≡ two_bytes)
    × (length two_bytes ≡ 2)
unfolding read_until expected_read expected_take expected_probe limited_read limited_take
    limited_probe
expected_complete_example =
    expected_complete stack (Left bytes_of) stack-IsSource buffers (limited two_bytes 4) two_bytes
      (inl (refl, refl)) 2 refl

expected_refused_example :
    (ys : List ℕ) × (two_bytes
      ≡ (read_until (expected_read stack) buffers (expected (limited two_bytes 4) 1)).delivered
        ++ ys)
    × (length
          (read_until (expected_read stack) buffers (expected (limited two_bytes 4) 1)).delivered
        ≡ 1)
    × (1 < length two_bytes)
unfolding read_until expected_read expected_take expected_probe limited_read limited_take
    limited_probe
expected_refused_example =
    expected_refused stack (Left bytes_of) stack-IsSource buffers (limited two_bytes 4) two_bytes
      (inl (refl, refl)) 1 refl

sanitize_filename-IsSafe_example :
    (sanitize_filename (lit "a/../b:c.txt") ≢ [])
    × (byte_len (sanitize_filename (lit "a/../b:c.txt")) ≤ max_filename_bytes)
    × ((sanitize_filename (lit "a/../b:c.txt") ≡ lit "/")
        ⊎ All IsSafe (sanitize_filename (lit "a/../b:c.txt")))
sanitize_filename-IsSafe_example = sanitize_filename-IsSafe (lit "a/../b:c.txt")

-- A network where each name has a public and a loopback address, and each dial succeeds.
abbrev mixed : Network
mixed = record {
  Conn = Text;
  split_host_port = λ address. ok (address, lit "443");
  is_port = λ port. true;
  parse_ip = λ host. none;
  resolve = λ host. ok (v4 (dotted 8 8 8 8) ∷ v4 (dotted 127 0 0 1) ∷ []);
  dial = λ network ip port. ok port;
}

dial_context-IsPublic_example :
    All IsPublic (dial_context mixed (lit "tcp") (lit "example.com:443")).1
dial_context-IsPublic_example = dial_context-IsPublic mixed (lit "tcp") (lit "example.com:443")

releases-use_all_example :
    (use_all memory (opened two_bytes) (reads 2 ∷ reads 2 ∷ closes ∷ [])).releases
    ≡ (if is_over memory two_bytes (reads 2 ∷ reads 2 ∷ closes ∷ []) then 1 else 0)
releases-use_all_example = releases-use_all memory two_bytes (reads 2 ∷ reads 2 ∷ closes ∷ [])
