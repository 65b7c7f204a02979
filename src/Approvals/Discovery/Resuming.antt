-- ===== src/Approvals/Discovery/Resuming.antt =====
-- A cursor of VisibleCategories is read as the position that it was written for.
use dingtalk_oa_attachment_b.Prelude.{
  ℕ, ◌+◌, ◌*◌, ◌/◌, ◌≤◌, ◌≡◌, refl, sym, subst, true, false, List, [], some, Text, length, leb,
  is_empty, text_eq, arith,
}
use dingtalk_oa_attachment_b.Prelude.Int.{ℤ, pos, minus, ltb_int}
use dingtalk_oa_attachment_b.Runes.{trim_space}
use dingtalk_oa_attachment_b.Domain.Errors.{ok}
use dingtalk_oa_attachment_b.Domain.Approval.{User}
use dingtalk_oa_attachment_b.Domain.Search.{ApprovalCategory}
use dingtalk_oa_attachment_b.Approvals.Library.{Bytes}
use dingtalk_oa_attachment_b.Approvals.Times.{second, hour, minute, unix, unix_time, unix_epoch}
use dingtalk_oa_attachment_b.Approvals.Cursor.{
  CategoryCursorState, issued, is_refused_category_state, encode_category, decode_category,
  category_cursor_version, max_cursor_bytes, sealed, encode_payload, sign,
}
use dingtalk_oa_attachment_b.Approvals.Cursor.RoundTrip.{
  IsCodec, IsJson, decode_with-encode_payload, encode_payload-sealed, trim_space-sealed,
  sealed_visible, same_text,
}
use dingtalk_oa_attachment_b.Approvals.Service.{Service}
use dingtalk_oa_attachment_b.Approvals.Discovery.{
  CategoryDiscoveryQuery, Position, matching, subject_hash, revision_of, position_of, resume,
  next_state,
}

-- The instants from the first one on, within the hour that a cursor lives. The second that is taken off
-- is the one that the cursor does not tell.
abbrev pub IsWithinHour : ℕ → ℕ → Type 0
IsWithinHour start now = (start ≤ now) × (now + second ≤ start + hour)

unix_time-unix :
    (start : ℕ)
    → unix_epoch * second ≤ start
    → unix_time (unix start) ≡ pos (start / second * second)
unix_time-unix start h = ground arith

not_refused :
    (start now : ℕ)
    → IsWithinHour start now
    → (ltb_int (pos (now + minute)) (pos (start / second * second)) ≡ false)
      × (ltb_int (pos (start / second * second)) (minus now hour) ≡ false)
not_refused start now h = (ground arith, ground arith)

module _ (service : Service) (user : User) (catalog : List ApprovalCategory) where
  -- The state of a cursor that stands at an offset.
  abbrev pub state_at : Text → ℕ → ℤ → CategoryCursorState
  state_at keyword offset issued_at = record {
    version = pos category_cursor_version;
    subject_hash = subject_hash service user catalog;
    keyword = keyword;
    catalog_revision = revision_of service user catalog keyword;
    offset = pos offset;
    issued_at = issued_at;
  }

  -- The libraries do what is documented of them, the hashes are not empty, and a cursor for the keyword,
  -- at any place in the list, fits into 8 KB.
  pub record IsServed (keyword : Text) (start : ℕ) : Type 0 where
    pub codec : IsCodec service.go service.base64
    pub json : IsJson service.category_json
    pub hash_named : is_empty (subject_hash service user catalog) ≡ false
    pub revision_named : is_empty (revision_of service user catalog keyword) ≡ false
    pub fits :
        (offset : ℕ)
        → offset ≤ length (matching service user catalog keyword)
        → (payload : Bytes) × (service.category_json.marshal (state_at keyword offset (unix start))
            ≡ some payload)
          × (length payload ≤ max_cursor_bytes)

  abbrev pub cursor_query : Text → CategoryDiscoveryQuery
  cursor_query cursor = record { keyword = []; cursor = cursor }

  abbrev pub position_at : Text → ℕ → ℕ → Position
  position_at keyword offset start = record {
    keyword = keyword;
    offset = offset;
    issued_at = unix start;
  }

  state_at_passes :
      (keyword : Text) (start later offset : ℕ)
      → IsServed keyword start
      → unix_epoch * second ≤ start
      → IsWithinHour start later
      → is_refused_category_state later (state_at keyword offset (unix start)) ≡ false
  unfolding is_refused_category_state
  state_at_passes keyword start later offset v epoch soon =
      let (early, late) = not_refused start later soon in
      rw (v.hash_named, v.revision_named, unix_time-unix start epoch, early, late) refl

  position_of-state_at :
      (keyword : Text) (start offset : ℕ)
      → offset ≤ length (matching service user catalog keyword)
      → position_of service user catalog (state_at keyword offset (unix start))
        ≡ ok (position_at keyword offset start)
  unfolding position_of
  position_of-state_at keyword start offset inside =
      let hash = same_text (subject_hash service user catalog) in
      let revision = same_text (revision_of service user catalog keyword) in
      let fits : leb offset (length (matching service user catalog keyword)) ≡ true =
        ground arith in
      rw (hash, revision, fits) refl

  resume-sealed :
      (keyword : Text) (start later offset : ℕ) (payload : Bytes)
      → IsServed keyword start
      → unix_epoch * second ≤ start
      → IsWithinHour start later
      → offset ≤ length (matching service user catalog keyword)
      → service.category_json.marshal (state_at keyword offset (unix start)) ≡ some payload
      → length payload ≤ max_cursor_bytes
      → resume service user catalog later
          (cursor_query (sealed service.go service.base64 service.key payload))
        ≡ ok (position_at keyword offset start)
  unfolding resume decode_category trim_space
  resume-sealed keyword start later offset payload v epoch soon inside marshalled small =
      let state = state_at keyword offset (unix start) in
      let raw = sealed service.go service.base64 service.key payload in
      let (full, bytes) = v.json.written state payload marshalled in
      let trimmed = trim_space-sealed service.go service.base64 service.key payload v.codec bytes in
      let named =
        sealed_visible (service.base64.encode payload)
          (service.base64.encode (sign service.go service.base64 service.key payload)) in
      let read =
        decode_with-encode_payload service.go service.base64 service.key service.category_json
          (is_refused_category_state later) state raw v.codec v.json
          (encode_payload-sealed service.go service.base64 service.key service.category_json state
            payload marshalled small) in
      rw (trimmed, named, read, state_at_passes keyword start later offset v epoch soon)
        (position_of-state_at keyword start offset inside)

  -- The cursor that a page writes, read within the hour.
  pub resume-encode :
      (keyword : Text) (start now later offset : ℕ) (at : ℤ)
      → IsServed keyword start
      → unix_epoch * second ≤ start
      → IsWithinHour start later
      → issued now at ≡ unix start
      → offset ≤ length (matching service user catalog keyword)
      → (raw : Text) × (encode_category service.go service.base64 service.key service.category_json
            now
            (next_state service user catalog keyword offset at)
          ≡ ok raw)
        × (resume service user catalog later (cursor_query raw)
            ≡ ok (position_at keyword offset start))
  unfolding encode_category
  resume-encode keyword start now later offset at v epoch soon first inside =
      let (payload, marshalled, small) = v.fits offset inside in
      (
        sealed service.go service.base64 service.key payload,
        subst
            (λ i.
              encode_payload service.go service.base64 service.key service.category_json
                (state_at keyword offset i)
              ≡ ok (sealed service.go service.base64 service.key payload))
            (sym first)
            (encode_payload-sealed service.go service.base64 service.key service.category_json
              (state_at keyword offset (unix start)) payload marshalled small),
        resume-sealed keyword start later offset payload v epoch soon inside marshalled small,
      )
