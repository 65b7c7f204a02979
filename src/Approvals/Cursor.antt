-- ===== src/Approvals/Cursor.antt =====
-- internal/approvals/cursor.go: the signed cursors of the two listings. encoding/json and
-- encoding/base64 are parameters. The fields of the clock are instants of Approvals/Times.antt.
pub mod RoundTrip
pub mod Signature
use dingtalk_oa_attachment_b.Prelude.{
  ℕ, ◌+◌, ◌*◌, Bool, true, false, ◌||◌, not, List, [], ◌∷◌, ◌++◌, Option, none, some, Text, lit,
  eqb, ltb, length, is_empty, if◌then◌else◌, Eq, ◌==◌, text_eq,
}
use dingtalk_oa_attachment_b.Prelude.Int.{ℤ, pos, is_negative, leb_int, ltb_int, eqb_int, minus}
use dingtalk_oa_attachment_b.Runes.{byte_len}
use dingtalk_oa_attachment_b.Domain.Errors.{
  Result, ok, err, ◌>>=◌, ◌>>◌, refuse_if, only, invalid_input,
}
use dingtalk_oa_attachment_b.Approvals.Library.{Bytes, Library}
use dingtalk_oa_attachment_b.Approvals.Candidates.{CursorSource}
use dingtalk_oa_attachment_b.Approvals.Times.{minute, hour, unix, unix_time}

abbrev pub cursor_version : ℕ
cursor_version = 3

abbrev pub category_cursor_version : ℕ
category_cursor_version = 2

abbrev pub max_cursor_bytes : ℕ
max_cursor_bytes = 8 * 1024

abbrev pub cursor_signature_bytes : ℕ
cursor_signature_bytes = 32

pub record CursorState : Type 0 where
  pub version : ℤ
  pub subject_hash : Text
  pub category_id : Text
  pub category_revision : Text
  pub keyword : Text
  pub start_ms : ℤ
  pub end_ms : ℤ
  pub issued_at : ℤ
  pub sources : List CursorSource

pub record CategoryCursorState : Type 0 where
  pub version : ℤ
  pub subject_hash : Text
  pub keyword : Text
  pub catalog_revision : Text
  pub offset : ℤ
  pub issued_at : ℤ

-- base64.RawURLEncoding
pub record Base64 : Type 0 where
  pub encode : Bytes → Text
  pub decode : Text → Option Bytes

-- encoding/json for a type: json.Marshal, and a json.Decoder that disallows unknown fields, which
-- leaves the bytes behind the value; `ends` when decoding these once more returns io.EOF.
pub record Json (T : Type 0) : Type 0 where
  pub marshal : T → Option Bytes
  pub decode : Bytes → Option (T × Bytes)
  pub ends : Bytes → Bool

-- newCursorCodec; the clock is an argument of the calls.
unfoldable pub new_cursor_codec : Bytes → Result Bytes
new_cursor_codec key = refuse_if (ltb (length key) 32) (only invalid_input) >> ok key

-- strings.Split with the separator `.`
abbrev pub separator : ℕ
separator = b'.'

abbrev pub in_front : ℕ → List Text → List Text
in_front c [] = []
in_front c (part ∷ parts) = (c ∷ part) ∷ parts

unfoldable pub split : Text → List Text
split [] = [] ∷ []
split (c ∷ s) = let parts = split s in if eqb c separator then [] ∷ parts else in_front c parts

abbrev pub invalid : {A : Type 0} → Result A
invalid = err (only invalid_input)

-- What `Decode` refuses in the state of a cursor.
unfoldable pub is_refused_state : ℕ → CursorState → Bool
is_refused_state now s =
    not (eqb_int s.version (pos cursor_version))
    || is_empty s.subject_hash
    || is_empty s.category_id
    || is_empty s.category_revision
    || leb_int s.start_ms (pos 0)
    || leb_int s.end_ms s.start_ms
    || is_empty s.sources
    || ltb_int (pos (now + minute)) (unix_time s.issued_at)
    || ltb_int (unix_time s.issued_at) (minus now hour)

-- `if state.IssuedAt == 0`
abbrev pub issued : ℕ → ℤ → ℤ
issued now at = if eqb_int at (pos 0) then unix now else at

abbrev pub stamped : ℕ → CursorState → CursorState
stamped now s = record s { version = pos cursor_version; issued_at = issued now s.issued_at }

unfoldable pub is_refused_category_state : ℕ → CategoryCursorState → Bool
is_refused_category_state now s =
    not (eqb_int s.version (pos category_cursor_version))
    || is_empty s.subject_hash
    || is_empty s.catalog_revision
    || is_negative s.offset
    || ltb_int (pos (now + minute)) (unix_time s.issued_at)
    || ltb_int (unix_time s.issued_at) (minus now hour)

abbrev pub stamped_category : ℕ → CategoryCursorState → CategoryCursorState
stamped_category now s = record s {
  version = pos category_cursor_version;
  issued_at = issued now s.issued_at;
}

module _ (go : Library) (base64 : Base64) (key : Bytes) where
  -- sign
  unfoldable pub sign : Bytes → Bytes
  sign payload = go.mac key payload

  abbrev pub sealed : Bytes → Text
  sealed payload = base64.encode payload ++ separator ∷ base64.encode (sign payload)

  abbrev pub sealed_or : Option Bytes → Result Text
  sealed_or none = err []
  sealed_or (some payload) =
      refuse_if (ltb max_cursor_bytes (length payload)) (only invalid_input) >> ok (sealed payload)

  -- encodePayload
  unfoldable pub encode_payload : {T : Type 0} → Json T → T → Result Text
  encode_payload json value = sealed_or (json.marshal value)

  -- The checks of the signature, the second part.
  unfoldable pub check_signature : Bytes → Option Bytes → Result Bytes
  check_signature payload none = invalid
  check_signature payload (some signature) =
      if not (eqb (length signature) cursor_signature_bytes) || not (signature == sign payload)
      then invalid
      else ok payload

  -- The checks of the payload, the first part.
  unfoldable pub check_payload : Option Bytes → Option Bytes → Result Bytes
  check_payload none signature = invalid
  check_payload (some payload) signature =
      if is_empty payload || ltb max_cursor_bytes (length payload)
      then invalid
      else check_signature payload signature

  unfoldable pub decode_parts : List Text → Result Bytes
  decode_parts [] = invalid
  decode_parts (a ∷ []) = invalid
  decode_parts (a ∷ b ∷ []) = check_payload (base64.decode a) (base64.decode b)
  decode_parts (a ∷ b ∷ c ∷ parts) = invalid

  -- decodePayload
  unfoldable pub decode_payload : Text → Result Bytes
  decode_payload raw =
      refuse_if (is_empty raw || ltb (max_cursor_bytes * 2) (byte_len raw)) (only invalid_input)
      >> decode_parts (split raw)

  module _ {T : Type 0} (json : Json T) where
    abbrev pub decoded_whole : Option (T × Bytes) → Result T
    decoded_whole none = invalid
    decoded_whole (some (value, rest)) = if json.ends rest then ok value else invalid

    -- decodeCursorPayload
    unfoldable pub decode_cursor_payload : Bytes → Result T
    decode_cursor_payload payload = decoded_whole (json.decode payload)

    abbrev pub decode_with : (T → Bool) → Text → Result T
    decode_with is_refused raw = do
      payload ← decode_payload raw
      state ← decode_cursor_payload payload
      refuse_if (is_refused state) (only invalid_input)
      ok state

  -- Encode
  unfoldable pub encode : Json CursorState → ℕ → CursorState → Result Text
  encode json now s = encode_payload json (stamped now s)

  -- Decode
  unfoldable pub decode : Json CursorState → ℕ → Text → Result CursorState
  decode json now raw = decode_with json (is_refused_state now) raw

  -- EncodeCategory
  unfoldable pub encode_category : Json CategoryCursorState → ℕ → CategoryCursorState → Result Text
  encode_category json now s = encode_payload json (stamped_category now s)

  -- DecodeCategory
  unfoldable pub decode_category : Json CategoryCursorState → ℕ → Text → Result CategoryCursorState
  decode_category json now raw = decode_with json (is_refused_category_state now) raw
