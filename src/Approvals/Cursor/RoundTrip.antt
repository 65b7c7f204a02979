-- ===== src/Approvals/Cursor/RoundTrip.antt =====
-- What is encoded is decoded again, and nothing else passes.
use dingtalk_oa_attachment_b.Prelude.{
  ℕ, ◌+◌, ◌*◌, ◌≤◌, ◌<◌, ◌≡◌, refl, subst, Bool, true, false, [], ◌∷◌, ◌++◌, Option, none, some,
  Text, eqb, ltb, length, is_empty, ◌==◌, text_eq, All, All-append, arith,
}
use dingtalk_oa_attachment_b.Runes.{byte_len, rune_len, is_space, trim_space}
use dingtalk_oa_attachment_b.Runes.Trim.{trim_space_of_visible}
use dingtalk_oa_attachment_b.Domain.Errors.{ok, ◌>>◌, refuse_if, only, invalid_input}
use dingtalk_oa_attachment_b.Domain.Errors.Inversion.{refuse_ok, ok_inj}
use dingtalk_oa_attachment_b.Approvals.Library.{Bytes, Library}
use dingtalk_oa_attachment_b.Approvals.Cursor.{
  Base64, Json, CursorState, CategoryCursorState, separator, split, sign, sealed, sealed_or,
  encode_payload, check_signature, check_payload, decode_parts, decode_payload,
  decode_cursor_payload, decode_with, max_cursor_bytes, cursor_signature_bytes, is_refused_state,
  stamped, encode, decode, is_refused_category_state, stamped_category, encode_category,
  decode_category,
}

abbrev pub IsUnseparated : Text → Type 0
IsUnseparated s = All (λ c. eqb c separator ≡ false) s

abbrev pub AreBytes : Bytes → Type 0
AreBytes b = All (λ n. n < 256) b

-- What is documented of the libraries: unpadded URL-safe base64, and SHA-256.
pub record IsCodec (go : Library) (base64 : Base64) : Type 0 where
  pub decode_encode : (b : Bytes) → AreBytes b → base64.decode (base64.encode b) ≡ some b
  pub unseparated : (b : Bytes) → AreBytes b → IsUnseparated (base64.encode b)
  pub visible : (b : Bytes) → AreBytes b → All (λ c. is_space c ≡ false) (base64.encode b)
  pub short : (b : Bytes) → AreBytes b → 3 * byte_len (base64.encode b) ≤ 4 * length b + 2
  pub mac_length : (key b : Bytes) → length (go.mac key b) ≡ cursor_signature_bytes
  pub mac_bytes : (key b : Bytes) → AreBytes (go.mac key b)

-- What is documented of encoding/json for the states of the cursors: what it writes is not empty and it
-- reads it back, to the end.
pub record IsJson {T : Type 0} (json : Json T) : Type 0 where
  pub decode_marshal :
      (value : T) (payload : Bytes)
      → json.marshal value ≡ some payload
      → (rest : Bytes) × (json.decode payload ≡ some (value, rest)) × (json.ends rest ≡ true)
  pub written :
      (value : T) (payload : Bytes)
      → json.marshal value ≡ some payload
      → (is_empty payload ≡ false) × AreBytes payload

split_plain : (s : Text) → IsUnseparated s → split s ≡ s ∷ []
unfolding split
split_plain [] h = refl
split_plain (c ∷ s) h = rw (h.0, split_plain s h.1) refl

split-append :
    (a b : Text) → IsUnseparated a → IsUnseparated b → split (a ++ separator ∷ b) ≡ a ∷ b ∷ []
unfolding split
split-append [] b h g = rw (split_plain b g) refl
split-append (c ∷ a) b h g = rw (h.0, split-append a b h.1 g) refl

byte_len-append : (a b : Text) → byte_len (a ++ b) ≡ byte_len a + byte_len b
unfolding byte_len
byte_len-append [] b = omega arith
byte_len-append (c ∷ a) b = omega (arith, byte_len-append a b)

byte_len-separator : (b : Text) → byte_len (separator ∷ b) ≡ 1 + byte_len b
unfolding byte_len rune_len
byte_len-separator b = omega arith

pub same_text : (s : Bytes) → s == s ≡ true
same_text s = ground arith

pub sealed_visible : (a b : Text) → is_empty (a ++ separator ∷ b) ≡ false
sealed_visible [] b = refl
sealed_visible (c ∷ a) b = refl

module _ (go : Library) (base64 : Base64) (key : Bytes) where
  length-sign :
      (payload : Bytes)
      → IsCodec go base64
      → length (sign go base64 key payload) ≡ cursor_signature_bytes
  unfolding sign
  length-sign payload v = v.mac_length key payload

  sign_bytes : (payload : Bytes) → IsCodec go base64 → AreBytes (sign go base64 key payload)
  unfolding sign
  sign_bytes payload v = v.mac_bytes key payload

  byte_len-sealed :
      (payload : Bytes)
      → IsCodec go base64
      → AreBytes payload
      → length payload ≤ max_cursor_bytes
      → byte_len (sealed go base64 key payload) ≤ max_cursor_bytes * 2
  byte_len-sealed payload v bytes small =
      let signature = sign go base64 key payload in
      omega (
        arith,
        byte_len-append (base64.encode payload) (separator ∷ base64.encode signature),
        byte_len-separator (base64.encode signature),
        v.short payload bytes,
        v.short signature (sign_bytes payload v),
        length-sign payload v,
        small,
      )

  check_signature-sign :
      (payload : Bytes)
      → IsCodec go base64
      → check_signature go base64 key payload (some (sign go base64 key payload)) ≡ ok payload
  unfolding check_signature
  check_signature-sign payload v =
      ground (arith, length-sign payload v, same_text (sign go base64 key payload))

  -- A payload of 8 KB at most, once signed, is read as itself.
  decode_payload-sealed :
      (payload : Bytes)
      → IsCodec go base64
      → AreBytes payload
      → is_empty payload ≡ false
      → length payload ≤ max_cursor_bytes
      → decode_payload go base64 key (sealed go base64 key payload) ≡ ok payload
  unfolding decode_payload decode_parts check_payload
  decode_payload-sealed payload v bytes full small =
      let signature = sign go base64 key payload in
      let parts =
        split-append (base64.encode payload) (base64.encode signature) (v.unseparated payload bytes)
          (v.unseparated signature (sign_bytes payload v)) in
      let fits : ltb (max_cursor_bytes * 2) (byte_len (sealed go base64 key payload)) ≡ false =
        ground (arith, byte_len-sealed payload v bytes small) in
      let little : ltb max_cursor_bytes (length payload) ≡ false = ground arith in
      rw
        (
          parts,
          v.decode_encode payload bytes,
          v.decode_encode signature (sign_bytes payload v),
          sealed_visible (base64.encode payload) (base64.encode signature),
          fits,
          full,
          little,
        )
        (check_signature-sign payload v)

  -- A signed payload has no spaces around it.
  pub trim_space-sealed :
      (payload : Bytes)
      → IsCodec go base64
      → AreBytes payload
      → trim_space (sealed go base64 key payload) ≡ sealed go base64 key payload
  unfolding is_space
  trim_space-sealed payload v bytes =
      let signature = sign go base64 key payload in
      trim_space_of_visible (sealed go base64 key payload) (
        All-append (λ c. is_space c ≡ false) (base64.encode payload) _ (v.visible payload bytes)
          (refl, v.visible signature (sign_bytes payload v)))

  module _ {T : Type 0} (json : Json T) where
    pub encode_payload-sealed :
        (value : T) (payload : Bytes)
        → json.marshal value ≡ some payload
        → length payload ≤ max_cursor_bytes
        → encode_payload go base64 key json value ≡ ok (sealed go base64 key payload)
    unfolding encode_payload
    encode_payload-sealed value payload marshalled small =
        let little : ltb max_cursor_bytes (length payload) ≡ false = ground arith in
        rw (marshalled, little) refl

    sealed_or_ok :
        (o : Option Bytes) (raw : Text)
        → sealed_or go base64 key o ≡ ok raw
        → (payload : Bytes) × (o ≡ some payload)
          × (length payload ≤ max_cursor_bytes)
          × (sealed go base64 key payload ≡ raw)
    sealed_or_ok none raw e = ground arith
    sealed_or_ok (some payload) raw e =
        let (small, done) =
          refuse_ok (ltb max_cursor_bytes (length payload)) (only invalid_input) _ e in
        (payload, refl, ground arith, ok_inj done)

    -- A state that has been encoded is decoded to itself, or refused for what it says.
    pub decode_with-encode_payload :
        (is_refused : T → Bool) (value : T) (raw : Text)
        → IsCodec go base64
        → IsJson json
        → encode_payload go base64 key json value ≡ ok raw
        → decode_with go base64 key json is_refused raw
          ≡ (refuse_if (is_refused value) (only invalid_input) >> ok value)
    unfolding encode_payload decode_cursor_payload
    decode_with-encode_payload is_refused value raw v w e =
        let (payload, marshalled, small, same) = sealed_or_ok (json.marshal value) raw e in
        let (rest, read, ends) = w.decode_marshal value payload marshalled in
        let (full, bytes) = w.written value payload marshalled in
        let opened = decode_payload-sealed payload v bytes full small in
        subst
          (λ t.
            decode_with go base64 key json is_refused t
            ≡ (refuse_if (is_refused value) (only invalid_input) >> ok value))
          same (rw (opened, read, ends) refl)

  -- A search cursor that Encode made, read at any time with the same key, gives the state that was
  -- encoded, with its version and its time of issue filled in, or is refused, exactly as the checks of
  -- Decode say of that state: if base64, SHA-256 and JSON do what is documented of them.
  pub decode-encode :
      (json : Json CursorState) (now later : ℕ) (s : CursorState) (raw : Text)
      → IsCodec go base64
      → IsJson json
      → encode go base64 key json now s ≡ ok raw
      → decode go base64 key json later raw ≡ (
          refuse_if (is_refused_state later (stamped now s)) (only invalid_input)
          >> ok (stamped now s))
  unfolding encode decode
  decode-encode json now later s raw v w e =
      decode_with-encode_payload json (is_refused_state later) (stamped now s) raw v w e

  -- The same of a category cursor.
  pub decode_category-encode_category :
      (json : Json CategoryCursorState) (now later : ℕ) (s : CategoryCursorState) (raw : Text)
      → IsCodec go base64
      → IsJson json
      → encode_category go base64 key json now s ≡ ok raw
      → decode_category go base64 key json later raw ≡ (
          refuse_if (is_refused_category_state later (stamped_category now s)) (only invalid_input)
          >> ok (stamped_category now s))
  unfolding encode_category decode_category
  decode_category-encode_category json now later s raw v w e =
      decode_with-encode_payload json (is_refused_category_state later) (stamped_category now s) raw
        v w e
