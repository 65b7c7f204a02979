-- ===== src/Approvals/Cursor/Signature.antt =====
-- What Decode takes has been signed with the key of the service.
use dingtalk_oa_attachment_b.Prelude.{
  ℕ, ◌*◌, ◌≡◌, refl, ap, subst, true, false, ◌||◌, List, [], ◌∷◌, Option, none, some, Text, ltb,
  is_empty, text_eq, arith, inl, inr, Bool-cases,
}
use dingtalk_oa_attachment_b.Runes.{byte_len}
use dingtalk_oa_attachment_b.Domain.Errors.{ok, only, invalid_input}
use dingtalk_oa_attachment_b.Domain.Errors.Inversion.{bind_ok, refuse_ok, ok_inj}
use dingtalk_oa_attachment_b.Approvals.Library.{Bytes, Library}
use dingtalk_oa_attachment_b.Approvals.Cursor.{
  Base64, Json, CursorState, split, sign, check_signature, check_payload, decode_parts,
  decode_payload, decode_cursor_payload, decoded_whole, max_cursor_bytes, is_refused_state, decode,
}

module _ (go : Library) (base64 : Base64) (key : Bytes) where
  -- A text of two parts, the payload and its MAC under the key.
  pub record IsSigned (raw : Text) (payload : Bytes) : Type 0 where
    pub first : Text
    pub second : Text
    pub parted : split raw ≡ first ∷ second ∷ []
    pub opened : base64.decode first ≡ some payload
    pub signed : base64.decode second ≡ some (go.mac key payload)

  check_signature_sound :
      (payload p : Bytes) (o : Option Bytes)
      → check_signature go base64 key payload o ≡ ok p
      → (payload ≡ p) × (o ≡ some (go.mac key payload))
  unfolding check_signature sign
  check_signature_sound payload p none e = ground arith
  check_signature_sound payload p (some s) e = ground arith

  check_payload_sound :
      (a b : Option Bytes) (p : Bytes)
      → check_payload go base64 key a b ≡ ok p
      → (a ≡ some p) × (b ≡ some (go.mac key p))
  unfolding check_payload
  check_payload_sound none b p e = ground arith
  check_payload_sound (some x) b p e = ground (arith, check_signature_sound x p b)

  decode_parts_sound :
      (raw : Text) (parts : List Text) (p : Bytes)
      → split raw ≡ parts
      → decode_parts go base64 key parts ≡ ok p
      → IsSigned raw p
  unfolding decode_parts
  decode_parts_sound raw [] p h e = ground arith
  decode_parts_sound raw (a ∷ []) p h e = ground arith
  decode_parts_sound raw (a ∷ b ∷ []) p h e =
      let both = check_payload_sound (base64.decode a) (base64.decode b) p e in
      record { first = a; second = b; parted = h; opened = both.0; signed = both.1 }
  decode_parts_sound raw (a ∷ b ∷ c ∷ parts) p h e = ground arith

  decoded_whole_sound :
      {T : Type 0} (json : Json T) (o : Option (T × Bytes)) (s : T)
      → decoded_whole go base64 key json o ≡ ok s
      → (rest : Bytes) × (o ≡ some (s, rest)) × (json.ends rest ≡ true)
  decoded_whole_sound json none s e = ground arith
  decoded_whole_sound json (some (t, rest)) s e = elim (Bool-cases (json.ends rest)) [
    | inl ends ↦ (rest, ap (λ x. some (x, rest)) (ok_inj (rw ends at e)), ends)
    | inr more ↦ ground arith
  ]

  abbrev pub IsTaken : Json CursorState → ℕ → Text → CursorState → Type 0
  IsTaken json now raw s =
      (payload : Bytes) × (rest : Bytes) × IsSigned raw payload
      × (json.decode payload ≡ some (s, rest))
      × (json.ends rest ≡ true)
      × (is_refused_state now s ≡ false)

  -- A search cursor that Decode takes is a payload with its MAC under the key of the service, the
  -- payload holds the state that is returned and nothing behind it, and the state passes the checks:
  -- for every library and every text.
  pub decode_sound :
      (json : Json CursorState) (now : ℕ) (raw : Text) (s : CursorState)
      → decode go base64 key json now raw ≡ ok s
      → IsTaken json now raw s
  unfolding decode decode_payload decode_cursor_payload
  decode_sound json now raw s e =
      let (payload, opened, e1) = bind_ok (decode_payload go base64 key raw) _ e in
      let (state, read, e2) = bind_ok (decode_cursor_payload go base64 key json payload) _ e1 in
      let (passes, done) = refuse_ok (is_refused_state now state) (only invalid_input) _ e2 in
      let (small, parted) =
        refuse_ok (is_empty raw || ltb (max_cursor_bytes * 2) (byte_len raw)) (only invalid_input) _
          opened in
      let (rest, held, ends) = decoded_whole_sound json (json.decode payload) state read in
      subst (IsTaken json now raw) (ok_inj done)
        (payload, rest, decode_parts_sound raw (split raw) payload refl parted, held, ends, passes)
