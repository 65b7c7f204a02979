-- ===== src/Approvals/Tests/Cursors.antt =====
-- A search cursor, and a walk over a list of 101 categories.
use dingtalk_oa_attachment_b.Prelude.{
  ℕ, ◌+◌, ◌*◌, ◌<◌, ◌≡◌, refl, sym, ◌∙◌, ap, subst, Bool, true, false, [], ◌∷◌, Option, none, some,
  Text, Text-discrete, ℕ_discrete, lit, is_empty, arith, inl, inr, ltb, ltb→lt, lt→ltb, Bool-cases,
}
use dingtalk_oa_attachment_b.Prelude.Int.{pos}
use dingtalk_oa_attachment_b.Domain.Errors.{ok, ◌>>◌, refuse_if, only, invalid_input}
use dingtalk_oa_attachment_b.Approvals.Library.{Bytes}
use dingtalk_oa_attachment_b.Approvals.Times.{second, unix_epoch}
use dingtalk_oa_attachment_b.Approvals.Cursor.{
  Json, CursorState, CategoryCursorState, encode, decode, encode_payload, sign, is_refused_state,
}
use dingtalk_oa_attachment_b.Approvals.Cursor.RoundTrip.{IsJson, AreBytes, decode-encode}
use dingtalk_oa_attachment_b.Approvals.Cursor.Signature.{IsTaken, decode_sound}
use dingtalk_oa_attachment_b.Approvals.Tests.Codec.{
  encode_bytes, sample_library, sample_base64, sample-IsCodec,
}

unfoldable pub CursorState-discrete : Discrete CursorState
CursorState-discrete = hlevel (Text-discrete, ℕ_discrete)

unfoldable pub CategoryCursorState-discrete : Discrete CategoryCursorState
CategoryCursorState-discrete = hlevel (Text-discrete, ℕ_discrete)

-- A JSON of one byte for the values of a family.
module _ {T : Type 0} (discrete : Discrete T) (value : ℕ → T) (index : T → ℕ) where
  abbrev written : (v w : T) → Dec (v ≡ w) → ℕ → Option Bytes
  written v w (yes e) n = some (n ∷ [])
  written v w (no e) n = none

  abbrev read : Bytes → Option (T × Bytes)
  read [] = none
  read (n ∷ rest) = some (value n, rest)

  abbrev bounded : Bool → T → Option Bytes
  bounded true v = written v (value (index v)) (discrete v (value (index v))) (index v)
  bounded false v = none

  abbrev pub family_json : Json T
  family_json = record {
    marshal = λ v. bounded (ltb (index v) 256) v;
    decode = read;
    ends = is_empty;
  }

  written_read :
      (v : T) (n : ℕ) (payload : Bytes) (d : Dec (v ≡ value n))
      → written v (value n) d n ≡ some payload
      → (read payload ≡ some (v, [])) × (payload ≡ n ∷ [])
  written_read v n payload (yes e) h =
      let same : payload ≡ n ∷ [] = sym (some_inj h) in
      (ap read same ∙ ap (λ x. some (x, [])) (sym e), same)
    where
      some_inj : {a b : Bytes} → some a ≡ some b → a ≡ b
      some_inj e = cc
  written_read v n payload (no e) h = ground arith

  bounded_read :
      (v : T) (payload : Bytes)
      → bounded (ltb (index v) 256) v ≡ some payload
      → (read payload ≡ some (v, [])) × (payload ≡ index v ∷ []) × (index v < 256)
  bounded_read v payload h = elim (Bool-cases (ltb (index v) 256)) [
    | inl small ↦
        let both =
          written_read v (index v) payload (discrete v (value (index v))) (rw small at h) in
        (both.0, both.1, ltb→lt (index v) 256 small)
    | inr large ↦ absurd (none_some (rw large at h))
  ]
    where
      none_some : {A : Type 0} {a : A} → none ≡ some a → ⊥
      none_some e = ground arith

  pub family-IsJson : IsJson family_json
  family-IsJson = record {
    decode_marshal = λ v payload h. ([], (bounded_read v payload h).0, refl);
    written = λ v payload h.
        let r = bounded_read v payload h in (ap is_empty r.1, subst AreBytes (sym r.1) (r.2, tt));
  }

  written_same : (v : T) (n : ℕ) (d : Dec (v ≡ v)) → written v v d n ≡ some (n ∷ [])
  written_same v n (yes e) = refl
  written_same v n (no ne) = absurd (ne refl)

  pub marshal_family :
      (n : ℕ) → n < 256 → index (value n) ≡ n → family_json.marshal (value n) ≡ some (n ∷ [])
  marshal_family n small e =
      subst (λ k. bounded (ltb k 256) (value n) ≡ some (n ∷ [])) (sym e)
        (rw (lt→ltb n 256 small) (
          subst (λ k. written (value n) (value k) (discrete (value n) (value k)) k ≡ some (n ∷ []))
            (sym e) (written_same (value n) n (discrete (value n) (value n)))))

-- A search, a thousand seconds after 1970.
abbrev now : ℕ
now = unix_epoch * second + 1000 * second

abbrev state : CursorState
state = record {
  version = pos 3;
  subject_hash = lit "hash";
  category_id = lit "category";
  category_revision = lit "revision";
  keyword = [];
  start_ms = pos 1;
  end_ms = pos 2;
  issued_at = pos 1000;
  sources = record { next_token = pos 4; done = false } ∷ [];
}

abbrev pub cursor_json : Json CursorState
cursor_json = family_json CursorState-discrete (λ n. state) (λ s. 0)

abbrev raw : Text
raw = lit "00.0000000000000000000000000000000000000000000"

encoded : encode sample_library sample_base64 [] cursor_json now state ≡ ok raw
unfolding encode encode_payload sign encode_bytes CursorState-discrete Text-discrete ℕ_discrete
encoded = refl

decode-encode_example :
    decode sample_library sample_base64 [] cursor_json now raw
    ≡ (refuse_if (is_refused_state now state) (only invalid_input) >> ok state)
decode-encode_example =
    decode-encode sample_library sample_base64 [] cursor_json now now state raw sample-IsCodec
      (family-IsJson CursorState-discrete (λ n. state) (λ s. 0)) encoded

decoded : decode sample_library sample_base64 [] cursor_json now raw ≡ ok state
unfolding is_refused_state
decoded =
    decode-encode sample_library sample_base64 [] cursor_json now now state raw sample-IsCodec
      (family-IsJson CursorState-discrete (λ n. state) (λ s. 0)) encoded

decode_sound_example : IsTaken sample_library sample_base64 [] cursor_json now raw state
decode_sound_example =
    decode_sound sample_library sample_base64 [] cursor_json now raw state decoded
