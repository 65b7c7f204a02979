-- ===== src/Approvals/Tests/Codec.antt =====
-- Libraries to run the cursors with: base64 with another alphabet, a MAC that is 32 zeros, and a JSON of
-- one byte for the states of one list.
use dingtalk_oa_attachment_b.Prelude.{
  ℕ, zero, suc, ◌+◌, ◌-◌, ◌*◌, ◌/◌, ◌%◌, ◌≤◌, ◌<◌, ◌≡◌, refl, false, [], ◌∷◌, ◌++◌, Option, none,
  some, Text, length, All, arith,
}
use dingtalk_oa_attachment_b.Runes.{byte_len, rune_len, is_space}
use dingtalk_oa_attachment_b.Approvals.Library.{Bytes, Library}
use dingtalk_oa_attachment_b.Approvals.Cursor.{Base64}
use dingtalk_oa_attachment_b.Approvals.Cursor.RoundTrip.{AreBytes, IsCodec, IsUnseparated}

abbrev digit : ℕ → ℕ
digit n = n + 48

unfoldable pub encode_bytes : Bytes → Text
encode_bytes [] = []
encode_bytes (a ∷ []) = digit (a / 4) ∷ digit (a % 4 * 16) ∷ []
encode_bytes (a ∷ b ∷ []) = digit (a / 4) ∷ digit (a % 4 * 16 + b / 16) ∷ digit (b % 16 * 4) ∷ []
encode_bytes (a ∷ b ∷ c ∷ r) =
    digit (a / 4)
    ∷ digit (a % 4 * 16 + b / 16)
    ∷ digit (b % 16 * 4 + c / 64)
    ∷ digit (c % 64)
    ∷ encode_bytes r

abbrev in_front : Bytes → Option Bytes → Option Bytes
in_front xs none = none
in_front xs (some ys) = some (xs ++ ys)

abbrev first_byte : ℕ → ℕ → ℕ
first_byte w x = (w - 48) * 4 + (x - 48) / 16

abbrev second_byte : ℕ → ℕ → ℕ
second_byte x y = (x - 48) % 16 * 16 + (y - 48) / 4

abbrev third_byte : ℕ → ℕ → ℕ
third_byte y z = (y - 48) % 4 * 64 + (z - 48)

unfoldable pub decode_bytes : Text → Option Bytes
decode_bytes [] = some []
decode_bytes (w ∷ []) = none
decode_bytes (w ∷ x ∷ []) = some (first_byte w x ∷ [])
decode_bytes (w ∷ x ∷ y ∷ []) = some (first_byte w x ∷ second_byte x y ∷ [])
decode_bytes (w ∷ x ∷ y ∷ z ∷ r) =
    in_front (first_byte w x ∷ second_byte x y ∷ third_byte y z ∷ []) (decode_bytes r)

decode_bytes-encode_bytes : (b : Bytes) → AreBytes b → decode_bytes (encode_bytes b) ≡ some b
unfolding decode_bytes encode_bytes
decode_bytes-encode_bytes [] h = refl
decode_bytes-encode_bytes (a ∷ []) h = ground arith
decode_bytes-encode_bytes (a ∷ b ∷ []) h = ground arith
decode_bytes-encode_bytes (a ∷ b ∷ c ∷ r) h = ground (arith, decode_bytes-encode_bytes r h.1.1.1)

digits-IsUnseparated : (b : Bytes) → IsUnseparated (encode_bytes b)
unfolding encode_bytes
digits-IsUnseparated [] = tt
digits-IsUnseparated (a ∷ []) = (ground arith, (ground arith, tt))
digits-IsUnseparated (a ∷ b ∷ []) = (ground arith, (ground arith, (ground arith, tt)))
digits-IsUnseparated (a ∷ b ∷ c ∷ r) =
    (ground arith, (ground arith, (ground arith, (ground arith, digits-IsUnseparated r))))

abbrev IsDigit : ℕ → Type 0
IsDigit n = (48 ≤ n) × (n < 112)

digits-IsDigit : (b : Bytes) → AreBytes b → All IsDigit (encode_bytes b)
unfolding encode_bytes
digits-IsDigit [] h = tt
digits-IsDigit (a ∷ []) h = ((omega arith, omega arith), ((omega arith, omega arith), tt))
digits-IsDigit (a ∷ b ∷ []) h =
    ((omega arith, omega arith), ((omega arith, omega arith), ((omega arith, omega arith), tt)))
digits-IsDigit (a ∷ b ∷ c ∷ r) h = (
  (omega arith, omega arith),
  (
    (omega arith, omega arith),
    ((omega arith, omega arith), ((omega arith, omega arith), digits-IsDigit r h.1.1.1)),
  ),
)

visible_digits : (s : Text) → All IsDigit s → All (λ c. is_space c ≡ false) s
unfolding is_space
visible_digits [] h = tt
visible_digits (c ∷ s) h = (ground arith, visible_digits s h.1)

byte_len-digits : (s : Text) → All IsDigit s → byte_len s ≡ length s
unfolding byte_len rune_len
byte_len-digits [] h = refl
byte_len-digits (c ∷ s) h = ground (arith, byte_len-digits s h.1)

length-encode_bytes : (b : Bytes) → 3 * length (encode_bytes b) ≤ 4 * length b + 2
unfolding encode_bytes
length-encode_bytes [] = omega arith
length-encode_bytes (a ∷ []) = omega arith
length-encode_bytes (a ∷ b ∷ []) = omega arith
length-encode_bytes (a ∷ b ∷ c ∷ r) = omega (arith, length-encode_bytes r)

abbrev pub sample_base64 : Base64
sample_base64 = record { encode = encode_bytes; decode = decode_bytes }

abbrev zeros : ℕ → Bytes
zeros zero = []
zeros (suc n) = 0 ∷ zeros n

abbrev pub sample_library : Library
sample_library = record {
  to_lower = λ s. s;
  parse_time = λ s. none;
  mac_text = λ key s. s;
  mac = λ key b. zeros 32;
  digest_text = λ s. s;
  digest = λ b. b;
  hex = λ b. 120 ∷ b;
  base32 = λ b. b;
  marshal_category = λ c. some [];
  marshal_categories = λ cs. some [];
}

zeros-AreBytes : (n : ℕ) → AreBytes (zeros n)
zeros-AreBytes zero = tt
zeros-AreBytes (suc n) = (omega arith, zeros-AreBytes n)

pub sample-IsCodec : IsCodec sample_library sample_base64
sample-IsCodec = record {
  decode_encode = decode_bytes-encode_bytes;
  unseparated = λ b h. digits-IsUnseparated b;
  visible = λ b h. visible_digits (encode_bytes b) (digits-IsDigit b h);
  short = λ b h.
      omega (arith, byte_len-digits (encode_bytes b) (digits-IsDigit b h), length-encode_bytes b);
  mac_length = λ key b. refl;
  mac_bytes = λ key b. zeros-AreBytes 32;
}
