-- ===== src/Attachments/Filename/Laws.antt =====
-- What the sanitised names are.
use dingtalk_oa_attachment_b.Prelude.{
  ℕ, ◌-◌, ◌≤◌, ◌≡◌, ◌≢◌, refl, ap, ◌∙◌, ◌⊎◌, inl, inr, Bool, true, false, ◌&&◌, ◌||◌, [], ◌∷◌, ◌++◌,
  Text, lit, ◌==◌, text_eq, eqb, leb, is_empty, map, all, All, All-append, arith, Bool-cases,
  if◌then◌else◌,
}
use dingtalk_oa_attachment_b.Prelude.{Text-discrete, ℕ_discrete}
use dingtalk_oa_attachment_b.Runes.{is_space, is_control, rune_len, byte_len, trim_space}
use dingtalk_oa_attachment_b.Runes.Trim.{
  Begins, trim_space-Begins, trim_space-ne-nil, All-trim_space, byte_len-trim_space,
}
use dingtalk_oa_attachment_b.Attachments.Filename.{
  forward, drop_slashes, last_element, base, clean, truncate, max_filename_bytes, sanitize_filename,
}

abbrev IsSegment : ℕ → Type 0
IsSegment c = (c ≢ b'/') × (c ≢ b'\\')

-- A character that may stand in a quoted file name of a header.
abbrev pub IsSafe : ℕ → Type 0
IsSafe c = (is_control c ≡ false) × (c ≢ b'"') × (c ≢ b';') × (c ≢ b':') × (c ≢ b'/') × (c ≢ b'\\')

map-forward : (s : Text) → All (λ c. c ≢ b'\\') (map forward s)
map-forward [] = tt
map-forward (c ∷ s) = (ground arith, map-forward s)

drop_slashes-All : (s : Text) → All (λ c. c ≢ b'\\') s → All (λ c. c ≢ b'\\') (drop_slashes s)
unfolding drop_slashes
drop_slashes-All [] h = tt
drop_slashes-All (c ∷ s) h = elim (Bool-cases (eqb c b'/' && is_empty (drop_slashes s))) [
  | inl last ↦ rw last tt
  | inr more ↦ rw more (h.0, drop_slashes-All s h.1)
]

last_element-All :
    (s element : Text)
    → All IsSegment element
    → All (λ c. c ≢ b'\\') s
    → All IsSegment (last_element element s)
unfolding last_element
last_element-All [] element e h = e
last_element-All (c ∷ s) element e h = elim (Bool-cases (eqb c b'/')) [
  | inl slash ↦ rw slash (last_element-All s [] tt h.1)
  | inr other ↦ rw other (
      last_element-All s (element ++ c ∷ [])
        (All-append IsSegment element (c ∷ []) e ((ground arith, h.0), tt)) h.1)
]

base-All : (s : Text) → All (λ c. c ≢ b'\\') s → (base s ≡ lit "/") ⊎ All IsSegment (base s)
unfolding base
base-All s h = elim (Bool-cases (is_empty s)) [
  | inl e ↦ rw e (inr ((omega arith, omega arith), tt))
  | inr e ↦ rw e (elim (Bool-cases (is_empty (last_element [] (drop_slashes s)))) [
    | inl r ↦ rw r (inl refl)
    | inr r ↦ rw r (inr (last_element-All (drop_slashes s) [] tt (drop_slashes-All s h)))
  ])
]

underscore : IsSafe b'_'
unfolding is_control
underscore = (refl, omega arith, omega arith, omega arith, omega arith, omega arith)

abbrev is_letter : ℕ → Bool
is_letter c = leb b'a' c && leb c b'z'

letter-IsSafe : (c : ℕ) → is_letter c ≡ true → IsSafe c
unfolding is_control
letter-IsSafe c h = ground arith

clean-All : (s : Text) → All IsSegment s → All IsSafe (clean s)
unfolding clean
clean-All [] h = tt
clean-All (c ∷ s) h = elim (Bool-cases (is_control c)) [
  | inl control ↦ rw control (clean-All s h.1)
  | inr plain ↦ rw plain (elim (Bool-cases (eqb c b'"' || eqb c b';' || eqb c b':')) [
    | inl marked ↦ rw marked (underscore, clean-All s h.1)
    | inr other ↦
        rw other ((plain, ground arith, ground arith, ground arith, h.0.0, h.0.1), clean-All s h.1)
  ])
]

truncate-All : (P : ℕ → Type 0) (room : ℕ) (s : Text) → All P s → All P (truncate room s)
unfolding truncate
truncate-All P room [] h = tt
truncate-All P room (c ∷ s) h = elim (Bool-cases (leb (rune_len c) room)) [
  | inl fits ↦ rw fits (h.0, truncate-All P (room - rune_len c) s h.1)
  | inr full ↦ rw full tt
]

byte_len-truncate : (room : ℕ) (s : Text) → byte_len (truncate room s) ≤ room
unfolding truncate byte_len
byte_len-truncate room [] = omega arith
byte_len-truncate room (c ∷ s) = ground (arith, byte_len-truncate (room - rune_len c) s)

rune_len_le : (c : ℕ) → rune_len c ≤ 4
unfolding rune_len
rune_len_le c = ground arith

trimmed_truncate : (s : Text) → s ≢ [] → Begins s → trim_space (truncate 180 s) ≢ []
unfolding truncate
trimmed_truncate [] n b = absurd (n refl)
trimmed_truncate (c ∷ s) n b =
    let fits : leb (rune_len c) 180 ≡ true = ground (arith, rune_len_le c) in
    rw fits (trim_space-ne-nil c _ b)

letters-IsSafe : (s : Text) → all is_letter s ≡ true → All IsSafe s
letters-IsSafe [] h = tt
letters-IsSafe (c ∷ s) h = (letter-IsSafe c (ground arith), letters-IsSafe s (ground arith))

attachment-IsSafe : All IsSafe (lit "attachment")
attachment-IsSafe = letters-IsSafe (lit "attachment") refl

abbrev tested : Text → Bool
tested t = is_empty t || t == lit "." || t == lit ".."

-- The name before the last tests.
abbrev cleaned : Text → Text
cleaned raw = trim_space (clean (trim_space (base (map forward raw))))

-- The last tests, on any trimmed name.
abbrev finish : Text → Text
finish t =
    if tested t
    then lit "attachment"
    else if leb (byte_len t) max_filename_bytes
    then t
    else trim_space (truncate max_filename_bytes t)

abbrev IsGood : Text → Type 0
IsGood t = (t ≢ []) × (byte_len t ≤ max_filename_bytes)

attachment-IsGood : IsGood (lit "attachment")
unfolding byte_len
attachment-IsGood = (λ e. cc, omega arith)

finish-IsGood : (t : Text) → Begins t → IsGood (finish t)
finish-IsGood t b = elim (Bool-cases (tested t)) [
  | inl odd ↦ rw odd attachment-IsGood
  | inr name ↦ rw name (elim (Bool-cases (leb (byte_len t) max_filename_bytes)) [
    | inl short ↦ rw short (ground arith, ground arith)
    | inr long ↦ rw long (
      trimmed_truncate t (ground arith) b,
      omega (
        arith,
        byte_len-trim_space (truncate max_filename_bytes t),
        byte_len-truncate max_filename_bytes t,
      ),
    )
  ])
]

finish-All : (t : Text) → All IsSafe t → All IsSafe (finish t)
finish-All t h = elim (Bool-cases (tested t)) [
  | inl odd ↦ rw odd attachment-IsSafe
  | inr name ↦ rw name (elim (Bool-cases (leb (byte_len t) max_filename_bytes)) [
    | inl short ↦ rw short h
    | inr long ↦ rw long (All-trim_space IsSafe _ (truncate-All IsSafe max_filename_bytes t h))
  ])
]

finish_root : finish (trim_space (clean (trim_space (lit "/")))) ≡ lit "/"
unfolding trim_space clean is_space is_control byte_len Text-discrete truncate ℕ_discrete
finish_root = refl

-- A sanitised name is never empty and has at most 180 bytes; and unless it is the single slash that
-- a name made of slashes leaves, none of its characters is a control character, a quote, a
-- semicolon, a colon, a slash or a backslash.
pub sanitize_filename-IsSafe :
    (raw : Text)
    → (sanitize_filename raw ≢ [])
      × (byte_len (sanitize_filename raw) ≤ max_filename_bytes)
      × ((sanitize_filename raw ≡ lit "/") ⊎ All IsSafe (sanitize_filename raw))
unfolding sanitize_filename
sanitize_filename-IsSafe raw =
    let good = finish-IsGood (cleaned raw) (trim_space-Begins _) in
    (
      good.0,
      good.1,
      elim (base-All (map forward raw) (map-forward raw)) [
        | inl root ↦ inl (ap (λ b. finish (trim_space (clean (trim_space b)))) root ∙ finish_root)
        | inr segment ↦ inr (
            finish-All (cleaned raw)
              (All-trim_space IsSafe _ (clean-All _ (All-trim_space IsSegment _ segment))))
      ],
    )
