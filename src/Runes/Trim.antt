-- ===== src/Runes/Trim.antt =====
-- strings.TrimSpace
use dingtalk_oa_attachment_b.Prelude.{
  ℕ, ◌≡◌, refl, ◌∙◌, ap, false, [], ◌∷◌, Text, is_empty, arith, Bool-cases, inl, inr, All, ◌&&◌,
  ◌≢◌, ◌≤◌,
}
use dingtalk_oa_attachment_b.Runes.{byte_len, is_space, trim_left, trim_right, trim_space}

-- A text that is empty or begins with a visible code point.
abbrev pub Begins : Text → Type 0
Begins [] = Unit
Begins (c ∷ s) = is_space c ≡ false

pub trim_left-Begins : (s : Text) → Begins (trim_left s)
unfolding trim_left
trim_left-Begins [] = tt
trim_left-Begins (c ∷ s) = elim (Bool-cases (is_space c)) [
  | inl space ↦ rw space (trim_left-Begins s)
  | inr visible ↦ rw visible visible
]

trim_left_id : (s : Text) → Begins s → trim_left s ≡ s
unfolding trim_left
trim_left_id [] b = refl
trim_left_id (c ∷ s) b = rw b

pub trim_right-Begins : (s : Text) → Begins s → Begins (trim_right s)
unfolding trim_right
trim_right-Begins [] b = tt
trim_right-Begins (c ∷ s) b = rw b b

trim_right_idem : (s : Text) → trim_right (trim_right s) ≡ trim_right s
unfolding trim_right
trim_right_idem [] = refl
trim_right_idem (c ∷ s) = ground (arith, trim_right_idem s)

-- Trimming twice is trimming once.
pub trim_space_idem : (s : Text) → trim_space (trim_space s) ≡ trim_space s
unfolding trim_space
trim_space_idem s =
    ap trim_right (trim_left_id _ (trim_right-Begins _ (trim_left-Begins s)))
    ∙ trim_right_idem (trim_left s)

-- A text with no white space in it is not changed.
pub trim_space_of_visible : (s : Text) → All (λ c. is_space c ≡ false) s → trim_space s ≡ s
unfolding trim_space
trim_space_of_visible [] v = refl
trim_space_of_visible (c ∷ s) v = rw (trim_left_id (c ∷ s) v.0) (trim_right_visible (c ∷ s) v)
  where
    trim_right_visible : (s : Text) → All (λ c. is_space c ≡ false) s → trim_right s ≡ s
    trim_right_visible [] v = refl
    trim_right_visible (c ∷ s) v = rw (v.0, trim_right_visible s v.1)

-- A trimmed text is empty or begins with a visible code point.
pub trim_space-Begins : (s : Text) → Begins (trim_space s)
unfolding trim_space
trim_space-Begins s = trim_right-Begins (trim_left s) (trim_left-Begins s)

-- A text that begins with a visible code point is not trimmed to nothing.
pub trim_space-ne-nil : (c : ℕ) (s : Text) → is_space c ≡ false → trim_space (c ∷ s) ≢ []
unfolding trim_space
trim_space-ne-nil c s v = rw (trim_left_id (c ∷ s) v) (unfold trim_right in rw v (λ e. cc))

module _ (P : ℕ → Type 0) where
  All-trim_left : (s : Text) → All P s → All P (trim_left s)
  unfolding trim_left
  All-trim_left [] h = tt
  All-trim_left (c ∷ s) h = elim (Bool-cases (is_space c)) [
    | inl space ↦ rw space (All-trim_left s h.1)
    | inr visible ↦ rw visible h
  ]

  All-trim_right : (s : Text) → All P s → All P (trim_right s)
  unfolding trim_right
  All-trim_right [] h = tt
  All-trim_right (c ∷ s) h = elim (Bool-cases (is_space c && is_empty (trim_right s))) [
    | inl last ↦ rw last tt
    | inr more ↦ rw more (h.0, All-trim_right s h.1)
  ]

  pub All-trim_space : (s : Text) → All P s → All P (trim_space s)
  unfolding trim_space
  All-trim_space s h = All-trim_right (trim_left s) (All-trim_left s h)

byte_len-trim_left : (s : Text) → byte_len (trim_left s) ≤ byte_len s
unfolding trim_left byte_len
byte_len-trim_left [] = omega arith
byte_len-trim_left (c ∷ s) = ground (arith, byte_len-trim_left s)

byte_len-trim_right : (s : Text) → byte_len (trim_right s) ≤ byte_len s
unfolding trim_right byte_len
byte_len-trim_right [] = omega arith
byte_len-trim_right (c ∷ s) = ground (arith, byte_len-trim_right s)

pub byte_len-trim_space : (s : Text) → byte_len (trim_space s) ≤ byte_len s
unfolding trim_space
byte_len-trim_space s = omega (arith, byte_len-trim_right (trim_left s), byte_len-trim_left s)
