-- ===== src/Domain/Identifier/Laws.antt =====
-- What the normalised process instance IDs are.
use dingtalk_oa_attachment_b.Prelude.{
  ℕ, ◌≤◌, ◌≡◌, ◌≢◌, refl, ◌↔◌, false, [], ◌∷◌, Text, lit, any, All, map, arith,
}
use dingtalk_oa_attachment_b.Runes.{
  is_space, is_control, byte_len, trim_space, has_prefix, to_upper,
}
use dingtalk_oa_attachment_b.Runes.Trim.{trim_space_of_visible}
use dingtalk_oa_attachment_b.Domain.Errors.{ok}
use dingtalk_oa_attachment_b.Domain.Identifier.{
  is_unsafe, normalize_process_instance_id, max_process_instance_id_bytes,
}

abbrev pub IsPlain : ℕ → Type 0
IsPlain c = (is_space c ≡ false) × (is_control c ≡ false) × (c ≢ b'/') × (c ≢ b'\\')

is_unsafe-IsPlain : (c : ℕ) → is_unsafe c ≡ false → IsPlain c
unfolding is_unsafe
is_unsafe-IsPlain c h = ground arith

IsPlain-is_unsafe : (c : ℕ) → IsPlain c → is_unsafe c ≡ false
unfolding is_unsafe
IsPlain-is_unsafe c h = ground arith

any-All : (s : Text) → any is_unsafe s ≡ false → All IsPlain s
any-All [] h = tt
any-All (c ∷ s) h = (is_unsafe-IsPlain c (ground arith), any-All s (ground arith))

All-any : (s : Text) → All IsPlain s → any is_unsafe s ≡ false
All-any [] h = refl
All-any (c ∷ s) h = ground (arith, IsPlain-is_unsafe c h.0, All-any s h.1)

All-visible : (s : Text) → All IsPlain s → All (λ c. is_space c ≡ false) s
All-visible [] h = tt
All-visible (c ∷ s) h = (h.0.0, All-visible s h.1)

abbrev pub IsNormal : Text → Type 0
IsNormal n =
    (n ≢ [])
    × (byte_len n ≤ max_process_instance_id_bytes)
    × (has_prefix (map to_upper n) (lit "PROC-") ≡ false)
    × All IsPlain n

-- An ID is accepted as `n` exactly when `n` is the trimmed input and is normal: it is not empty, has
-- at most 512 bytes, does not begin with `PROC-` in any case, and holds no white space, control
-- character or slash.
pub normalize-IsNormal :
    (v n : Text) → (normalize_process_instance_id v ≡ ok n) ↔ ((trim_space v ≡ n) × IsNormal n)
unfolding normalize_process_instance_id
normalize-IsNormal v n = (
  λ h.
      let e : trim_space v ≡ n = ground arith in
      (e, (ground arith, ground arith, ground arith, any-All n (ground arith))),
  λ h. ground (arith, All-any n h.1.3),
)

-- Normalising twice is normalising once.
pub normalize_idem :
    (v n : Text) → normalize_process_instance_id v ≡ ok n → normalize_process_instance_id n ≡ ok n
normalize_idem v n h =
    let f = (normalize-IsNormal v n).0 h in
    (normalize-IsNormal n n).1 (trim_space_of_visible n (All-visible n f.1.3), f.1)
