-- ===== src/Attachments/Filename.antt =====
-- internal/attachments/service.go: SanitizeFilename.
pub mod Laws
use dingtalk_oa_attachment_b.Prelude.{
  ℕ, zero, suc, ◌+◌, ◌-◌, ◌≤◌, Bool, true, false, ◌&&◌, ◌||◌, List, [], ◌∷◌, ◌++◌, Text, lit, ◌==◌,
  text_eq, eqb, leb, ltb, is_empty, map, if◌then◌else◌,
}
use dingtalk_oa_attachment_b.Runes.{is_control, rune_len, byte_len, trim_space}

-- strings.ReplaceAll(raw, "\\", "/")
abbrev forward : ℕ → ℕ
forward c = if eqb c b'\\' then b'/' else c

-- The first loop of path.Base, on the text from its end.
drop_slashes : Text → Text
drop_slashes [] = []
drop_slashes (c ∷ s) =
    let rest = drop_slashes s in if eqb c b'/' && is_empty rest then [] else c ∷ rest

-- What follows the last slash.
last_element : Text → Text → Text
last_element element [] = element
last_element element (c ∷ s) = last_element (if eqb c b'/' then [] else element ++ c ∷ []) s

-- path.Base
unfoldable pub base : Text → Text
unfolding drop_slashes last_element
base path =
    if is_empty path
    then lit "."
    else (let element = last_element [] (drop_slashes path) in
        if is_empty element then lit "/" else element)

-- The loop over the characters.
unfoldable pub clean : Text → Text
clean [] = []
clean (c ∷ s) =
    let rest = clean s in
    if is_control c
    then rest
    else if eqb c b'"' || eqb c b';' || eqb c b':'
    then b'_' ∷ rest
    else c ∷ rest

abbrev pub max_filename_bytes : ℕ
max_filename_bytes = 180

-- `sanitized[:maxFilenameBytes]` without the bytes at its end that are no whole character: the
-- characters that fit in the bytes that are left.
unfoldable pub truncate : ℕ → Text → Text
unfolding rune_len
truncate room [] = []
truncate room (c ∷ s) =
    let rest = truncate (room - rune_len c) s in if leb (rune_len c) room then c ∷ rest else []

-- SanitizeFilename
unfoldable pub sanitize_filename : Text → Text
unfolding clean base truncate
sanitize_filename raw =
    let sanitized = trim_space (clean (trim_space (base (map forward raw)))) in
    if is_empty sanitized || sanitized == lit "." || sanitized == lit ".."
    then lit "attachment"
    else if leb (byte_len sanitized) max_filename_bytes
    then sanitized
    else trim_space (truncate max_filename_bytes sanitized)
