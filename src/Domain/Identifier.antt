-- ===== src/Domain/Identifier.antt =====
-- internal/domain/approval_identifier.go
pub mod Laws
use dingtalk_oa_attachment_b.Prelude.{
  ℕ, Bool, ◌||◌, List, [], ◌∷◌, Text, lit, any, map, eqb, ltb, is_empty, if◌then◌else◌,
}
use dingtalk_oa_attachment_b.Runes.{
  is_space, is_control, byte_len, trim_space, has_prefix, to_upper,
}
use dingtalk_oa_attachment_b.Domain.Errors.{Result, ok, err, invalid_input, only}

abbrev pub max_process_instance_id_bytes : ℕ
max_process_instance_id_bytes = 512

-- What the loop refuses: a character that could end a header or change a path.
unfoldable pub is_unsafe : ℕ → Bool
is_unsafe c = is_space c || is_control c || eqb c b'/' || eqb c b'\\'

-- NormalizeProcessInstanceID
unfoldable pub normalize_process_instance_id : Text → Result Text
normalize_process_instance_id value =
    let normalized = trim_space value in
    if is_empty normalized
      || ltb max_process_instance_id_bytes (byte_len normalized)
      || has_prefix (map to_upper normalized) (lit "PROC-")
    then err (only invalid_input)
    else if any is_unsafe normalized
    then err (only invalid_input)
    else ok normalized
