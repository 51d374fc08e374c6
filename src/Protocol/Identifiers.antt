-- ===== src/Protocol/Identifiers.antt =====
-- pkg/certproto/protocol.go and contract.go: path segments, generation ids, revisions, job ids and
-- idempotency keys.
pub mod Laws
use cert_keeper.Prelude.{
  ℕ, Text, Bool, ◌&&◌, ◌||◌, ◌==◌, nat_eq, text_eq, false, true, ok, err, ◌>>=◌, ◌>>◌, require,
  refuse, ltb, leb, length, all, any, not, codes, is_empty, Result, none, some,
}
use cert_keeper.Protocol.Codec.{Codec}
use cert_keeper.Protocol.Errors.{
  Check, ErrorCode, invalid_generation, invalid_revision, invalid_job_id, invalid_idempotency_key,
  invalid_path_segment, path_traversal,
}

abbrev pub max_generation_id_length : ℕ
max_generation_id_length = 128

abbrev pub max_job_id_length : ℕ
max_job_id_length = 128

abbrev pub max_idempotency_key_length : ℕ
max_idempotency_key_length = 128

unfoldable pub is_path_traversal : Text → Bool
is_path_traversal value = any (λ c. c == b'/' || c == b'\\') value

abbrev pub is_dots : Text → Bool
is_dots value = value == codes "." || value == codes ".."

abbrev pub is_unreserved : ℕ → Bool
is_unreserved c =
    (leb b'a' c && leb c b'z')
    || (leb b'A' c && leb c b'Z')
    || (leb b'0' c && leb c b'9')
    || c == b'-'
    || c == b'.'
    || c == b'_'
    || c == b'~'

abbrev pub is_control : ℕ → Bool
is_control c = ltb c 0x20 || c == 0x7f

-- The loop of `hasControl` goes over runes; a control rune is one byte, and no byte of a longer
-- rune is a control byte.
unfoldable pub has_control : Text → Bool
has_control value = any is_control value

unfoldable pub validate_path_segment : Text → Check
validate_path_segment segment = do
  refuse (is_empty segment) invalid_path_segment
  refuse (is_path_traversal segment || is_dots segment) path_traversal
  refuse (has_control segment) invalid_path_segment

-- `err != nil`.
abbrev pub failed : Check → Bool
failed (ok _) = false
failed (err _) = true

unfoldable pub validate_generation_id : Text → Check
unfolding validate_path_segment
validate_generation_id id = do
  refuse (is_path_traversal id || is_dots id) path_traversal
  refuse (failed (validate_path_segment id)) invalid_generation
  refuse (ltb max_generation_id_length (length id)) invalid_generation
  require (all is_unreserved id) invalid_generation

unfoldable pub validate_revision : ℕ → Check
validate_revision revision = refuse (revision == 0) invalid_revision

-- `CertificateVersion`: a generation and the number of an artifact in it.
pub record CertificateVersion : Type 0 where
  pub generation : Text
  pub revision : ℕ

unfoldable pub validate_version : CertificateVersion → Check
unfolding validate_generation_id validate_revision
validate_version v = do validate_generation_id v.generation; validate_revision v.revision

unfoldable pub validate_job_id : Text → Check
unfolding validate_path_segment
validate_job_id id = do
  refuse (is_path_traversal id || is_dots id) path_traversal
  refuse (failed (validate_path_segment id) || ltb max_job_id_length (length id)) invalid_job_id
  require (all is_unreserved id) invalid_job_id

-- A byte from 0x21 to 0x7e.
abbrev pub is_visible : ℕ → Bool
is_visible c = not (ltb c 0x21 || ltb 0x7e c)

unfoldable pub validate_idempotency_key : Text → Check
validate_idempotency_key key = do
  refuse (is_empty key || ltb max_idempotency_key_length (length key)) invalid_idempotency_key
  require (all is_visible key) invalid_idempotency_key

module _ {Wire : Type 0} (codec : Codec Wire Text) where
  unfoldable pub unmarshal_generation_id : Wire → Result ErrorCode Text
  unmarshal_generation_id bytes = elim (codec.decode bytes) [
    | none ↦ err invalid_generation
    | some id ↦ do validate_generation_id id; ok id
  ]

  unfoldable pub marshal_generation_id : Text → Result ErrorCode Wire
  marshal_generation_id g = do validate_generation_id g; ok (codec.encode g)
