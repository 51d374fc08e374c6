-- ===== src/Protocol/Identifiers/Laws.antt =====
-- What the validated identifiers look like.
use cert_keeper.Prelude.{
  ℕ, ◌≤◌, Text, true, false, nat_eq, text_eq, ok, length, all, codes, is_empty_iff, ◌≡◌, ◌≢◌, ◌↔◌,
  refl, [], ◌∷◌, arith, All, all_iff, any_of_all-not, text_beq_iff, contains_byte,
}
use cert_keeper.Protocol.Identifiers.{
  is_path_traversal, is_unreserved, has_control, validate_generation_id, validate_job_id,
  validate_idempotency_key, is_visible, max_generation_id_length, max_job_id_length,
}

-- A letter, a digit or one of - . _ ~, in ASCII.
abbrev pub IsUnreserved : ℕ → Type 0
IsUnreserved c = is_unreserved c ≡ true

-- A name that can stand as one segment of a path or as the name of a directory: it is neither
-- empty nor longer than the limit, holds unreserved characters only, and is neither "." nor "..".
pub record IsIdentifier (limit : ℕ) (id : Text) : Type 0 where
  pub not_empty : 1 ≤ length id
  pub fits : length id ≤ limit
  pub unreserved : All IsUnreserved id
  pub not_dot : id ≢ codes "."
  pub not_dot_dot : id ≢ codes ".."

pub is_path_traversal_of_unreserved :
    (id : Text) → all is_unreserved id ≡ true → is_path_traversal id ≡ false
unfolding is_path_traversal
is_path_traversal_of_unreserved id h = any_of_all-not is_unreserved _ id (λ c u. ground arith) h

pub has_control_of_unreserved : (id : Text) → all is_unreserved id ≡ true → has_control id ≡ false
unfolding has_control
has_control_of_unreserved id h = any_of_all-not is_unreserved _ id (λ c u. ground arith) h

-- An accepted generation id is an identifier of at most 128 bytes, and each such is accepted.
pub validate_generation_id_iff :
    (id : Text) → (validate_generation_id id ≡ ok tt) ↔ IsIdentifier max_generation_id_length id
unfolding validate_generation_id
validate_generation_id_iff id = (
  λ h. ground (
    arith,
    is_empty_iff id,
    all_iff is_unreserved id,
    text_beq_iff id (codes "."),
    text_beq_iff id (codes ".."),
  ),
  λ h. ground (
    arith,
    is_empty_iff id,
    all_iff is_unreserved id,
    text_beq_iff id (codes "."),
    text_beq_iff id (codes ".."),
    is_path_traversal_of_unreserved id,
    has_control_of_unreserved id,
  ),
)

-- An accepted job id is an identifier of at most 128 bytes, and each such is accepted.
pub validate_job_id_iff :
    (id : Text) → (validate_job_id id ≡ ok tt) ↔ IsIdentifier max_job_id_length id
unfolding validate_job_id
validate_job_id_iff id = (
  λ h. ground (
    arith,
    is_empty_iff id,
    all_iff is_unreserved id,
    text_beq_iff id (codes "."),
    text_beq_iff id (codes ".."),
  ),
  λ h. ground (
    arith,
    is_empty_iff id,
    all_iff is_unreserved id,
    text_beq_iff id (codes "."),
    text_beq_iff id (codes ".."),
    is_path_traversal_of_unreserved id,
    has_control_of_unreserved id,
  ),
)

-- A key is accepted exactly if it has 1 to 128 bytes, all of them visible ASCII.
pub validate_idempotency_key_iff :
    (key : Text)
    → (validate_idempotency_key key ≡ ok tt)
      ↔ ((1 ≤ length key) × (length key ≤ 128) × All (λ c. (0x21 ≤ c) × (c ≤ 0x7e)) key)
unfolding validate_idempotency_key
validate_idempotency_key_iff key = (
  λ h. ground (arith, is_empty_iff key, visible key),
  λ h. ground (arith, is_empty_iff key, visible key),
)
  where
    visible : (s : Text) → (all is_visible s ≡ true) ↔ All (λ c. (0x21 ≤ c) × (c ≤ 0x7e)) s
    visible [] = (λ _. tt, λ _. refl)
    visible (c ∷ s) = ground (arith, visible s)

-- No identifier holds a separator of paths.
pub IsIdentifier-no_slash :
    {limit : ℕ} {id : Text} → IsIdentifier limit id → contains_byte b'/' id ≡ false
IsIdentifier-no_slash {id} h =
    any_of_all-not is_unreserved _ id (λ c u. ground arith) ((all_iff _ id).1 h.unreserved)
