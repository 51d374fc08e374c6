-- ===== src/Protocol/Jobs.antt =====
-- pkg/certproto/protocol.go and contract.go: the status of an asynchronous job.
pub mod Laws
use cert_keeper.Prelude.{
  ℕ, Text, Bool, true, false, not, ◌&&◌, ◌||◌, ◌==◌, nat_eq, Eq, Option, none, some, ok, ◌>>=◌,
  ◌>>◌, refuse, require, ltb, length, is_empty, Result, if◌then◌else◌,
}
use cert_keeper.Protocol.Errors.{
  Check, ErrorCode, ErrorResponse, code_eq, is_unset, invalid_request, invalid_job_status,
}
use cert_keeper.Protocol.Codec.{Codec, unmarshal_strict}
use cert_keeper.Protocol.Identifiers.{
  validate_job_id, validate_generation_id, validate_revision, has_control,
}

-- `other` is any string that is no state of the package.
pub data JobState : Type 0 where
  queued running succeeded failed cancelled : JobState
  other : Text → JobState

unfoldable pub is_terminal : JobState → Bool
is_terminal succeeded = true
is_terminal failed = true
is_terminal cancelled = true
is_terminal _ = false

abbrev pub is_known : JobState → Bool
is_known (other _) = false
is_known _ = true

abbrev pub is_failed : JobState → Bool
is_failed failed = true
is_failed _ = false

unfoldable pub validate_state : JobState → Check
validate_state s = require (is_known s) invalid_job_status

-- An instant, in nanoseconds since the zero time of Go, which is 0.
abbrev pub Instant : Type 0
Instant = ℕ

pub record JobStatus : Type 0 where
  pub id : Text
  pub state : JobState
  pub generation : Text
  pub revision : ℕ  -- uint64
  pub message : Text
  pub retryable : Bool
  pub error_code : ErrorCode
  pub next_attempt_at : Option Instant
  pub error : Option ErrorResponse
  pub created_at : Instant
  pub started_at : Option Instant
  pub finished_at : Option Instant

-- `t != nil && test(*t)`.
abbrev pub given : Option Instant → (Instant → Bool) → Bool
given none test = false
given (some t) test = test t

-- `start != nil && finish != nil && finish.Before(*start)`.
abbrev ends_early : Option Instant → Option Instant → Bool
ends_early started_at none = false
ends_early started_at (some finish) = given started_at (λ start. ltb finish start)

unfoldable pub validate_time_order : Option Instant → Option Instant → Check
validate_time_order started_at finished_at = do
  refuse (given started_at (λ t. t == 0)) invalid_request
  refuse (given finished_at (λ t. t == 0)) invalid_request
  refuse (ends_early started_at finished_at) invalid_request

-- The part of `JobStatus.Validate` on generation and revision.
unfoldable pub validate_job_version : Text → ℕ → Check
validate_job_version generation revision = do
  refuse (if is_empty generation then not (revision == 0) else revision == 0) invalid_job_status
  if is_empty generation
      then ok tt
      else validate_generation_id generation >> validate_revision revision

-- The part on the two forms of an error.
abbrev pub codes_differ : ErrorCode → ErrorCode → Bool
codes_differ flat nested = not (is_unset flat) && not (flat == nested)

abbrev pub flags_differ : Bool → Bool → Bool
flags_differ flat nested = (if flat then not nested else nested) && (flat || nested)

unfoldable pub validate_job_error : JobStatus → Check
validate_job_error j = elim j.error [
  | none ↦ ok tt
  | some e ↦ do
    refuse (is_unset e.code) invalid_job_status
    refuse (codes_differ j.error_code e.code) invalid_job_status
    refuse (flags_differ j.retryable e.retryable) invalid_job_status
]

-- `errorCode`, the code that either form gives.
abbrev pub effective_code : ErrorCode → Option ErrorResponse → ErrorCode
effective_code flat none = flat
effective_code flat (some e) = if is_unset flat then e.code else flat

-- The part on the next attempt.
unfoldable pub validate_next_attempt : JobStatus → Check
validate_next_attempt j = elim j.next_attempt_at [
  | none ↦ ok tt
  | some t ↦ do
    refuse (not j.retryable || t == 0) invalid_job_status
    refuse (not (j.created_at == 0) && ltb t j.created_at) invalid_job_status
]

unfoldable pub validate_job_status : JobStatus → Check
validate_job_status j = do
  validate_job_id j.id
  validate_state j.state
  validate_job_version j.generation j.revision
  validate_time_order j.started_at j.finished_at
  refuse (given j.started_at (λ t. ltb t j.created_at)) invalid_job_status
  refuse (given j.finished_at (λ t. ltb t j.created_at)) invalid_job_status
  refuse (ltb 1024 (length j.message) || has_control j.message) invalid_job_status
  validate_job_error j
  refuse (is_failed j.state && is_unset (effective_code j.error_code j.error)) invalid_job_status
  validate_next_attempt j

-- Fills the flat fields from the nested error.
unfoldable pub canonical_job_status : JobStatus → JobStatus
canonical_job_status j = elim j.error [
  | none ↦ j
  | some e ↦ record j {
    retryable = if j.retryable then true else e.retryable;
    error_code = if is_unset j.error_code then e.code else j.error_code;
  }
]

module _ {Wire : Type 0} (codec : Codec Wire JobStatus) where
  unfoldable pub unmarshal_job_status : Wire → Result ErrorCode JobStatus
  unmarshal_job_status bytes = do
    decoded ← unmarshal_strict codec bytes
    let status = canonical_job_status decoded
    validate_job_status status
    ok status

  unfoldable pub marshal_job_status : JobStatus → Result ErrorCode Wire
  marshal_job_status j = do
    let status = canonical_job_status j
    validate_job_status status
    ok (codec.encode status)
