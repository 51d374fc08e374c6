-- ===== src/Protocol/Jobs/Laws.antt =====
-- What an accepted job status says.
use cert_keeper.Prelude.{
  ℕ, Text, Bool, true, false, not, ◌||◌, ◌&&◌, Option, none, some, ok, length, ◌≡◌, ◌≢◌, ◌↔◌, refl,
  ◌⊎◌, ◌≤◌, ltb, arith, [],
}
use cert_keeper.Protocol.Errors.{ErrorCode, ErrorResponse, unset, is_unset}
use cert_keeper.Protocol.Identifiers.{
  has_control, max_generation_id_length, max_job_id_length, validate_job_id, failed as is_err,
}
use cert_keeper.Protocol.Identifiers.Laws.{IsIdentifier}
use cert_keeper.Protocol.Jobs.{
  JobStatus, Instant, failed, is_failed, is_known, validate_state, validate_time_order,
  validate_job_version, given, validate_job_error, effective_code, validate_next_attempt,
}

-- Generation and revision are both absent or both valid.
abbrev pub IsVersion : Text → ℕ → Type 0
IsVersion generation revision =
    ((generation ≡ []) × (revision ≡ 0))
    ⊎ (IsIdentifier max_generation_id_length generation × (1 ≤ revision))

-- The instants that are given are not zero, and no job ends before it starts.
pub record IsOrdered (created_at : Instant) (started_at finished_at : Option Instant) : Type 0 where
  pub started_nonzero : (s : Instant) → started_at ≡ some s → 1 ≤ s
  pub finished_nonzero : (f : Instant) → finished_at ≡ some f → 1 ≤ f
  pub starts_later : (s : Instant) → started_at ≡ some s → created_at ≤ s
  pub finishes_later : (f : Instant) → finished_at ≡ some f → created_at ≤ f
  pub ends_later : (s f : Instant) → started_at ≡ some s → finished_at ≡ some f → s ≤ f

abbrev check_order : Instant → Option Instant → Option Instant → Bool
check_order created_at started_at finished_at =
    not (is_err (validate_time_order started_at finished_at))
    && not (given started_at (λ t. ltb t created_at))
    && not (given finished_at (λ t. ltb t created_at))

check_order_iff :
    (c : Instant) (s f : Option Instant) → (check_order c s f ≡ true) ↔ IsOrdered c s f
unfolding validate_time_order
check_order_iff c none none = ground arith
check_order_iff c none (some f) =
    (λ h. ground arith, λ h. ground (arith, h.finished_nonzero f, h.finishes_later f))
check_order_iff c (some s) none =
    (λ h. ground arith, λ h. ground (arith, h.started_nonzero s, h.starts_later s))
check_order_iff c (some s) (some f) = (
  λ h. ground arith,
  λ h. ground (
    arith,
    h.started_nonzero s,
    h.starts_later s,
    h.finished_nonzero f,
    h.finishes_later f,
    h.ends_later s f,
  ),
)

order_parts :
    (c : Instant) (s f : Option Instant)
    → check_order c s f ≡ true
    → (validate_time_order s f ≡ ok tt)
      × (given s (λ t. ltb t c) ≡ false)
      × (given f (λ t. ltb t c) ≡ false)
order_parts c s f h = ground arith

never_before_zero : (t : Option Instant) → given t (λ x. ltb x 0) ≡ false
never_before_zero none = refl
never_before_zero (some t) = ground arith

-- With no instant of creation the order is that of start and end.
pub validate_time_order_iff :
    (s f : Option Instant) → (validate_time_order s f ≡ ok tt) ↔ IsOrdered 0 s f
validate_time_order_iff s f = (
  λ h. (check_order_iff 0 s f).0 (rw (h, never_before_zero s, never_before_zero f)),
  λ h. (order_parts 0 s f ((check_order_iff 0 s f).1 h)).0,
)

-- The nested error has a code, and the flat fields agree with it where they are set.
pub record Agrees (j : JobStatus) (e : ErrorResponse) : Type 0 where
  pub coded : e.code ≢ unset
  pub same_code : (j.error_code ≡ unset) ⊎ (j.error_code ≡ e.code)
  pub same_retry : j.retryable ≡ e.retryable

pub is_unset_iff : (c : ErrorCode) → (is_unset c ≡ true) ↔ (c ≡ unset)
is_unset_iff unset = ground arith
is_unset_iff _ = ground arith

-- What an accepted status promises.
pub record IsConsistent (j : JobStatus) : Type 0 where
  pub identified : IsIdentifier max_job_id_length j.id
  pub known_state : is_known j.state ≡ true
  pub versioned : IsVersion j.generation j.revision
  pub ordered : IsOrdered j.created_at j.started_at j.finished_at
  pub short : length j.message ≤ 1024
  pub printable : has_control j.message ≡ false
  pub agreed : (e : ErrorResponse) → j.error ≡ some e → Agrees j e
  pub failure_coded : j.state ≡ failed → effective_code j.error_code j.error ≢ unset
  pub planned :
      (t : Instant)
      → j.next_attempt_at ≡ some t
      → (j.retryable ≡ true) × (1 ≤ t) × (j.created_at ≤ t)

-- The checks of `validate_job_status`, one by one.
record Passes (j : JobStatus) : Type 0 where
  job_id : validate_job_id j.id ≡ ok tt
  state : validate_state j.state ≡ ok tt
  version : validate_job_version j.generation j.revision ≡ ok tt
  order : validate_time_order j.started_at j.finished_at ≡ ok tt
  start : given j.started_at (λ t. ltb t j.created_at) ≡ false
  finish : given j.finished_at (λ t. ltb t j.created_at) ≡ false
  message : (ltb 1024 (length j.message) || has_control j.message) ≡ false
  nested : validate_job_error j ≡ ok tt
  coded : (is_failed j.state && is_unset (effective_code j.error_code j.error)) ≡ false
  next : validate_next_attempt j ≡ ok tt
