-- ===== src/Store/Jobs/Lease.antt =====
-- internal/store/workflows.go: `Claim`, `RenewLease`, `ReleaseLease`, `ListRecoverable`, `Retry`.
use cert_keeper.Prelude.{
  ℕ, ◌+◌, ◌/◌, ◌%◌, Text, Bool, true, not, ◌&&◌, ◌||◌, ◌==◌, nat_eq, text_eq, Option, none, some,
  ok, err, ltb, leb, List, if◌then◌else◌, filter, is_blank, take,
}
use cert_keeper.Prelude.Int.{ℤ, pos, negsuc, is_negative, pos_part}
use cert_keeper.Store.Sql.{update, order_by, first_by}
use cert_keeper.Store.Schema.{queued, running, failed, Job, Db, invalid_argument, Outcome}
use cert_keeper.Store.Jobs.Values.{
  attempts_exhausted, attempts_exhausted_message, is_queued, is_running, null_string, coalesce,
  is_some_text, later_than, null_or_due, created_before, update_one,
}

-- A job that a worker may take: tries are left, and it waits and is due, or its lease has ended.
abbrev pub is_recoverable : ℕ → Job → Bool
is_recoverable now j =
    ltb j.attempts j.max_attempts
    && ((is_queued j.status && null_or_due j.next_attempt_at now)
        || (is_running j.status && null_or_due j.lease_until now))

-- `ORDER BY COALESCE(next_attempt_at, created_at), created_at, id`.
abbrev pub due_before : Job → Job → Bool
due_before a b =
    let due_a = coalesce a.next_attempt_at a.created_at in
    let due_b = coalesce b.next_attempt_at b.created_at in
    ltb due_a due_b || (due_a == due_b && created_before a b)

abbrev pub bounded_limit : ℤ → ℕ
bounded_limit (pos n) = if n == 0 || ltb 500 n then 100 else n
bounded_limit (negsuc n) = 100

unfoldable pub list_recoverable : Db → ℕ → ℤ → List Job
list_recoverable db now limit =
    take (bounded_limit limit) (order_by due_before (filter (is_recoverable now) db.jobs))

abbrev pub nanos : ℕ
nanos = 1_000_000_000

-- `durationSeconds` of a duration that is positive: whole seconds, rounded up.
unfoldable pub duration_seconds : ℕ → ℕ
duration_seconds value =
    if not (value % nanos == 0) || ltb (value / nanos) 1 then value / nanos + 1 else value / nanos

-- `leaseDuration <= 0`.
abbrev pub not_positive : ℤ → Bool
not_positive (pos n) = n == 0
not_positive (negsuc n) = true

-- The first statement of `Claim`: a last try whose lease has ended has failed.
abbrev pub is_exhausted : ℕ → Job → Bool
is_exhausted now j =
    is_running j.status && leb j.max_attempts j.attempts && null_or_due j.lease_until now

unfoldable pub fail_exhausted : ℕ → Job → Job
fail_exhausted now j = record j {
  status = failed;
  lease_owner = none;
  lease_until = none;
  last_error_code = some attempts_exhausted;
  last_error_at = some now;
  error_message = some attempts_exhausted_message;
  finished_at = some now;
  updated_at = now;
}

-- The row that the second statement of `Claim` writes.
unfoldable pub lease_to : Text → ℕ → ℕ → Job → Job
lease_to owner until now j = record j {
  status = running;
  attempts = j.attempts + 1;
  lease_owner = some owner;
  lease_until = some until;
  next_attempt_at = none;
  started_at = some (coalesce j.started_at now);
  updated_at = now;
}

-- `Claim` with its arguments checked; `until` is when the lease ends.
unfoldable pub claim_row : Db → Text → ℕ → ℕ → Outcome (Option Job)
claim_row db owner until now =
    let jobs = update (is_exhausted now) (fail_exhausted now) db.jobs in
    elim (first_by due_before (filter (is_recoverable now) jobs)) [
      | none ↦ (record db { jobs = jobs }, ok none)
      | some j ↦ (
        record db { jobs = update (λ k. k.id == j.id) (lease_to owner until now) jobs },
        ok (some (lease_to owner until now j)),
      )
    ]

unfoldable pub claim : Db → ℕ → Text → ℤ → Outcome (Option Job)
claim db now owner lease_duration =
    if is_blank owner || not_positive lease_duration
    then (db, err invalid_argument)
    else claim_row db owner (now + duration_seconds (pos_part lease_duration)) now

-- `WHERE id=? AND status='running' AND lease_owner=? AND lease_until>?`.
abbrev pub is_held_by : Text → Text → ℕ → Job → Bool
is_held_by id owner now j =
    j.id == id
    && is_running j.status
    && is_some_text j.lease_owner owner
    && later_than j.lease_until now

unfoldable pub renew_lease : Db → ℕ → Text → Text → ℤ → Outcome (Unit {0})
renew_lease db now id owner lease_duration =
    if is_blank id || is_blank owner || not_positive lease_duration
    then (db, err invalid_argument)
    else update_one db (is_held_by id owner now) (λ j. record j {
      lease_until = some (now + duration_seconds (pos_part lease_duration));
      updated_at = now;
    })

-- The row that `ReleaseLease` writes.
unfoldable pub released : ℕ → Job → Job
released now j =
    let exhausted = leb j.max_attempts j.attempts in
    record j {
      status = if exhausted then failed else queued;
      lease_owner = none;
      lease_until = none;
      next_attempt_at = if exhausted then none else some now;
      last_error_code = if exhausted then some attempts_exhausted else j.last_error_code;
      last_error_at = if exhausted then some now else j.last_error_at;
      finished_at = if exhausted then some now else none;
      updated_at = now;
    }

unfoldable pub release_lease : Db → ℕ → Text → Text → Outcome (Unit {0})
release_lease db now id owner =
    if is_blank id || is_blank owner
    then (db, err invalid_argument)
    else update_one db (is_held_by id owner now) (released now)

-- The row that `retryAt` writes.
unfoldable pub retried : ℕ → ℕ → Text → Text → Job → Job
retried now next_attempt_at error_code error_message j =
    let exhausted = leb j.max_attempts j.attempts in
    record j {
      status = if exhausted then failed else queued;
      next_attempt_at = if exhausted then none else some next_attempt_at;
      lease_owner = none;
      lease_until = none;
      last_error_code = null_string error_code;
      last_error_at = some now;
      error_message = null_string error_message;
      finished_at = if exhausted then some now else none;
      updated_at = now;
    }

unfoldable pub retry_at : Db → ℕ → Text → Text → Text → Text → ℕ → Outcome (Unit {0})
retry_at db now id owner error_code error_message next_attempt_at =
    if is_blank id || is_blank owner || ltb next_attempt_at now
    then (db, err invalid_argument)
    else update_one db (is_held_by id owner now)
        (retried now next_attempt_at error_code error_message)

-- `Retry`, its clock read in nanoseconds.
unfoldable pub retry : Db → ℕ → Text → Text → Text → Text → ℤ → Outcome (Unit {0})
retry db now_nanos id owner error_code error_message backoff =
    if is_negative backoff
    then (db, err invalid_argument)
    else retry_at db (now_nanos / nanos) id owner error_code error_message
        ((now_nanos + pos_part backoff) / nanos)
