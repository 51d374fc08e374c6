-- ===== src/Store/Jobs/Create.antt =====
-- internal/store/workflows.go: `CreateCertificateJob` and `GetByIdempotency`.
use cert_keeper.Prelude.{
  ℕ, Text, Bool, not, ◌&&◌, ◌||◌, ◌==◌, nat_eq, text_eq, Option, none, some, Result, ok, err, [],
  ◌∷◌, ◌++◌, if◌then◌else◌, any, filter, is_blank,
}
use cert_keeper.Prelude.Int.{ℤ, pos, negsuc, leb_ℤ, is_negative, pos_part}
use cert_keeper.Store.Sql.{first_by}
use cert_keeper.Store.Sql.{first_by}
use cert_keeper.Store.Schema.{
  JobStatus, unset, queued, Job, JobRequest, Db, StoreError, invalid_argument, no_randomness,
  foreign_key, unique, Outcome,
}
use cert_keeper.Store.Domains.{is_certificate_domain}
use cert_keeper.Store.Jobs.Values.{
  valid_job_status, null_string, member_text, refers_to, same_key, created_before,
}

unfoldable pub get_by_idempotency : Db → Text → Text → Text → Option Job
get_by_idempotency db domain operation key =
    first_by created_before (filter (same_key domain operation key) db.jobs)

abbrev pub default_max_attempts : ℤ
default_max_attempts = pos 3

-- `if job.Status == "" { job.Status = "queued" }`, and the like for `MaxAttempts`.
abbrev pub default_status : JobStatus → JobStatus
default_status unset = queued
default_status s = s

abbrev pub default_attempts : ℤ → ℤ
default_attempts (pos n) = if n == 0 then default_max_attempts else pos n
default_attempts (negsuc n) = negsuc n

-- The row that `CreateCertificateJob` inserts, its defaults filled in.
unfoldable pub new_job : ℕ → Text → JobRequest → Job
new_job now id r = record {
  id = id;
  domain = r.domain;
  operation = r.operation;
  idempotency_key = r.idempotency_key;
  status = default_status r.status;
  attempts = pos_part r.attempts;
  max_attempts = pos_part (default_attempts r.max_attempts);
  next_attempt_at = r.next_attempt_at;
  lease_owner = null_string r.lease_owner;
  lease_until = r.lease_until;
  last_error_code = r.last_error_code;
  last_error_at = r.last_error_at;
  requested_by = r.requested_by;
  error_message = r.error_message;
  created_at = if r.created_at == 0 then now else r.created_at;
  updated_at = now;
  started_at = r.started_at;
  finished_at = r.finished_at;
}

-- The tests of `CreateCertificateJob` before it chooses an id.
unfoldable pub is_named : JobRequest → Bool
is_named r =
    is_certificate_domain r.domain && not (is_blank r.operation || is_blank r.idempotency_key)

-- Those that follow.
unfoldable pub valid_request : JobRequest → Bool
valid_request r =
    valid_job_status (default_status r.status)
    && leb_ℤ (pos 1) (default_attempts r.max_attempts)
    && not (is_negative r.attempts)
    && leb_ℤ r.attempts (default_attempts r.max_attempts)

-- `INSERT INTO certificate_jobs` under the primary key, the unique index and the foreign keys.
unfoldable pub insert_job : Db → Job → Result StoreError Db
insert_job db j =
    if any (λ k. k.id == j.id || same_key j.domain j.operation j.idempotency_key k) db.jobs
    then err unique
    else if member_text j.domain db.certs && refers_to j.requested_by db.tokens
    then ok (record db { jobs = db.jobs ++ j ∷ [] })
    else err foreign_key

-- The caller's id, or the one that `newStoreID` drew.
abbrev pub job_id : Text → Option Text → Option Text
job_id [] fresh = fresh
job_id (c ∷ s) fresh = some (c ∷ s)

-- What follows the insertion: a conflict returns the row that holds the key, if there is one.
unfoldable pub insert_or_get : Db → Job → Outcome Job
insert_or_get db j = elim (insert_job db j) [
  | ok db' ↦ (db', ok j)
  | err unique ↦ elim (get_by_idempotency db j.domain j.operation j.idempotency_key) [
    | none ↦ (db, err unique)
    | some existing ↦ (db, ok existing)
  ]
  | err e ↦ (db, err e)
]

-- The rest of `CreateCertificateJob` once `newStoreID` has answered, if it was asked.
unfoldable pub create_with_id : Db → ℕ → JobRequest → Option Text → Outcome Job
create_with_id db now r none = (db, err no_randomness)
create_with_id db now r (some id) =
    if valid_request r then insert_or_get db (new_job now id r) else (db, err invalid_argument)

unfoldable pub create_certificate_job : Db → ℕ → Option Text → Option JobRequest → Outcome Job
create_certificate_job db now fresh none = (db, err invalid_argument)
create_certificate_job db now fresh (some r) =
    if is_named r then create_with_id db now r (job_id r.id fresh) else (db, err invalid_argument)
