-- ===== src/Store/Jobs/Status.antt =====
-- internal/store/workflows.go: `UpdateCertificateJobStatus`, `DeleteCertificateJob`, and the reading
-- of one job or of a list of jobs.
use cert_keeper.Prelude.{
  Option, ℕ, Text, not, ◌==◌, nat_eq, text_eq, none, some, ok, err, if◌then◌else◌, any, filter,
  List, Bool, true, false, ◌&&◌, ◌||◌, is_empty, take, drop,
}
use cert_keeper.Store.Sql.{find, order_by}
use cert_keeper.Store.Schema.{
  JobStatus, unset, queued, running, succeeded, failed, cancelled, other, Job, Db, invalid_argument,
  no_rows, foreign_key, Outcome,
}
use cert_keeper.Prelude.Int.{ℤ, pos_part}
use cert_keeper.Store.Jobs.Lease.{bounded_limit}
use cert_keeper.Store.Jobs.Values.{
  valid_job_status, is_terminal_job_status, is_running, null_string, coalesce?, update_one,
  created_before,
}

-- The row that `UpdateCertificateJobStatus` writes.
unfoldable pub with_status : ℕ → JobStatus → Text → Job → Job
with_status now status error_message j =
    let terminal = is_terminal_job_status status in
    record j {
      status = status;
      error_message = null_string error_message;
      updated_at = now;
      started_at = coalesce? j.started_at (if is_running status then some now else none);
      finished_at = if terminal then some now else none;
      lease_owner = if terminal then none else j.lease_owner;
      lease_until = if terminal then none else j.lease_until;
      next_attempt_at = if terminal then none else j.next_attempt_at;
    }

unfoldable pub update_certificate_job_status : Db → ℕ → Text → JobStatus → Text → Outcome (Unit {0})
update_certificate_job_status db now id status error_message =
    if valid_job_status status
    then update_one db (λ j. j.id == id) (with_status now status error_message)
    else (db, err invalid_argument)

-- `DELETE ... WHERE id=?`; generations that refer to the job forbid it.
unfoldable pub delete_certificate_job : Db → Text → Outcome (Unit {0})
delete_certificate_job db id =
    if any (λ j. j.id == id) db.jobs
    then if any (λ g. g.job_id == id) db.generations
      then (db, err foreign_key)
      else (record db { jobs = filter (λ j. not (j.id == id)) db.jobs }, ok tt)
    else (db, err no_rows)

unfoldable pub get_certificate_job : Db → Text → Option Job
get_certificate_job db id = find (λ j. j.id == id) db.jobs

pub record JobFilter : Type 0 where
  pub domain : Text
  pub status : JobStatus
  pub limit : ℤ
  pub offset : ℤ

abbrev same_status : JobStatus → JobStatus → Bool
same_status unset unset = true
same_status queued queued = true
same_status running running = true
same_status succeeded succeeded = true
same_status failed failed = true
same_status cancelled cancelled = true
same_status (other s) (other t) = s == t
same_status _ _ = false

abbrev is_unset : JobStatus → Bool
is_unset unset = true
is_unset _ = false

-- The conditions that `ListCertificateJobs` adds for the fields of the filter that are not empty.
abbrev pub passes_filter : JobFilter → Job → Bool
passes_filter f j =
    (is_empty f.domain || j.domain == f.domain)
    && (is_unset f.status || same_status j.status f.status)

-- `ORDER BY created_at DESC, id DESC LIMIT ? OFFSET ?`, a negative offset read as 0.
unfoldable pub list_certificate_jobs : Db → JobFilter → List Job
list_certificate_jobs db f = take (bounded_limit f.limit) (
    drop (pos_part f.offset)
      (order_by (λ a b. created_before b a) (filter (passes_filter f) db.jobs)))
