-- ===== src/Scheduler/Adapter/Tests.antt =====
-- The server's worker on a small database, and instances of the theorems on it.
use cert_keeper.Prelude.{
  ℕ, Text, Bool, true, false, ◌<◌, Option, none, some, Result, ok, err, List, [], ◌∷◌, map, length,
  ◌≡◌, refl, codes, arith,
}
use cert_keeper.Store.Schema.{Job, JobStatus, Db}
use cert_keeper.Store.Jobs.WellFormed.{IsWellFormed}
use cert_keeper.Service.Execute.{Answers, Cause}
use cert_keeper.Scheduler.{Config}
use cert_keeper.Scheduler.Worker.{
  Task, Turn, tick, PersistentWorker, PersistentSummary, empty_summary, create_failed, has_stopped,
}
use cert_keeper.Scheduler.Worker.Execute.{Renewal, take_turns, renewal_of, execute_job}
use cert_keeper.Scheduler.Worker.Cycle.{run_cycle, scan_candidates, process_due_jobs}
use cert_keeper.Scheduler.Adapter.{
  World, Certs, server_worker, adapter_job, reconcile_job, plain, worker_actor,
}
use cert_keeper.Scheduler.Adapter.Scan.{scan_candidates-same}
use cert_keeper.Scheduler.Adapter.Retry.{IsFailed, execute_job-IsFailed}
use cert_keeper.Scheduler.Adapter.Spending.{server_worker-ends}

abbrev domain : Text
domain = codes "a.example.com"

-- A job that a token requested.
abbrev waiting : Job
waiting = record {
  id = codes "j1";
  domain = domain;
  operation = codes "reconcile";
  idempotency_key = codes "k1";
  status = JobStatus.queued;
  attempts = 0;
  max_attempts = 3;
  next_attempt_at = none;
  lease_owner = none;
  lease_until = none;
  last_error_code = none;
  last_error_at = none;
  requested_by = some (codes "t1");
  error_message = none;
  created_at = 5;
  updated_at = 5;
  started_at = none;
  finished_at = none;
}

-- The worker w1 has claimed it.
abbrev leased : Job
leased = record waiting {
  status = JobStatus.running;
  attempts = 1;
  lease_owner = some (codes "w1");
  lease_until = some 69;
  started_at = some 9;
  updated_at = 9;
}

abbrev tables : Job → Db
tables j = record {
  certs = domain ∷ [];
  tokens = codes "t1" ∷ [];
  jobs = j ∷ [];
  generations = [];
  next_generation_id = 1;
  reported = [];
}

abbrev world : Job → World
world j = record {
  db = tables j;
  clock = 9_000_000_000;
  canceled = none;
  fresh = some (codes "j2");
}

abbrev certs : Certs
certs = record {
  challenge_mode = λ domain. codes "dns_api";
  is_read = λ domain. true;
  error_text = λ e. codes "store";
}

abbrev config : Config
config = record {
  interval = 43_200_000_000_000;
  jitter = 0;
  poll_interval = 5_000_000_000;
  lease_duration = 60_000_000_000;
  renew_interval = 20_000_000_000;
  backoff_initial = 30_000_000_000;
  backoff_max = 1_800_000_000_000;
  max_attempts = 5;
  concurrency = 1;
}

abbrev timeout : Cause
timeout = record { is_retryable = true; message = codes "timeout"; error_text = codes "timeout" }

-- The files cannot be read for now.
abbrev answers : Answers
answers = record {
  renew_days = ok 30;
  state = err timeout;
  list_error = none;
  files_current = none;
  files_manifest = false;
  files_artifact = none;
  files_not_after = none;
  secrets_error = none;
  staging_error = none;
  issue_error = none;
  publish = err timeout;
  artifact = err timeout;
  not_after = none;
  cause_of = λ prefix e. timeout;
}

-- The lease is renewed once during each job.
abbrev renewed_once : Task → World → List (Turn World)
renewed_once job s = tick ∷ []

abbrev worker : PersistentWorker World
worker = server_worker certs config (codes "w1") (λ n. n ∷ []) renewed_once (λ job s. answers)

working : Unit {0}
unfolding cert_keeper.Scheduler.Worker.add_error cert_keeper.Scheduler.Worker.add_scanned
    cert_keeper.Scheduler.Worker.add_created cert_keeper.Scheduler.Worker.add_skipped
    cert_keeper.Scheduler.Worker.add_claimed cert_keeper.Scheduler.Worker.add_succeeded
    cert_keeper.Scheduler.Worker.add_retried cert_keeper.Scheduler.Worker.add_failed
    cert_keeper.Scheduler.Worker.add_released cert_keeper.Scheduler.Worker.Execute.take_turns
    cert_keeper.Scheduler.Worker.Execute.update_claimed_job
    cert_keeper.Scheduler.Worker.Execute.release_canceled_job
    cert_keeper.Scheduler.Worker.Execute.may_retry
    cert_keeper.Scheduler.Worker.Execute.finish_failed
    cert_keeper.Scheduler.Worker.Execute.execute_job
    cert_keeper.Scheduler.Worker.Cycle.scan_idempotency_key
    cert_keeper.Scheduler.Worker.Cycle.scan_candidate cert_keeper.Scheduler.Worker.Cycle.scan_rest
    cert_keeper.Scheduler.Worker.Cycle.scan_candidates
    cert_keeper.Scheduler.Worker.Cycle.process_turn
    cert_keeper.Scheduler.Worker.Cycle.process_due_jobs cert_keeper.Scheduler.Worker.Cycle.run_cycle
    cert_keeper.Scheduler.Adapter.adapter_job cert_keeper.Scheduler.Adapter.job_request
    cert_keeper.Scheduler.Adapter.create_job cert_keeper.Scheduler.Adapter.claim_job
    cert_keeper.Scheduler.Adapter.renew_job_lease cert_keeper.Scheduler.Adapter.update_job
    cert_keeper.Scheduler.Adapter.list_candidates cert_keeper.Scheduler.Adapter.reconcile_job
    cert_keeper.Scheduler.Adapter.server_worker cert_keeper.Store.Jobs.Create.get_by_idempotency
    cert_keeper.Store.Jobs.Create.new_job cert_keeper.Store.Jobs.Create.is_named
    cert_keeper.Store.Jobs.Create.valid_request cert_keeper.Store.Jobs.Create.insert_job
    cert_keeper.Store.Jobs.Create.insert_or_get cert_keeper.Store.Jobs.Create.create_with_id
    cert_keeper.Store.Jobs.Create.create_certificate_job
    cert_keeper.Store.Jobs.Lease.list_recoverable cert_keeper.Store.Jobs.Lease.duration_seconds
    cert_keeper.Store.Jobs.Lease.fail_exhausted cert_keeper.Store.Jobs.Lease.lease_to
    cert_keeper.Store.Jobs.Lease.claim_row cert_keeper.Store.Jobs.Lease.claim
    cert_keeper.Store.Jobs.Lease.renew_lease cert_keeper.Store.Jobs.Lease.released
    cert_keeper.Store.Jobs.Lease.release_lease cert_keeper.Store.Jobs.Lease.retried
    cert_keeper.Store.Jobs.Lease.retry_at cert_keeper.Store.Jobs.Lease.retry
    cert_keeper.Store.Jobs.Status.with_status
    cert_keeper.Store.Jobs.Status.update_certificate_job_status
    cert_keeper.Store.Jobs.Status.delete_certificate_job
    cert_keeper.Store.Jobs.Status.get_certificate_job
    cert_keeper.Store.Jobs.Status.list_certificate_jobs cert_keeper.Scheduler.backoff
    cert_keeper.Scheduler.doubled cert_keeper.Scheduler.classify_error
    cert_keeper.Scheduler.temporary_http_status cert_keeper.Service.Execute.should_renew
    cert_keeper.Service.Execute.finish_v2_success
    cert_keeper.Service.Execute.finish_v2_generation_failure cert_keeper.Service.Execute.recoverable
    cert_keeper.Service.Execute.finalize cert_keeper.Service.Execute.recover_rows
    cert_keeper.Service.Execute.recover_publishing_generation cert_keeper.Service.Execute.issue
    cert_keeper.Service.Execute.execute_claimed_v2_job
    cert_keeper.Store.Generations.create_certificate_generation
    cert_keeper.Store.Generations.max_generation cert_keeper.Store.Generations.next_generation
    cert_keeper.Store.Generations.demoted cert_keeper.Store.Generations.conflicts
    cert_keeper.Store.Generations.insert_generation cert_keeper.Store.Generations.new_generation
    cert_keeper.Store.Generations.create_for_job cert_keeper.Store.Generations.create_numbered
    cert_keeper.Store.Generations.numbered cert_keeper.Store.Generations.revised
    cert_keeper.Store.Generations.is_creatable cert_keeper.Store.Generations.with_outcome
    cert_keeper.Store.Generations.update_generation_status
    cert_keeper.Store.Generations.is_revision_taken cert_keeper.Store.Generations.with_artifact
    cert_keeper.Store.Generations.update_generation_artifact
    cert_keeper.Store.Generations.valid_sha256_digest cert_keeper.Store.Sql.order_by
    cert_keeper.Service.Report.list_certificate_generations cert_keeper.Service.Reconcile.is_forced
    cert_keeper.Prelude.text_beq cert_keeper.Store.Domains.is_certificate_domain
    cert_keeper.Prelude.to_lower cert_keeper.Prelude.is_padded cert_keeper.Protocol.Domain.is_ip
    cert_keeper.Prelude.split cert_keeper.Protocol.Domain.is_label cert_keeper.Prelude.is_blank
    cert_keeper.Prelude.blank_from cert_keeper.Store.Sql.first_by
    cert_keeper.Store.Jobs.Granted.total
working = tt

abbrev task : Task
task =
    adapter_job leased (record { domain = domain; challenge_mode = codes "dns_api" }) worker_actor

abbrev turned : World × Renewal
turned =
    take_turns worker task.id (renewed_once task (world leased))
      (world leased, renewal_of worker task)

abbrev reconciled : World
reconciled = (reconcile_job answers task turned.0).0

-- The service queues the job again, and the worker fails it.
reconciled-queued : map (λ (j : Job). j.status) reconciled.db.jobs ≡ (JobStatus.queued ∷ [])
unfolding working
reconciled-queued = refl

executed-failed :
    map (λ (j : Job). j.status) (execute_job worker task (world leased, empty_summary)).0.db.jobs
    ≡ (JobStatus.failed ∷ [])
unfolding working
executed-failed = refl

execute_job-IsFailed_example :
    IsFailed (codes "j1") (execute_job worker task (world leased, empty_summary)).0.db
unfolding working
execute_job-IsFailed_example =
    execute_job-IsFailed certs config (codes "w1") (λ n. n ∷ []) renewed_once (λ job s. answers)
      task (world leased) turned.0 turned.1 empty_summary (plain (codes "timeout")) refl refl refl
      refl

scan_candidates-same_example :
    (scan_candidates worker (world waiting, empty_summary)).0 ≡ world waiting
unfolding working
scan_candidates-same_example =
    scan_candidates-same certs config (codes "w1") (λ n. n ∷ []) renewed_once (λ job s. answers)
      (world waiting) empty_summary refl

-- The job after a cycle, and what the cycle counted.
abbrev spent : Job
spent = record waiting {
  status = JobStatus.failed;
  attempts = 1;
  last_error_code = some (codes "retryable");
  last_error_at = some 9;
  error_message = some (codes "timeout");
  updated_at = 9;
  started_at = some 9;
  finished_at = some 9;
}

abbrev counted : PersistentSummary
counted = record {
  scanned = 1;
  created = 0;
  skipped = 0;
  claimed = 1;
  succeeded = 0;
  retried = 0;
  failed = 1;
  released = 0;
  errors = create_failed domain (codes "store") ∷ has_stopped domain (codes "timeout") ∷ [];
}

waiting-IsWellFormed : IsWellFormed (tables waiting)
waiting-IsWellFormed = ground arith

server_worker-ends_example :
    (y : World × PersistentSummary) × (process_due_jobs worker 4 (world waiting, empty_summary)
      ≡ some y)
unfolding working
server_worker-ends_example =
    server_worker-ends certs config (codes "w1") (λ n. n ∷ []) renewed_once (λ job s. answers)
      (λ job s. (tt, tt)) 4 (world waiting) empty_summary waiting-IsWellFormed (omega arith)
