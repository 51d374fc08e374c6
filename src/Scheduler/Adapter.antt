-- ===== src/Scheduler/Adapter.antt =====
-- cmd/server/main.go: `persistentStoreAdapter` and `persistentReconciler`, the worker's store and
-- reconciler over the tables and internal/service; and internal/service/v2.go: `ReconcileJob` and
-- `ListRenewalCandidates`.
pub mod Scan
pub mod Retry
pub mod Tries
pub mod Spending
mod Tests
use cert_keeper.Prelude.{
  ℕ, ◌+◌, ◌-◌, ◌/◌, ◌==◌, nat_eq, Text, Bool, true, false, Option, none, some, Result, ok, err,
  List, [], ◌∷◌, map, is_empty, if◌then◌else◌, codes,
}
use cert_keeper.Prelude.Int.{pos}
use cert_keeper.Store.Schema.{Db, Job, JobRequest, JobStatus, StoreError, Outcome}
use cert_keeper.Store.Jobs.Create.{create_certificate_job}
use cert_keeper.Store.Jobs.Lease.{claim, renew_lease, nanos}
use cert_keeper.Store.Jobs.Status.{update_certificate_job_status, get_certificate_job}
use cert_keeper.Service.Execute.{Answers, execute_claimed_v2_job}
use cert_keeper.Scheduler.{Config, Evidence}
use cert_keeper.Scheduler.Worker.{
  Actor, Candidate, JobSpec, Task, ClaimRequest, LeaseRenewal, JobUpdate, SkipRecord, Answer,
  PersistentStore, Failure, Turn, Reconciliation, PersistentWorker,
}

-- What the worker runs in: the tables, the clock in nanoseconds, `ctx.Err()`, and what
-- `newStoreID` would draw next.
pub record World : Type 0 where
  pub db : Db
  pub clock : ℕ
  pub canceled : Option Text
  pub fresh : Option Text

-- The `challenge_mode` of a certificate, whether `GetCert` reads it, and the text of an error.
pub record Certs : Type 0 where
  pub challenge_mode : Text → Text
  pub is_read : Text → Bool
  pub error_text : StoreError → Text

abbrev pub seconds : World → ℕ
seconds s = s.clock / nanos

-- An operation of the store as one of the world.
abbrev pub on_db : {A : Type 0} → Certs → World → Outcome A → Answer World A
on_db certs s (db, ok a) = (record s { db = db }, ok a)
on_db certs s (db, err e) = (record s { db = db }, err (certs.error_text e))

abbrev pub answer : {A B : Type 0} → (A → B) → Answer World A → Answer World B
answer f (s, ok a) = (s, ok (f a))
answer f (s, err e) = (s, err e)

abbrev pub text_or_empty : Option Text → Text
text_or_empty none = []
text_or_empty (some s) = s

-- The lease version and the instants stay zero.
unfoldable pub adapter_job : Job → Candidate → Actor → Task
adapter_job j candidate actor = record {
  id = j.id;
  candidate = candidate;
  actor = actor;
  status = j.status;
  attempts = j.attempts;
  max_attempts = j.max_attempts;
  lease_owner = text_or_empty j.lease_owner;
  lease_version = 0;
}

-- `&store.CertificateJob{...}` of `CreateJob`.
unfoldable pub job_request : JobSpec → JobRequest
job_request spec = record {
  id = [];
  domain = spec.candidate.domain;
  operation = codes "reconcile";
  idempotency_key = spec.idempotency_key;
  status = JobStatus.unset;
  attempts = pos 0;
  max_attempts = pos 0;
  next_attempt_at = none;
  lease_owner = [];
  lease_until = none;
  last_error_code = none;
  last_error_at = none;
  requested_by = if is_empty spec.actor.id then none else some spec.actor.id;
  error_message = none;
  created_at = spec.created_at / nanos;
  started_at = none;
  finished_at = none;
}

unfoldable pub create_job : Certs → JobSpec → World → Answer World (Task × Bool)
create_job certs spec s =
    answer
      (λ (j : Job).
        (adapter_job j spec.candidate spec.actor, j.created_at == spec.created_at / nanos))
      (on_db certs s (create_certificate_job s.db (seconds s) s.fresh (some (job_request spec))))

-- The challenge mode of a job that was claimed, "dns_api" where none is known.
abbrev pub mode_of : Certs → Text → Text
mode_of certs domain =
    if certs.is_read domain
    then if is_empty (certs.challenge_mode domain)
      then codes "dns_api"
      else certs.challenge_mode domain
    else codes "dns_api"

-- `scheduler.Actor{ID: "certificate-worker", Kind: "system"}`.
abbrev pub worker_actor : Actor
worker_actor = record { id = codes "certificate-worker"; kind = codes "system" }

abbrev pub claimed_task : Certs → Option Job → Option Task
claimed_task certs none = none
claimed_task certs (some j) = some (
    adapter_job j (record { domain = j.domain; challenge_mode = mode_of certs j.domain })
      worker_actor)

unfoldable pub claim_job : Certs → ClaimRequest → World → Answer World (Option Task)
claim_job certs r s =
    answer (claimed_task certs)
      (on_db certs s (claim s.db (seconds s) r.owner (pos (r.lease_until - r.now))))

-- The store keeps no version, so the adapter counts.
unfoldable pub renew_job_lease : Certs → LeaseRenewal → World → Answer World (ℕ × Bool)
renew_job_lease certs r s =
    answer (λ (u : Unit {0}). (r.lease_version + 1, true))
      (on_db certs s (renew_lease s.db (seconds s) r.id r.owner (pos (r.lease_until - r.now))))

-- Only the id, the status and the error of the update reach the store.
unfoldable pub update_job : Certs → JobUpdate → World → Answer World Bool
update_job certs u s =
    answer (λ (x : Unit {0}). true)
      (on_db certs s (update_certificate_job_status s.db (seconds s) u.id u.status u.last_error))

abbrev pub candidate_of : Certs → Text → Candidate
candidate_of certs domain = record { domain = domain; challenge_mode = certs.challenge_mode domain }

-- `ListRenewalCandidates`: every certificate is a candidate.
unfoldable pub list_candidates : Certs → World → Answer World (List Candidate)
list_candidates certs s = (s, ok (map (candidate_of certs) s.db.certs))

abbrev pub store_adapter : Certs → PersistentStore World
store_adapter certs = record {
  list_candidates = list_candidates certs;
  create_job = create_job certs;
  claim_job = claim_job certs;
  renew_lease = renew_job_lease certs;
  update_job = update_job certs;
  record_skipped_candidate = λ r s. (s, ok tt);
}

-- An error in which `ClassifyError` finds nothing, such as one of `errors.New`.
abbrev pub plain : Text → Failure
plain message = record {
  evidence = record {
    challenge = none;
    marked_temporary = none;
    deadline_exceeded = false;
    dns_timeout = none;
    net_timeout_or_temporary = none;
    http_status = none;
    status = none;
  };
  message = message;
}

-- An error of the service is taken to have no evidence: `recErr` and the last error of
-- `UpdateJobStatus`, which the source returns with their types, are failures of the database.
abbrev pub executed : World → Db × Result Text (Unit {0}) → World × Result Failure (Unit {0})
executed s (db, ok u) = (record s { db = db }, ok u)
executed s (db, err message) = (record s { db = db }, err (plain message))

-- "读取证书任务失败: %!w(<nil>)", in UTF-8: the error that is wrapped is nil.
abbrev pub unread_message : Text
unread_message =
    232 ∷ 175 ∷ 187 ∷ 229 ∷ 143 ∷ 150 ∷ 232 ∷ 175 ∷ 129 ∷ 228 ∷ 185 ∷ 166 ∷ 228 ∷ 187 ∷ 187 ∷ 229
    ∷ 138 ∷ 161 ∷ 229 ∷ 164 ∷ 177 ∷ 232 ∷ 180 ∷ 165 ∷ 58 ∷ 32 ∷ 37 ∷ 33 ∷ 119 ∷ 40 ∷ 60 ∷ 110 ∷ 105
    ∷ 108 ∷ 62 ∷ 41 ∷ []

-- "任务缺少 lease owner", in UTF-8.
abbrev pub no_owner_message : Text
no_owner_message =
    228 ∷ 187 ∷ 187 ∷ 229 ∷ 138 ∷ 161 ∷ 231 ∷ 188 ∷ 186 ∷ 229 ∷ 176 ∷ 145 ∷ 32 ∷ 108 ∷ 101 ∷ 97
    ∷ 115 ∷ 101 ∷ 32 ∷ 111 ∷ 119 ∷ 110 ∷ 101 ∷ 114 ∷ []

-- `ReconcileJob`, after the row is read.
abbrev pub reconcile_read : Answers → Text → World → Option Job → World × Result Failure (Unit {0})
reconcile_read a owner s none = (s, err (plain unread_message))
reconcile_read a owner s (some job) =
    if is_empty owner
    then (s, err (plain no_owner_message))
    else executed s (execute_claimed_v2_job a (seconds s) owner job s.db)

unfoldable pub reconcile_job : Answers → Task → World → World × Result Failure (Unit {0})
reconcile_job a queued s =
    reconcile_read a queued.lease_owner s (get_certificate_job s.db queued.id)

-- The worker as the server builds it. The execution of a job happens at one instant, after the
-- turns that `meanwhile` gives: renewals of the lease, and what else changes the world.
unfoldable pub server_worker :
    Certs
    → Config
    → Text
    → (ℕ → Text)
    → (Task → World → List (Turn World))
    → (Task → World → Answers)
    → PersistentWorker World
server_worker certs config owner print meanwhile answers = record {
  store = store_adapter certs;
  reconcile_job = λ actor job s. record {
    turns = meanwhile job s;
    ending = λ canceled s'. reconcile_job (answers job s') job s';
  };
  config = config;
  owner = owner;
  actor = worker_actor;
  now = λ s. s.clock;
  canceled = λ s. s.canceled;
  print = print;
}
