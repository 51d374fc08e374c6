-- ===== src/Service/Tests.antt =====
-- Requests to a small service, and instances of the theorems on them and on the tables that they
-- change.
use cert_keeper.Prelude.{
  ℕ, Text, Bool, true, false, not, ◌||◌, Option, none, some, Result, ok, err, List, [], ◌∷◌, ◌≡◌,
  ◌≢◌, refl, codes, arith, ◌↔◌,
}
use cert_keeper.Prelude.Int.{pos}
use cert_keeper.Protocol.Deployment.{DeploymentReport, DeploymentState}
use cert_keeper.Protocol.Domain.{validate_domain}
use cert_keeper.Protocol.Manifest.{file_key}
use cert_keeper.Store.Schema.{Job, Generation, Db, GenerationStatus}
use cert_keeper.Store.Grants.{TokenGrant, has_certificate_permission}
use cert_keeper.Store.Grants.Laws.{
  Change, grants_at, revokes, change_all, changed_set_all, answer, has-change_all,
}
use cert_keeper.Store.Reports.{Reports, ReportRequest}
use cert_keeper.Store.Reports.Laws.{IsFaithful, change_all-IsFaithful}
use cert_keeper.Store.Audit.{Events, AuditEvent, AuditFilter}
use cert_keeper.Service.{State, Preset}
use cert_keeper.Service.Reconcile.{
  V2ReconcileRequest, reconcile_v2, is_forced, operation_of, job_request,
}
use cert_keeper.Service.Reconcile.Laws.{IsReconciled, reconcile-IsReconciled, reconcile-is_forced}
use cert_keeper.Service.Read.{Repository, read_generation_file_v2, permission_of_file}
use cert_keeper.Service.Read.Laws.{MayRead, read_file-permitted}
use cert_keeper.Service.Report.{report_deployment_v2}

abbrev domain : Text
domain = codes "a.example.com"

abbrev token : Text
token = codes "t1"

abbrev issued : Generation
issued = record {
  id = 1;
  job_id = codes "j1";
  domain = domain;
  generation = pos 1;
  revision = 1;
  status = GenerationStatus.issued;
  certificate_ref = some (codes "g1");
  private_key_ref = some (codes "g1");
  manifest_digest = none;
  serial = none;
  fingerprint = none;
  current = true;
  not_before = none;
  not_after = none;
  error_message = none;
  created_at = 5;
  updated_at = 5;
}

abbrev db : Db
db = record {
  certs = domain ∷ [];
  tokens = token ∷ [];
  jobs = [];
  generations = issued ∷ [];
  next_generation_id = 2;
  reported = [];
}

abbrev may : Text → TokenGrant
may permission = record {
  token_id = token;
  domain = domain;
  permission = permission;
  created_at = 5;
}

abbrev state : State
state = record {
  db = db;
  presets =
      (domain, record { challenge_mode = codes "dns_api"; dns_provider = some (codes "cf") }) ∷ [];
  grants = may (codes "apply") ∷ may (codes "read_cert") ∷ [];
  reports = record { rows = []; next_id = 1 };
  events = record { rows = []; next_id = 1 };
}

-- A request that does not ask to force, under the name of one that does.
abbrev request : V2ReconcileRequest
request = record {
  token_id = token;
  is_admin = false;
  domain = domain;
  operation = codes " reconcile:force";
  reason = [];
  idempotency_key = codes "k1";
  force = false;
}

abbrev changes : List Change
changes =
    grants_at 1 token domain (codes "apply")
    ∷ grants_at 2 token domain (codes "status")
    ∷ revokes token domain (codes "apply")
    ∷ []

has-change_all_example :
    has_certificate_permission (change_all db [] changes) token domain (codes "apply")
    ≡ answer (changed_set_all db (λ _ _ _. false) changes) token domain (codes "apply")
has-change_all_example = has-change_all db changes token domain (codes "apply")

empty-IsFaithful : IsFaithful db (record { rows = []; next_id = 1 })
empty-IsFaithful = record { apart = tt; drawn = tt; reflecting = tt }

abbrev reported : ReportRequest
reported = record {
  generation_id = pos 1;
  generation = codes "g1";
  revision = pos 1;
  manifest_digest = none;
  target = codes "host";
  status = cert_keeper.Store.Reports.succeeded;
  detail = none;
  created_at = 0;
  completed_at = none;
}

change_all-IsFaithful_example : IsFaithful db (
    cert_keeper.Store.Reports.Laws.change_all db
      (record { rows = []; next_id = 1 })
      ((7, cert_keeper.Store.Reports.Laws.creates 0 (some reported)) ∷ []))
change_all-IsFaithful_example =
    change_all-IsFaithful db (record { rows = []; next_id = 1 })
      ((7, cert_keeper.Store.Reports.Laws.creates 0 (some reported)) ∷ []) empty-IsFaithful

abbrev event : ℕ → AuditEvent
event id = record {
  id = id;
  actor_token_id = some token;
  domain = some domain;
  action = codes "grant";
  outcome = codes "succeeded";
  detail = none;
  created_at = 5;
}

abbrev events : Events
events = record { rows = event 1 ∷ event 2 ∷ []; next_id = 3 }

abbrev audit_filter : AuditFilter
audit_filter = record {
  actor_token_id = token;
  domain = [];
  action = [];
  limit = pos 0;
  offset = pos 1;
}

service : Unit {0}
unfolding cert_keeper.Service.v2_validate_domain cert_keeper.Service.require_v2_permission
    cert_keeper.Service.Reconcile.operation_of cert_keeper.Service.Reconcile.check_fields
    cert_keeper.Service.Reconcile.check_reconcile cert_keeper.Service.Reconcile.job_request
    cert_keeper.Service.Reconcile.create_job cert_keeper.Service.Reconcile.reconcile_v2
    cert_keeper.Service.Reconcile.is_forced cert_keeper.Service.Read.get_job_v2
    cert_keeper.Service.Read.status_v2 cert_keeper.Service.Read.manifest_v2
    cert_keeper.Service.Read.read_generation_file_v2
    cert_keeper.Service.Report.list_certificate_generations
    cert_keeper.Service.Report.v2_sanitize_detail cert_keeper.Service.Report.detail_of
    cert_keeper.Service.Report.report_request cert_keeper.Service.Report.audit_v2
    cert_keeper.Service.Report.check_report cert_keeper.Service.Report.report_deployment_v2
    cert_keeper.Store.Grants.is_permission cert_keeper.Store.Grants.insert_grant
    cert_keeper.Store.Grants.grant cert_keeper.Store.Grants.revoke
    cert_keeper.Store.Grants.list_grants cert_keeper.Store.Grants.has_certificate_permission
    cert_keeper.Store.Jobs.Create.get_by_idempotency cert_keeper.Store.Jobs.Create.new_job
    cert_keeper.Store.Jobs.Create.is_named cert_keeper.Store.Jobs.Create.valid_request
    cert_keeper.Store.Jobs.Create.insert_job cert_keeper.Store.Jobs.Create.insert_or_get
    cert_keeper.Store.Jobs.Create.create_with_id
    cert_keeper.Store.Jobs.Create.create_certificate_job
    cert_keeper.Store.Domains.is_certificate_domain cert_keeper.Protocol.Domain.is_ip
    cert_keeper.Protocol.Domain.is_label cert_keeper.Prelude.text_beq cert_keeper.Prelude.split
    cert_keeper.Prelude.to_lower cert_keeper.Prelude.is_padded cert_keeper.Prelude.is_blank
    cert_keeper.Prelude.blank_from cert_keeper.Prelude.space_first cert_keeper.Prelude.space_last
    cert_keeper.Prelude.Trim.trim_space cert_keeper.Prelude.Trim.trim_left
    cert_keeper.Prelude.Trim.trim_right cert_keeper.Prelude.Trim.without_space
    cert_keeper.Protocol.Identifiers.validate_generation_id
    cert_keeper.Protocol.Identifiers.validate_path_segment
    cert_keeper.Protocol.Manifest.validate_file_name
    cert_keeper.Protocol.Manifest.is_fixed_file_name
    cert_keeper.Protocol.Identifiers.is_path_traversal cert_keeper.Protocol.Identifiers.has_control
    cert_keeper.Store.Sql.first_by
service = tt

-- The job that the request makes.
abbrev job : Job
job = cert_keeper.Store.Jobs.Create.new_job 9 (codes "x1") (job_request request (codes "x1"))

request-reconciled : (reconcile_v2 state 9 (some (codes "x1")) request).1 ≡ ok job
unfolding service
request-reconciled = refl

-- The worker takes the job as one to force, though its token may not.
job-forced : is_forced job.operation ≡ true
unfolding service
job-forced = refl

reconcile-IsReconciled_example : IsReconciled state request job
reconcile-IsReconciled_example =
    reconcile-IsReconciled state 9 (some (codes "x1")) request job request-reconciled

reconcile-is_forced_example :
    is_forced job.operation ≡ (false || is_forced (operation_of (codes " reconcile:force")))
reconcile-is_forced_example =
    reconcile-is_forced state 9 (some (codes "x1")) request job request-reconciled

-- A token without grants.
abbrev stranger : V2ReconcileRequest
stranger = record request { token_id = codes "t2" }

stranger-denied :
    has_certificate_permission state.grants (codes "t2") domain (codes "apply") ≢ ok true
unfolding service
stranger-denied = λ h. ground arith

abbrev report : DeploymentReport
report = record {
  domain = domain;
  target = codes "host";
  state = DeploymentState.succeeded;
  success = true;
  generation = codes "g1";
  revision = 1;
  verified = true;
  reloaded = true;
  message = [];
  error = none;
  started_at = none;
  finished_at = none;
}

abbrev repository : Repository (Unit {0})
repository = record {
  status = λ _. ok tt;
  manifest = λ _ _. ok [];
  read_file = λ _ _ _. ok (codes "content");
}

-- A token that may read the private key only.
abbrev key_reader : State
key_reader = record state { grants = may (codes "read_private_key") ∷ [] }

reader-reads :
    read_generation_file_v2 repository key_reader token domain [] (codes "key.pem")
    ≡ ok (codes "content")
unfolding service
reader-reads = refl

read_file-permitted_example :
    MayRead key_reader.grants token domain (codes "key.pem")
    × (repository.read_file domain [] (codes "key.pem") ≡ ok (codes "content"))
read_file-permitted_example =
    read_file-permitted repository key_reader token domain [] (codes "key.pem") reader-reads
