-- ===== src/Service/Reconcile.antt =====
-- internal/service/v2.go: `ReconcileV2`, and the test by which the worker forces an issuance.
pub mod Laws
use cert_keeper.Prelude.{
  ℕ, Text, Bool, true, false, not, ◌&&◌, ◌||◌, ◌==◌, nat_eq, text_eq, Option, none, some, Result,
  ok, err, ltb, length, is_blank, is_empty, codes, List, [], ◌∷◌, ◌++◌, if◌then◌else◌, ◌>>=◌, ◌>>◌,
  require, refuse,
}
use mathlib.Core.List.{reverse}
use cert_keeper.Prelude.Int.{pos}
use cert_keeper.Prelude.Trim.{trim_space}
use cert_keeper.Client.Read.{lookup}
use cert_keeper.Store.Schema.{Db, Job, JobRequest, JobStatus, StoreError, Outcome}
use cert_keeper.Store.Jobs.Create.{create_certificate_job}
use cert_keeper.Store.Grants.{TokenGrant}
use cert_keeper.Service.{
  Preset, State, ServiceError, validation, permission, Serving, from_store, v2_validate_domain,
  v2_has_control, nullable, require_v2_permission,
}

pub record V2ReconcileRequest : Type 0 where
  pub token_id : Text
  pub is_admin : Bool
  pub domain : Text
  pub operation : Text
  pub reason : Text
  pub idempotency_key : Text
  pub force : Bool

-- `strings.TrimSpace(req.Operation)`, or "reconcile".
unfoldable pub operation_of : Text → Text
operation_of operation =
    if is_empty (trim_space operation) then codes "reconcile" else trim_space operation

-- `if req.Force { operation += ":force" }`.
abbrev pub with_force : Bool → Text → Text
with_force true operation = operation ++ codes ":force"
with_force false operation = operation

abbrev pub has_provider : Option Text → Bool
has_provider none = false
has_provider (some provider) = not (is_empty provider)

abbrev pub check_preset : Option Preset → Result ServiceError (Unit {0})
check_preset none = err validation
check_preset (some preset) =
    require (preset.challenge_mode == codes "dns_api") validation
    >> require (has_provider preset.dns_provider) validation

abbrev pub check_force : State → V2ReconcileRequest → Bool → Result ServiceError (Unit {0})
check_force s req false = ok tt
check_force s req true =
    require req.is_admin permission
    >> require_v2_permission s.grants req.token_id req.domain (codes "force")

-- The lengths and the bytes of the fields.
unfoldable pub check_fields : V2ReconcileRequest → Result ServiceError (Unit {0})
check_fields req = do
  refuse
      (ltb 64 (length (operation_of req.operation)) || v2_has_control (operation_of req.operation))
      validation
  refuse (ltb 256 (length req.reason) || v2_has_control req.reason) validation
  refuse
      (is_blank req.idempotency_key
        || ltb 128 (length req.idempotency_key)
        || v2_has_control req.idempotency_key)
      validation

-- What comes before the job is created.
unfoldable pub check_reconcile : State → V2ReconcileRequest → Result ServiceError (Unit {0})
check_reconcile s req = do
  require (v2_validate_domain req.domain) validation
  check_fields req
  check_preset (lookup req.domain s.presets)
  require_v2_permission s.grants req.token_id req.domain (codes "apply")
  check_force s req req.force

unfoldable pub job_request : V2ReconcileRequest → Text → JobRequest
job_request req id = record {
  id = id;
  domain = req.domain;
  operation = with_force req.force (operation_of req.operation);
  idempotency_key = req.idempotency_key;
  status = JobStatus.unset;
  attempts = pos 0;
  max_attempts = pos 0;
  next_attempt_at = none;
  lease_owner = [];
  lease_until = none;
  last_error_code = none;
  last_error_at = none;
  requested_by = nullable req.token_id;
  error_message = none;
  created_at = 0;
  started_at = none;
  finished_at = none;
}

abbrev pub with_job : State → Outcome Job → Serving Job
with_job s (db, result) = (record s { db = db }, from_store result)

-- The job of the response; `fresh` is the id that `v2NewJobID` draws, if it can.
unfoldable pub create_job : State → ℕ → Option Text → V2ReconcileRequest → Serving Job
create_job s now none req = (s, err (ServiceError.store StoreError.no_randomness))
create_job s now (some id) req =
    with_job s (create_certificate_job s.db now none (some (job_request req id)))

abbrev pub after_check :
    State → ℕ → Option Text → V2ReconcileRequest → Result ServiceError (Unit {0}) → Serving Job
after_check s now fresh req (err e) = (s, err e)
after_check s now fresh req (ok u) = create_job s now fresh req

unfoldable pub reconcile_v2 : State → ℕ → Option Text → V2ReconcileRequest → Serving Job
reconcile_v2 s now fresh req = after_check s now fresh req (check_reconcile s req)

-- `strings.HasPrefix`.
abbrev pub has_prefix : Text → Text → Bool
has_prefix s [] = true
has_prefix [] (p ∷ prefix) = false
has_prefix (c ∷ s) (p ∷ prefix) = c == p && has_prefix s prefix

-- `strings.HasSuffix(job.Operation, ":force")`: the worker issues without asking when the
-- certificate ends.
unfoldable pub is_forced : Text → Bool
is_forced operation = has_prefix (reverse operation) (reverse (codes ":force"))
