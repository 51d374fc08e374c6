-- ===== src/Protocol/Tests.antt =====
-- Runs of the validators and of the paths on concrete data, and instances of the theorems.
use cert_keeper.Prelude.{
  ℕ, Text, true, false, Option, none, some, Result, ok, err, List, [], ◌∷◌, map, ◌≡◌, ◌≢◌, ◌↔◌, ◌⊎◌,
  refl, ◌≤◌, length, codes, split, All, ◌++◌,
}
use cert_keeper.Prelude.Int.{pos}
use cert_keeper.Protocol.Errors.{
  unset, invalid_domain, invalid_job_status, invalid_generation, path_traversal,
}
use cert_keeper.Protocol.Identifiers.{
  validate_generation_id, validate_job_id, validate_idempotency_key, max_generation_id_length,
  max_job_id_length,
}
use cert_keeper.Protocol.Domain.{validate_domain}
use cert_keeper.Protocol.Domain.Laws.{IsDomainName, validate_domain_iff}
use cert_keeper.Protocol.Manifest.{FileManifest, file_cert, file_key, validate_manifest}
use cert_keeper.Protocol.Jobs.{
  JobStatus, queued, running, failed, validate_job_status, marshal_job_status, unmarshal_job_status,
  canonical_job_status,
}
use cert_keeper.Protocol.Reconcile.{ReconcileRequest, validate_request, validate_for_new_attempt}
use cert_keeper.Protocol.Deployment.{
  DeploymentReport, pending, validate_report, validate_for_domain,
}
use cert_keeper.Protocol.Deployment.Laws.{IsReport, validate_for_domain_iff}
use cert_keeper.Protocol.Paths.{build_url_path, path_escape, job_url_path}
use cert_keeper.Protocol.Paths.Laws.{build_url_path-split}

abbrev generation : Text
generation = codes "g-2024.1"

abbrev domain : Text
domain = codes "a.example.com"

abbrev job : JobStatus
job = record {
  id = codes "job-1";
  state = running;
  generation = generation;
  revision = 7;
  message = [];
  retryable = false;
  error_code = unset;
  next_attempt_at = none;
  error = none;
  created_at = 10;
  started_at = some 12;
  finished_at = none;
}

abbrev digest : Text
digest = codes "0123456789abcdef0123456789abcdef0123456789abcdef0123456789abcdef"

abbrev manifest : List FileManifest
manifest =
    record { name = file_cert; size = pos 10; sha256 = digest }
    ∷ record { name = file_key; size = pos 20; sha256 = digest }
    ∷ []

abbrev request : ReconcileRequest
request = record { idempotency_key = codes "k1"; force = true; operation = []; reason = [] }

abbrev report : DeploymentReport
report = record {
  domain = domain;
  target = codes "edge";
  state = pending;
  success = false;
  generation = generation;
  revision = 7;
  verified = false;
  reloaded = false;
  message = [];
  error = none;
  started_at = none;
  finished_at = none;
}

protocol : Unit {0}
unfolding validate_domain validate_generation_id validate_job_id validate_idempotency_key
    validate_manifest validate_job_status validate_report validate_for_domain
    validate_for_new_attempt build_url_path job_url_path marshal_job_status unmarshal_job_status
    canonical_job_status path_escape cert_keeper.Prelude.text_beq cert_keeper.Prelude.to_lower
    cert_keeper.Prelude.is_padded split cert_keeper.Prelude.join cert_keeper.Protocol.Domain.is_ip
    cert_keeper.Protocol.Domain.is_label cert_keeper.Protocol.Identifiers.is_path_traversal
    cert_keeper.Protocol.Identifiers.has_control
    cert_keeper.Protocol.Identifiers.validate_path_segment
    cert_keeper.Protocol.Identifiers.validate_revision cert_keeper.Protocol.Jobs.validate_state
    cert_keeper.Protocol.Jobs.validate_job_version cert_keeper.Protocol.Jobs.validate_time_order
    cert_keeper.Protocol.Jobs.validate_job_error cert_keeper.Protocol.Jobs.validate_next_attempt
    cert_keeper.Protocol.Manifest.validate_files cert_keeper.Protocol.Manifest.validate_file
    cert_keeper.Protocol.Manifest.validate_file_name
    cert_keeper.Protocol.Manifest.is_fixed_file_name cert_keeper.Protocol.Manifest.is_lower_hex
    cert_keeper.Protocol.Reconcile.validate_request cert_keeper.Protocol.Paths.escape_all
    cert_keeper.Protocol.Paths.escape_path_segment cert_keeper.Protocol.Paths.escape_byte
    cert_keeper.Protocol.Paths.escapes_to_itself cert_keeper.Protocol.Paths.upper_hex
protocol = tt

domain_tests :
    (validate_domain domain ≡ ok tt)
    × (validate_domain (codes "localhost") ≡ err invalid_domain)
    × (validate_domain (codes "*.example.com") ≡ err invalid_domain)
    × (validate_domain (codes "10.0.0.1") ≡ err invalid_domain)
    × (validate_domain (codes "a..com") ≡ err invalid_domain)
    × (validate_domain (codes "-a.com") ≡ err invalid_domain)
unfolding protocol
domain_tests = (refl, refl, refl, refl, refl, refl)

identifier_tests :
    (validate_generation_id generation ≡ ok tt)
    × (validate_generation_id (codes "..") ≡ err path_traversal)
    × (validate_generation_id [] ≡ err invalid_generation)
    × (validate_generation_id (codes "a/b") ≡ err path_traversal)
    × (validate_generation_id (codes "a b") ≡ err invalid_generation)
unfolding protocol
identifier_tests = (refl, refl, refl, refl, refl)

job_tests :
    (validate_job_status job ≡ ok tt)
    × (validate_job_status (record job { started_at = some 9 }) ≡ err invalid_job_status)
    × (validate_job_status (record job { state = failed }) ≡ err invalid_job_status)
    × (validate_job_status (record job { revision = 0 }) ≡ err invalid_job_status)
unfolding protocol
job_tests = (refl, refl, refl, refl)

validate_domain_iff_example : (validate_domain domain ≡ ok tt) ↔ IsDomainName domain
validate_domain_iff_example = validate_domain_iff domain

manifest-valid : validate_manifest manifest ≡ ok tt
unfolding protocol
manifest-valid = refl

path-built : build_url_path (codes "files" ∷ codes "a b/c" ∷ []) ≡ err path_traversal
unfolding protocol
path-built = refl

spaced-built : build_url_path (codes "files" ∷ codes "a b" ∷ []) ≡ ok (codes "/files/a%20b")
unfolding protocol
spaced-built = refl

build_url_path-split_example :
    split b'/' (codes "/files/a%20b") ≡ [] ∷ map path_escape (codes "files" ∷ codes "a b" ∷ [])
build_url_path-split_example = build_url_path-split (codes "files" ∷ codes "a b" ∷ []) spaced-built

request-valid : validate_request request ≡ ok tt
unfolding protocol
request-valid = refl

validate_for_domain_iff_example :
    (validate_for_domain report domain ≡ ok tt) ↔ (IsReport report × (report.domain ≡ domain))
validate_for_domain_iff_example = validate_for_domain_iff report domain
