-- ===== src/Service/Execute/Tests.antt =====
-- An execution of a job that renews a certificate.
use cert_keeper.Prelude.{
  ℕ, Text, Bool, true, false, Option, none, some, Result, ok, err, List, [], ◌∷◌, map, ◌≡◌, refl,
  codes, arith,
}
use cert_keeper.Prelude.Int.{pos}
use cert_keeper.Store.Schema.{Job, JobStatus, Generation, Db, GenerationStatus, GenerationArtifact}
use cert_keeper.Service.Execute

abbrev domain : Text
domain = codes "a.example.com"

abbrev issued : Generation
issued = record {
  id = 1;
  job_id = codes "j1";
  domain = domain;
  generation = pos 1;
  revision = 1;
  status = GenerationStatus.issued;
  certificate_ref = some (codes "g1");
  private_key_ref = some (codes "g1");
  manifest_digest = none;
  serial = none;
  fingerprint = none;
  current = true;
  not_before = none;
  not_after = none;
  error_message = none;
  created_at = 5;
  updated_at = 5;
}

-- The worker w1 holds the job.
abbrev leased : Job
leased = record {
  id = codes "j1";
  domain = domain;
  operation = codes "reconcile";
  idempotency_key = codes "k1";
  status = JobStatus.running;
  attempts = 1;
  max_attempts = 3;
  next_attempt_at = none;
  lease_owner = some (codes "w1");
  lease_until = some 300;
  last_error_code = none;
  last_error_at = none;
  requested_by = none;
  error_message = none;
  created_at = 5;
  updated_at = 5;
  started_at = some 5;
  finished_at = none;
}

abbrev db : Db
db = record {
  certs = domain ∷ [];
  tokens = [];
  jobs = leased ∷ [];
  generations = issued ∷ [];
  next_generation_id = 2;
  reported = [];
}

abbrev digest : Text
digest = codes "e3b0c44298fc1c149afbf4c8996fb92427ae41e4649b934ca495991b7852b855"

abbrev renewed : GenerationArtifact
renewed = record {
  revision = pos 2;
  manifest_digest = digest;
  serial = codes "01";
  fingerprint = digest;
  current = false;
}

execution : Unit {0}
unfolding Execute.should_renew Execute.finish_v2_success Execute.finish_v2_generation_failure
    Execute.recoverable Execute.finalize Execute.recover_rows Execute.recover_publishing_generation
    Execute.issue Execute.execute_claimed_v2_job
    cert_keeper.Store.Generations.create_certificate_generation
    cert_keeper.Store.Generations.max_generation cert_keeper.Store.Generations.next_generation
    cert_keeper.Store.Generations.demoted cert_keeper.Store.Generations.conflicts
    cert_keeper.Store.Generations.insert_generation cert_keeper.Store.Generations.new_generation
    cert_keeper.Store.Generations.create_for_job cert_keeper.Store.Generations.create_numbered
    cert_keeper.Store.Generations.numbered cert_keeper.Store.Generations.revised
    cert_keeper.Store.Generations.is_creatable cert_keeper.Store.Generations.with_outcome
    cert_keeper.Store.Generations.update_generation_status
    cert_keeper.Store.Generations.is_revision_taken cert_keeper.Store.Generations.with_artifact
    cert_keeper.Store.Generations.update_generation_artifact
    cert_keeper.Store.Generations.valid_sha256_digest cert_keeper.Store.Sql.order_by
    cert_keeper.Store.Jobs.Status.with_status
    cert_keeper.Store.Jobs.Status.update_certificate_job_status
    cert_keeper.Service.Report.list_certificate_generations cert_keeper.Service.Reconcile.is_forced
    cert_keeper.Prelude.text_beq cert_keeper.Store.Domains.is_certificate_domain
    cert_keeper.Prelude.to_lower cert_keeper.Prelude.is_padded cert_keeper.Protocol.Domain.is_ip
    cert_keeper.Prelude.split cert_keeper.Protocol.Domain.is_label
execution = tt

-- One execution that issues and publishes, from the tables with the issued generation.
abbrev answers : Execute.Answers
answers = record {
  renew_days = ok 30;
  state = ok (record { exists_ = true; not_after = some 1_000 });
  list_error = none;
  files_current = none;
  files_manifest = false;
  files_artifact = none;
  files_not_after = none;
  secrets_error = none;
  staging_error = none;
  issue_error = none;
  publish = ok (codes "g2");
  artifact = ok renewed;
  not_after = some 9_000_000;
  cause_of = λ prefix e. record { is_retryable = false; message = prefix; error_text = prefix };
}

abbrev executed : Execute.Executing (Unit {0})
executed = Execute.execute_claimed_v2_job answers 9 (codes "w1") leased db

execution-succeeds : executed.1 ≡ ok tt
unfolding execution
execution-succeeds = refl

execution-current : map (λ (g : Generation). g.current) executed.0.generations ≡ (false ∷ true ∷ [])
unfolding execution
execution-current = refl

-- A second row that a stopped execution left publishing, before it had published files: the
-- current files are still those of the first.
abbrev stopped_db : Db
stopped_db = record db {
  generations =
      issued
      ∷ record issued {
        id = 2;
        generation = pos 2;
        revision = 2;
        status = GenerationStatus.publishing;
        certificate_ref = none;
        private_key_ref = none;
        current = false;
      }
      ∷ [];
  next_generation_id = 3;
}

abbrev recovery : Db × Result Execute.Cause Bool
recovery =
    Execute.recover_publishing_generation
      (record answers {
        files_current = some (codes "g1");
        files_manifest = true;
        files_artifact = some (record renewed { revision = pos 1 });
      })
      9 leased stopped_db

-- The recovery takes the files of the first generation for those of the second.
recovery-certificate_ref :
    map (λ (g : Generation). g.certificate_ref) recovery.0.generations
    ≡ (some (codes "g1") ∷ some (codes "g1") ∷ [])
unfolding execution
recovery-certificate_ref = refl

recovery-status :
    map (λ (g : Generation). g.status) recovery.0.generations
    ≡ (GenerationStatus.issued ∷ GenerationStatus.issued ∷ [])
unfolding execution
recovery-status = refl
