-- ===== src/Store/Schema.antt =====
-- internal/store/workflows.go and migrations: the rows of the tables, and what the operations
-- return. Integers of the tables are natural numbers: instants are Unix seconds from 1970 on.
use cert_keeper.Prelude.{ℕ, Text, Bool, Option, List, Result}
use cert_keeper.Prelude.Int.{ℤ}

-- A status string; `unset` is the empty one, `other` any that the package does not name.
pub data JobStatus : Type 0 where
  unset queued running succeeded failed cancelled : JobStatus
  other : Text → JobStatus

-- A row of certificate_jobs; `none` is NULL.
pub record Job : Type 0 where
  pub id : Text
  pub domain : Text
  pub operation : Text
  pub idempotency_key : Text
  pub status : JobStatus
  pub attempts : ℕ
  pub max_attempts : ℕ
  pub next_attempt_at : Option ℕ
  pub lease_owner : Option Text
  pub lease_until : Option ℕ
  pub last_error_code : Option Text
  pub last_error_at : Option ℕ
  pub requested_by : Option Text
  pub error_message : Option Text
  pub created_at : ℕ
  pub updated_at : ℕ
  pub started_at : Option ℕ
  pub finished_at : Option ℕ

-- The `CertificateJob` that a caller hands to `CreateCertificateJob`.
pub record JobRequest : Type 0 where
  pub id : Text
  pub domain : Text
  pub operation : Text
  pub idempotency_key : Text
  pub status : JobStatus
  pub attempts : ℤ
  pub max_attempts : ℤ
  pub next_attempt_at : Option ℕ
  pub lease_owner : Text
  pub lease_until : Option ℕ
  pub last_error_code : Option Text
  pub last_error_at : Option ℕ
  pub requested_by : Option Text
  pub error_message : Option Text
  pub created_at : ℕ
  pub started_at : Option ℕ
  pub finished_at : Option ℕ

pub data GenerationStatus : Type 0 where
  unset pending publishing issued failed revoked : GenerationStatus
  other : Text → GenerationStatus

-- A row of certificate_generations.
pub record Generation : Type 0 where
  pub id : ℕ
  pub job_id : Text
  pub domain : Text
  pub generation : ℤ
  pub revision : ℕ
  pub status : GenerationStatus
  pub certificate_ref : Option Text
  pub private_key_ref : Option Text
  pub manifest_digest : Option Text
  pub serial : Option Text
  pub fingerprint : Option Text
  pub current : Bool
  pub not_before : Option ℕ
  pub not_after : Option ℕ
  pub error_message : Option Text
  pub created_at : ℕ
  pub updated_at : ℕ

-- The `CertificateGeneration` that a caller hands to `CreateCertificateGeneration`.
pub record GenerationRequest : Type 0 where
  pub job_id : Text
  pub domain : Text
  pub generation : ℤ
  pub revision : ℤ
  pub status : GenerationStatus
  pub certificate_ref : Option Text
  pub private_key_ref : Option Text
  pub manifest_digest : Option Text
  pub serial : Option Text
  pub fingerprint : Option Text
  pub current : Bool
  pub not_before : Option ℕ
  pub not_after : Option ℕ
  pub error_message : Option Text
  pub created_at : ℕ

pub record GenerationArtifact : Type 0 where
  pub revision : ℤ
  pub manifest_digest : Text
  pub serial : Text
  pub fingerprint : Text
  pub current : Bool

-- The database, as far as the operations read or write it: the domains of certs and the ids of
-- tokens, which rows refer to, the tables of jobs and generations, the next id of the latter, and
-- the generations that rows of deployment_reports refer to.
pub record Db : Type 0 where
  pub certs : List Text
  pub tokens : List Text
  pub jobs : List Job
  pub generations : List Generation
  pub next_generation_id : ℕ
  pub reported : List ℕ

-- `no_rows` is `sql.ErrNoRows`.
pub data StoreError : Type 0 where
  invalid_argument no_rows no_randomness foreign_key unique : StoreError

-- An operation returns the database after it, and its result.
abbrev pub Outcome {ℓ} : Type ℓ → Type ℓ
Outcome A = Db × Result StoreError A
