-- ===== src/Service/Read.antt =====
-- internal/service/v2.go: `GetJobV2`, `StatusV2`, `ManifestV2` and `ReadGenerationFileV2`.
pub mod Laws
use cert_keeper.Prelude.{
  ℕ, Text, Bool, true, false, not, ◌&&◌, ◌||◌, ◌==◌, text_eq, Option, none, some, Result, ok, err,
  is_blank, is_empty, codes, List, ◌>>=◌, ◌>>◌, require, refuse, if◌then◌else◌, ◌≡◌, refl,
  >>=-eq-ok, >>-eq-ok,
}
use cert_keeper.Protocol.Errors.{Check}
use cert_keeper.Protocol.Identifiers.{validate_generation_id, failed}
use cert_keeper.Protocol.Manifest.{FileManifest, validate_file_name, file_key}
use cert_keeper.Store.Sql.{find}
use cert_keeper.Store.Schema.{Job}
use cert_keeper.Service.{
  State, ServiceError, validation, not_found, v2_validate_domain, v2_has_control,
  require_v2_permission,
}

-- What internal/certstore reads for these requests: the status of a domain, and the manifest and the
-- files of a generation, the current one when it is empty.
pub record Repository (Status : Type 0) : Type 0 where
  pub status : Text → Result ServiceError Status
  pub manifest : Text → Text → Result ServiceError (List FileManifest)
  pub read_file : Text → Text → Text → Result ServiceError Text

-- The row of the job; the generation that the status names besides is left out.
unfoldable pub get_job_v2 : State → Text → Text → Result ServiceError Job
get_job_v2 s token_id job_id =
    if is_blank job_id || v2_has_control job_id
    then err validation
    else elim (find (λ j. j.id == job_id) s.db.jobs) [
      | none ↦ err not_found
      | some job ↦ require_v2_permission s.grants token_id job.domain (codes "status") >> ok job
    ]

-- `if generation != "" { generation.Validate() }`.
abbrev pub check_generation : Text → Result ServiceError (Unit {0})
check_generation generation =
    refuse (not (is_empty generation) && failed (validate_generation_id generation)) validation

abbrev pub permission_of_file : Text → Text
permission_of_file file_name =
    if file_name == file_key then codes "read_private_key" else codes "read_cert"

module _ {Status : Type 0} (repository : Repository Status) where
  unfoldable pub status_v2 : State → Text → Text → Result ServiceError Status
  status_v2 s token_id domain = do
    require (v2_validate_domain domain) validation
    require_v2_permission s.grants token_id domain (codes "status")
    repository.status domain

  unfoldable pub manifest_v2 : State → Text → Text → Text → Result ServiceError (List FileManifest)
  manifest_v2 s token_id domain generation = do
    require (v2_validate_domain domain) validation
    check_generation generation
    require_v2_permission s.grants token_id domain (codes "read_cert")
    repository.manifest domain generation

  unfoldable pub read_generation_file_v2 :
      State → Text → Text → Text → Text → Result ServiceError Text
  read_generation_file_v2 s token_id domain generation file_name = do
    require (v2_validate_domain domain) validation
    refuse (failed (validate_file_name file_name)) validation
    check_generation generation
    require_v2_permission s.grants token_id domain (permission_of_file file_name)
    repository.read_file domain generation file_name
