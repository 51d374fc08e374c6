-- ===== src/Protocol/Deployment.antt =====
-- pkg/certproto/protocol.go and contract.go: the report of a deployment.
pub mod Laws
use cert_keeper.Prelude.{
  ℕ, Text, Bool, true, false, not, ◌&&◌, ◌||◌, ◌==◌, text_eq, Option, none, some, ok, ◌>>=◌, ◌>>◌,
  refuse, require, ltb, length, is_blank, Result,
}
use cert_keeper.Protocol.Errors.{
  Check, ErrorCode, ErrorResponse, is_unset, invalid_deployment_report, conflict,
}
use cert_keeper.Protocol.Codec.{Codec, unmarshal_strict}
use cert_keeper.Protocol.Domain.{validate_domain}
use cert_keeper.Protocol.Identifiers.{validate_generation_id, validate_revision, has_control}
use cert_keeper.Protocol.Jobs.{Instant, validate_time_order}

-- `other` is any string that is no state of the package.
pub data DeploymentState : Type 0 where
  pending deploying succeeded failed skipped : DeploymentState
  other : Text → DeploymentState

pub record DeploymentReport : Type 0 where
  pub domain : Text
  pub target : Text
  pub state : DeploymentState
  pub success : Bool
  pub generation : Text
  pub revision : ℕ  -- uint64
  pub verified : Bool
  pub reloaded : Bool
  pub message : Text
  pub error : Option ErrorResponse
  pub started_at : Option Instant
  pub finished_at : Option Instant

abbrev is_known : DeploymentState → Bool
is_known (other _) = false
is_known _ = true

unfoldable pub validate_deployment_state : DeploymentState → Check
validate_deployment_state s = require (is_known s) invalid_deployment_report

unfoldable pub validate_text : Text → ℕ → Bool → Check
validate_text value limit required = do
  refuse (required && is_blank value) invalid_deployment_report
  refuse (ltb limit (length value) || has_control value) invalid_deployment_report

-- `r.Error != nil`.
abbrev pub has_error : Option ErrorResponse → Bool
has_error none = false
has_error (some e) = true

-- `r.Error == nil || r.Error.Code == ""`.
abbrev pub lacks_code : Option ErrorResponse → Bool
lacks_code none = true
lacks_code (some e) = is_unset e.code

-- The closing `switch` of `DeploymentReport.Validate`.
unfoldable pub validate_outcome : DeploymentState → Bool → Option ErrorResponse → Check
validate_outcome succeeded success error =
    refuse (not success || has_error error) invalid_deployment_report
validate_outcome skipped success error =
    refuse (not success || has_error error) invalid_deployment_report
validate_outcome failed success error =
    refuse (success || lacks_code error) invalid_deployment_report
validate_outcome pending success error =
    refuse (success || has_error error) invalid_deployment_report
validate_outcome deploying success error =
    refuse (success || has_error error) invalid_deployment_report
validate_outcome (other _) success error = ok tt

unfoldable pub validate_report : DeploymentReport → Check
validate_report r = do
  validate_domain r.domain
  validate_generation_id r.generation
  validate_revision r.revision
  validate_text r.target 128 true
  validate_text r.message 1024 false
  validate_deployment_state r.state
  validate_time_order r.started_at r.finished_at
  validate_outcome r.state r.success r.error

unfoldable pub validate_for_domain : DeploymentReport → Text → Check
validate_for_domain r domain = do
  validate_domain domain
  validate_report r
  require (r.domain == domain) conflict

module _ {Wire : Type 0} (codec : Codec Wire DeploymentReport) where
  unfoldable pub unmarshal_report : Wire → Result ErrorCode DeploymentReport
  unmarshal_report bytes = do
    decoded ← unmarshal_strict codec bytes
    validate_report decoded
    ok decoded

  unfoldable pub marshal_report : DeploymentReport → Result ErrorCode Wire
  marshal_report r = do validate_report r; ok (codec.encode r)
