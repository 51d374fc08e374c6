-- ===== src/Protocol/Errors.antt =====
-- pkg/certproto/protocol.go: the structured errors of the protocol.
-- A check returns the code of its `ErrorResponse`; the messages, which are prose, are left out.
use native.Mathlib.Decide.{ℕ_discrete}
use cert_keeper.Prelude.{ℕ, Text, Bool, true, false, Eq, eq_of_discrete, Result, List}

-- `unset` is the empty string, `other` any string that the package does not name.
pub data ErrorCode : Type 0 where
  unset invalid_request invalid_generation invalid_revision invalid_job_id invalid_idempotency_key
        invalid_domain invalid_path_segment path_traversal invalid_file_name unknown_file
        duplicate_file invalid_manifest invalid_job_status invalid_capabilities
        invalid_deployment_report unauthorized forbidden not_found conflict job_failed
        deployment_failed internal :
      ErrorCode
  other : Text → ErrorCode

unfoldable pub ErrorCode-discrete : Discrete ErrorCode
ErrorCode-discrete = hlevel ℕ_discrete

instance abbrev pub code_eq : Eq ErrorCode
code_eq = eq_of_discrete ErrorCode-discrete

-- `code == ""`.
abbrev pub is_unset : ErrorCode → Bool
is_unset unset = true
is_unset _ = false

pub record ErrorResponse : Type 0 where
  pub code : ErrorCode
  pub message : Text
  pub retryable : Bool
  pub details : List (Text × Text)

-- The `error` of a validation, `ok tt` for nil.
abbrev pub Check : Type 0
Check = Result ErrorCode (Unit {0})

-- pkg/certproto/http.go: the status of a response for each code.
unfoldable pub http_status_for_error_code : ErrorCode → ℕ
http_status_for_error_code invalid_request = 400
http_status_for_error_code invalid_generation = 400
http_status_for_error_code invalid_revision = 400
http_status_for_error_code invalid_job_id = 400
http_status_for_error_code invalid_idempotency_key = 400
http_status_for_error_code invalid_domain = 400
http_status_for_error_code invalid_path_segment = 400
http_status_for_error_code path_traversal = 400
http_status_for_error_code invalid_file_name = 400
http_status_for_error_code unknown_file = 400
http_status_for_error_code duplicate_file = 400
http_status_for_error_code invalid_manifest = 400
http_status_for_error_code invalid_job_status = 400
http_status_for_error_code invalid_capabilities = 400
http_status_for_error_code invalid_deployment_report = 400
http_status_for_error_code unauthorized = 401
http_status_for_error_code forbidden = 403
http_status_for_error_code not_found = 404
http_status_for_error_code conflict = 409
http_status_for_error_code _ = 500
