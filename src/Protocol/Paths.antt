-- ===== src/Protocol/Paths.antt =====
-- pkg/certproto/path.go: escaping and joining the segments of URL paths.
pub mod Laws
use cert_keeper.Prelude.{
  ℕ, ◌+◌, ◌-◌, ◌/◌, ◌%◌, Text, Bool, ◌||◌, ◌==◌, nat_eq, text_eq, Result, ok, err, ◌>>=◌, ◌>>◌,
  require, codes, leb, ltb, join, List, [], ◌∷◌, ◌++◌, if◌then◌else◌,
}
use cert_keeper.Protocol.Errors.{Check, ErrorCode, invalid_path_segment, invalid_request}
use cert_keeper.Protocol.Domain.{validate_domain}
use cert_keeper.Protocol.Identifiers.{
  validate_path_segment, validate_generation_id, validate_job_id, is_unreserved,
}
use cert_keeper.Protocol.Jobs.{JobStatus, validate_job_status}
use cert_keeper.Protocol.Manifest.{validate_file_name}

abbrev pub certificates_segment : Text
certificates_segment = codes "certs"

abbrev pub generations_segment : Text
generations_segment = codes "generations"

abbrev pub files_segment : Text
files_segment = codes "files"

abbrev pub jobs_segment : Text
jobs_segment = codes "jobs"

abbrev pub reconcile_segment : Text
reconcile_segment = codes "reconcile"

abbrev pub status_segment : Text
status_segment = codes "status"

abbrev pub manifest_segment : Text
manifest_segment = codes "manifest"

abbrev pub deployments_segment : Text
deployments_segment = codes "deployments"

-- `v2PathSegments`, the parts of "/api/v2".
abbrev pub v2_first : Text
v2_first = codes "api"

abbrev pub v2_second : Text
v2_second = codes "v2"

unfoldable pub upper_hex : ℕ → ℕ
upper_hex d = if ltb d 10 then b'0' + d else b'A' + (d - 10)

-- `url.PathEscape` on one byte: letters, digits, - _ . ~ $ & + = : @ stand for themselves.
unfoldable pub escapes_to_itself : ℕ → Bool
escapes_to_itself c =
    is_unreserved c || c == b'$' || c == b'&' || c == b'+' || c == b'=' || c == b':' || c == b'@'

unfoldable pub escape_byte : ℕ → Text
escape_byte c =
    if escapes_to_itself c then c ∷ [] else b'%' ∷ upper_hex (c / 16) ∷ upper_hex (c % 16) ∷ []

unfoldable pub path_escape : Text → Text
path_escape [] = []
path_escape (c ∷ s) = escape_byte c ++ path_escape s

unfoldable pub escape_path_segment : Text → Result ErrorCode Text
escape_path_segment segment = do validate_path_segment segment; ok (path_escape segment)

-- The loop of `BuildURLPath`.
unfoldable pub escape_all : List Text → Result ErrorCode (List Text)
escape_all [] = ok []
escape_all (segment ∷ segments) = do
  value ← escape_path_segment segment
  rest ← escape_all segments
  ok (value ∷ rest)

unfoldable pub build_url_path : List Text → Result ErrorCode Text
build_url_path [] = err invalid_path_segment
build_url_path (segment ∷ segments) = do
  escaped ← escape_all (segment ∷ segments)
  ok (b'/' ∷ join b'/' escaped)

unfoldable pub reconcile_url_path : Text → Result ErrorCode Text
reconcile_url_path domain = do
  validate_domain domain
  build_url_path (v2_first ∷ v2_second ∷ certificates_segment ∷ domain ∷ reconcile_segment ∷ [])

unfoldable pub certificate_status_url_path : Text → Result ErrorCode Text
certificate_status_url_path domain = do
  validate_domain domain
  build_url_path (v2_first ∷ v2_second ∷ certificates_segment ∷ domain ∷ status_segment ∷ [])

unfoldable pub manifest_url_path : Text → Text → Result ErrorCode Text
manifest_url_path domain generation_id = do
  validate_domain domain
  validate_generation_id generation_id
  build_url_path (
      v2_first ∷ v2_second ∷ certificates_segment ∷ domain ∷ generations_segment ∷ generation_id
      ∷ manifest_segment ∷ [])

unfoldable pub certificate_file_url_path : Text → Text → Text → Result ErrorCode Text
certificate_file_url_path domain generation_id file_name = do
  validate_domain domain
  validate_generation_id generation_id
  validate_file_name file_name
  build_url_path (
      v2_first ∷ v2_second ∷ certificates_segment ∷ domain ∷ generations_segment ∷ generation_id
      ∷ files_segment ∷ file_name ∷ [])

unfoldable pub deployments_url_path : Text → Result ErrorCode Text
deployments_url_path domain = do
  validate_domain domain
  build_url_path (v2_first ∷ v2_second ∷ certificates_segment ∷ domain ∷ deployments_segment ∷ [])

unfoldable pub job_url_path : Text → Result ErrorCode Text
job_url_path job_id = do
  validate_job_id job_id
  build_url_path (v2_first ∷ v2_second ∷ jobs_segment ∷ job_id ∷ [])

-- The body of a 202 response.
pub record JobAcceptedResponse : Type 0 where
  pub job : JobStatus
  pub location : Text
  pub reused : Bool

unfoldable pub validate_accepted : JobAcceptedResponse → Check
validate_accepted r = do
  validate_job_status r.job
  expected ← job_url_path r.job.id
  require (r.location == expected) invalid_request
