-- ===== src/Protocol/Capabilities.antt =====
-- pkg/certproto/capabilities.go and the templates of path.go: what a server declares to support.
use cert_keeper.Prelude.{
  Text, Bool, true, not, ◌&&◌, ◌||◌, ◌==◌, text_eq, Result, ok, ◌>>=◌, ◌>>◌, refuse, require, codes,
  ◌≡◌, ◌↔◌, arith, text_beq_iff,
}
use cert_keeper.Protocol.Errors.{Check, ErrorCode, invalid_capabilities}
use cert_keeper.Protocol.Codec.{Codec, unmarshal_strict}

pub record CapabilitiesUrls : Type 0 where
  pub capabilities : Text
  pub jobs : Text
  pub reconcile : Text
  pub status : Text
  pub manifest : Text
  pub files : Text
  pub deployments : Text

pub record Capabilities : Type 0 where
  pub api_version : Text
  pub async_jobs : Bool
  pub job_polling : Bool
  pub terminal_job_reuse : Bool
  pub force_requires_new_idempotency_key : Bool
  pub urls : CapabilitiesUrls

abbrev pub api_version : Text
api_version = codes "v2"

-- The templates, written out. Shut, so that proofs do not walk their bytes.
capabilities_url : Text
capabilities_url = codes "/api/v2/capabilities"

jobs_url_template : Text
jobs_url_template = codes "/api/v2/jobs/{job_id}"

reconcile_url_template : Text
reconcile_url_template = codes "/api/v2/certs/{domain}/reconcile"

status_url_template : Text
status_url_template = codes "/api/v2/certs/{domain}/status"

manifest_url_template : Text
manifest_url_template = codes "/api/v2/certs/{domain}/generations/{generation}/manifest"

files_url_template : Text
files_url_template = codes "/api/v2/certs/{domain}/generations/{generation}/files/{file_name}"

deployments_url_template : Text
deployments_url_template = codes "/api/v2/certs/{domain}/deployments"

unfoldable pub default_capabilities_urls : CapabilitiesUrls
unfolding capabilities_url jobs_url_template reconcile_url_template status_url_template
    manifest_url_template files_url_template deployments_url_template
default_capabilities_urls = record {
  capabilities = capabilities_url;
  jobs = jobs_url_template;
  reconcile = reconcile_url_template;
  status = status_url_template;
  manifest = manifest_url_template;
  files = files_url_template;
  deployments = deployments_url_template;
}

-- `u == expected`, field by field.
unfoldable pub same_urls : CapabilitiesUrls → CapabilitiesUrls → Bool
same_urls u v =
    u.capabilities == v.capabilities
    && u.jobs == v.jobs
    && u.reconcile == v.reconcile
    && u.status == v.status
    && u.manifest == v.manifest
    && u.files == v.files
    && u.deployments == v.deployments

unfoldable pub validate_urls : CapabilitiesUrls → Check
validate_urls u = require (same_urls u default_capabilities_urls) invalid_capabilities

unfoldable pub default_capabilities : Capabilities
default_capabilities = record {
  api_version = api_version;
  async_jobs = true;
  job_polling = true;
  terminal_job_reuse = true;
  force_requires_new_idempotency_key = true;
  urls = default_capabilities_urls;
}

unfoldable pub validate_capabilities : Capabilities → Check
validate_capabilities c = do
  require (c.api_version == api_version) invalid_capabilities
  refuse
      (not c.async_jobs
        || not c.job_polling
        || not c.terminal_job_reuse
        || not c.force_requires_new_idempotency_key)
      invalid_capabilities
  validate_urls c.urls

module _ {Wire : Type 0} (codec : Codec Wire Capabilities) where
  unfoldable pub unmarshal_capabilities : Wire → Result ErrorCode Capabilities
  unmarshal_capabilities bytes = do
    decoded ← unmarshal_strict codec bytes
    validate_capabilities decoded
    ok decoded

  unfoldable pub marshal_capabilities : Capabilities → Result ErrorCode Wire
  marshal_capabilities c = do validate_capabilities c; ok (codec.encode c)

same_urls_iff : (u v : CapabilitiesUrls) → (same_urls u v ≡ true) ↔ (u ≡ v)
unfolding same_urls
same_urls_iff u v = ground (
  arith,
  text_beq_iff u.capabilities v.capabilities,
  text_beq_iff u.jobs v.jobs,
  text_beq_iff u.reconcile v.reconcile,
  text_beq_iff u.status v.status,
  text_beq_iff u.manifest v.manifest,
  text_beq_iff u.files v.files,
  text_beq_iff u.deployments v.deployments,
)

-- The only declaration that is accepted is the full one of the package.
pub validate_capabilities_iff :
    (c : Capabilities) → (validate_capabilities c ≡ ok tt) ↔ (c ≡ default_capabilities)
unfolding validate_capabilities validate_urls
validate_capabilities_iff c =
    unfold default_capabilities in
    ground (
      arith,
      same_urls_iff c.urls default_capabilities_urls,
      text_beq_iff c.api_version api_version,
    )
