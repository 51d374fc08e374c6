-- ===== src/Client/Deploy/Tests.antt =====
-- Runs of the deployment on a small directory, and instances of the theorems.
use cert_keeper.Prelude.{
  ℕ, ◌+◌, ◌<◌, length, arith, Text, Bool, true, false, Option, none, some, Result, ok, err, List,
  [], ◌∷◌, ◌≡◌, refl, codes, ◌==◌, nat_eq, if◌then◌else◌, ◌⊎◌, inl, inr,
}
use cert_keeper.Prelude.Int.{pos}
use cert_keeper.Protocol.Manifest.{
  FileManifest, file_cert, file_key, file_fullchain, file_ca, file_time_log,
}
use cert_keeper.Client.Tree.{Tree, absent, link, World, Step, Place, Failure, Release, Checked}
use cert_keeper.Client.Certificate.{Crypto, Block, decode_remaining, validate_staged_certificate}
use cert_keeper.Client.Certificate.Laws.{decode_remaining-ends, validate-IsServable, IsServable}
use cert_keeper.Client.Stage.{GenerationDeployOpts}
use cert_keeper.Client.Read.{lookup}
use cert_keeper.Client.Stage.Published.{Grown}
use cert_keeper.Client.Deploy.{
  deploy_generation, Deployed, deployed, skipped_report, plain, retryable, prepare,
}
use cert_keeper.Client.Deploy.Laws.{deploy_generation-Restored, IsAfter, deploy_generation-Grown}
use cert_keeper.Client.Deploy.Again.{deploy-success, deploy-verified_once, deploy-blocked, Succeeds}

-- Blocks are of one byte, a key's is K.
abbrev toy_decode : Text → Option (Block × Text)
toy_decode [] = none
toy_decode (c ∷ rest) = some (
  record { type = if c == b'K' then codes "PRIVATE KEY" else codes "CERTIFICATE"; bytes = c ∷ [] },
  rest,
)

abbrev digest : Text
digest = codes "aaaaaaaaaaaaaaaaaaaaaaaaaaaaaaaaaaaaaaaaaaaaaaaaaaaaaaaaaaaaaaaa"

abbrev toy : Crypto Text Text
toy = record {
  sha256_hex = λ _. digest;
  pem_decode = toy_decode;
  parse_certificate = λ bytes. ok bytes;
  parse_pkcs8 = λ bytes. ok bytes;
  parse_pkcs1 = λ bytes. err [];
  parse_ec = λ bytes. err [];
  is_signer = λ _. true;
  signer_public = λ _. ok [];
  raw = λ c. c;
  public_key = λ _. ok [];
  not_before = λ _. 0;
  not_after = λ _. 100;
  verify_hostname = λ _ _. none;
}

abbrev world : World
world = record { fails = λ _. none; is_directory = λ _. true; now = 50 }

abbrev item : Text → FileManifest
item name = record { name = name; size = pos 1; sha256 = digest }

abbrev toy_fetch : Text → Result Text Text
toy_fetch name =
    if cert_keeper.Prelude.text_beq name file_key then ok (codes "K") else ok (codes "C")

abbrev opts : GenerationDeployOpts
opts = record {
  domain = codes "a.example.com";
  san = [];
  out_dir = codes "/etc/tls";
  generation = codes "g2";
  manifest =
      item file_cert ∷ item file_key ∷ item file_fullchain ∷ item file_ca ∷ item file_time_log ∷ [];
  fetch = some toy_fetch;
  verify = none;
  reload = none;
}

abbrev tree : Tree
tree = record { current = absent; releases = []; staging = none; temporaries = [] }

abbrev failing : Option (Tree → Option Text)
failing = some (λ _. some (codes "exit 1"))

abbrev unverified : GenerationDeployOpts
unverified = record opts { verify = failing }

abbrev unloaded : GenerationDeployOpts
unloaded = record opts { reload = failing }

client : Unit {0}
unfolding cert_keeper.Client.Read.release_target cert_keeper.Client.Read.managed_target
    cert_keeper.Client.Read.generation_of_target cert_keeper.Client.Read.read_named
    cert_keeper.Client.Read.read_deployment_current cert_keeper.Client.Read.check_entries
    cert_keeper.Client.Read.has_all_files cert_keeper.Client.Read.check_release
    cert_keeper.Client.Read.assert_safe_release cert_keeper.Client.Current.without_temporary
    cert_keeper.Client.Current.with_temporary cert_keeper.Client.Current.switched
    cert_keeper.Client.Current.prepare_link cert_keeper.Client.Current.write_deployment_current
    cert_keeper.Client.Current.without_current cert_keeper.Client.Current.remove_deployment_current
    cert_keeper.Client.Current.remove_if_there cert_keeper.Client.Current.restore_deployment_current
    cert_keeper.Client.Stage.require_files cert_keeper.Client.Stage.validate_deployment_manifest
    cert_keeper.Client.Stage.with_staged cert_keeper.Client.Stage.read_file
    cert_keeper.Client.Stage.new_staging cert_keeper.Client.Stage.without_staging
    cert_keeper.Client.Stage.published cert_keeper.Client.Stage.matches_manifest
    cert_keeper.Client.Stage.write_and_validate_staged_file cert_keeper.Client.Stage.fetch_file
    cert_keeper.Client.Stage.stage_files cert_keeper.Client.Stage.validate_staging
    cert_keeper.Client.Stage.publish_release cert_keeper.Client.Stage.fill_staging
    cert_keeper.Client.Stage.fill_release cert_keeper.Client.Stage.fill_and_clean
    cert_keeper.Client.Stage.check_inputs cert_keeper.Client.Stage.make_release
    cert_keeper.Client.Stage.publish cert_keeper.Client.Deploy.new_report
    cert_keeper.Client.Deploy.deployment_failure cert_keeper.Client.Deploy.skipped_report
    cert_keeper.Client.Deploy.succeeded_report cert_keeper.Client.Deploy.ensure_secure_directory
    cert_keeper.Client.Deploy.prepare cert_keeper.Client.Deploy.refused
    cert_keeper.Client.Deploy.reload_release cert_keeper.Client.Deploy.verified_report
    cert_keeper.Client.Deploy.verify_release cert_keeper.Client.Deploy.deploy_generation
    cert_keeper.Client.Certificate.decode_remaining cert_keeper.Client.Certificate.decode_pem_blocks
    cert_keeper.Client.Certificate.parse_blocks cert_keeper.Client.Certificate.parse_certificates
    cert_keeper.Client.Certificate.parse_key_block cert_keeper.Client.Certificate.parse_private_key
    cert_keeper.Client.Certificate.check_names cert_keeper.Client.Certificate.check_pair
    cert_keeper.Client.Certificate.validate_staged_certificate
    cert_keeper.Protocol.Identifiers.validate_generation_id
    cert_keeper.Protocol.Identifiers.validate_path_segment
    cert_keeper.Protocol.Identifiers.is_path_traversal cert_keeper.Protocol.Identifiers.has_control
    cert_keeper.Protocol.Manifest.validate_manifest cert_keeper.Protocol.Manifest.validate_file
    cert_keeper.Protocol.Manifest.validate_file_name cert_keeper.Protocol.Manifest.validate_files
    cert_keeper.Protocol.Manifest.is_lower_hex cert_keeper.Protocol.Manifest.is_fixed_file_name
    cert_keeper.Prelude.text_beq cert_keeper.Prelude.split cert_keeper.Prelude.Trim.trim_space
    cert_keeper.Prelude.Trim.trim_left cert_keeper.Prelude.Trim.trim_right
    cert_keeper.Prelude.Trim.without_space cert_keeper.Prelude.space_last
client = tt

-- A deployment that succeeds, one whose check fails, and one whose reload fails.
abbrev success : Deployed
success = deploy_generation toy world opts tree

success-has_no_error : success.error ≡ none
unfolding client
success-has_no_error = refl

unloaded-verified : (deploy_generation toy world unloaded tree).report.verified ≡ true
unfolding client
unloaded-verified = refl

unloaded-prepared :
    prepare world opts (deploy_generation toy world unloaded tree).tree ≡ ok (some (codes "g2"))
unfolding client
unloaded-prepared = refl

unverified-fails :
    (deploy_generation toy world unverified tree).error
    ≡ some (plain (cert_keeper.Client.Tree.command (codes "exit 1")))
unfolding client
unverified-fails = refl

abbrev success_release : Release
success_release = cert_keeper.Client.Tree.directory (
    (file_time_log, cert_keeper.Client.Tree.file (codes "C"))
    ∷ (file_ca, cert_keeper.Client.Tree.file (codes "C"))
    ∷ (file_fullchain, cert_keeper.Client.Tree.file (codes "C"))
    ∷ (file_key, cert_keeper.Client.Tree.file (codes "K"))
    ∷ (file_cert, cert_keeper.Client.Tree.file (codes "C"))
    ∷ [])

unverified-stays :
    (deploy_generation toy world unverified tree).tree
    ≡ record tree { releases = (codes "g2", success_release) ∷ [] }
unfolding client
unverified-stays = refl

deploy-success_example : Succeeds toy world opts tree success
deploy-success_example = deploy-success toy world opts tree success-has_no_error

deploy_generation-Restored_example :
    IsAfter world opts tree
      (deploy_generation toy world unverified tree).error
      (deploy_generation toy world unverified tree).tree.current
deploy_generation-Restored_example = deploy_generation-Restored toy world unverified tree refl

deploy-verified_once_example :
    deploy_generation toy world opts (deploy_generation toy world unloaded tree).tree
    ≡ deployed (deploy_generation toy world unloaded tree).tree (skipped_report (codes "g2")) none
deploy-verified_once_example =
    deploy-verified_once toy world unloaded tree world opts (some (codes "g2")) unloaded-verified
      refl unloaded-prepared

success-there : lookup (codes "g2") success.tree.releases ≡ some success_release
unfolding client
success-there = refl

again-has_no_error : (deploy_generation toy world unverified success.tree).error ≡ none
unfolding client
again-has_no_error = refl

deploy-blocked_example :
    deploy_generation toy world unverified success.tree
    ≡ deployed success.tree (skipped_report (codes "g2")) none
deploy-blocked_example =
    deploy-blocked toy world unverified success.tree success_release success-there
      again-has_no_error

deploy_generation-Grown_example :
    (r : Release) × Grown (codes "g2") r [] (deploy_generation toy world opts tree).tree.releases
deploy_generation-Grown_example = deploy_generation-Grown toy world opts tree

toy-shrinks :
    (s rest : Text) (block : Block) → toy_decode s ≡ some (block, rest) → length rest < length s
toy-shrinks [] rest block h = cc
toy-shrinks (c ∷ s) rest block h = ground arith

decode_remaining-ends_example :
    (r : Checked (List Block)) × (decode_remaining toy (length (codes "CC")) (codes "CC") ≡ some r)
decode_remaining-ends_example = decode_remaining-ends toy toy-shrinks (codes "CC")

-- The content of a file that `toy_fetch` downloads.
abbrev toy_read : Text → Checked Text
toy_read name =
    if cert_keeper.Prelude.text_beq name file_key then ok (codes "K") else ok (codes "C")

toy-valid : validate_staged_certificate toy toy_read (codes "a.example.com") [] 50 ≡ ok tt
unfolding client
toy-valid = refl

validate-IsServable_example : IsServable toy toy_read (codes "a.example.com" ∷ []) 50
validate-IsServable_example =
    validate-IsServable toy toy_read (codes "a.example.com") [] 50 toy-valid
