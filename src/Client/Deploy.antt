-- ===== src/Client/Deploy.antt =====
-- internal/client/deploy.go: `DeployGeneration`.
pub mod Laws
pub mod Again
mod Tests
use cert_keeper.Prelude.{
  ℕ, Text, Bool, true, false, not, ◌==◌, text_eq, Option, none, some, Result, ok, err, refuse,
  is_empty, List, [], ◌∷◌, if◌then◌else◌, ◌>>=◌, ◌>>◌, require,
}
use cert_keeper.Protocol.Errors.{ErrorResponse, ErrorCode, deployment_failed}
use cert_keeper.Protocol.Identifiers.{validate_generation_id}
use cert_keeper.Protocol.Deployment.{DeploymentState, deploying, succeeded, failed, skipped}
use cert_keeper.Client.Tree.{
  Tree, Place, out_dir, releases_dir, make_directory, stat_directory, chmod_directory, lock, World,
  Failure, no_domain, no_out_dir, no_fetch, bad_directory, command, Checked, Deploying,
}
use cert_keeper.Client.Certificate.{Crypto}
use cert_keeper.Client.Read.{call, or_invalid, read_deployment_current, assert_safe_release}
use cert_keeper.Client.Current.{restore_deployment_current}
use cert_keeper.Client.Stage.{GenerationDeployOpts, publish}

-- The fields of the `DeploymentReport` that are set; `failure` is what its `Error` is made of, with
-- `Retryable`.
pub record Report : Type 0 where
  pub state : DeploymentState
  pub success : Bool
  pub generation : Text
  pub verified : Bool
  pub reloaded : Bool
  pub failure : Option (Failure × Bool)

-- `Error.Message` is a text of the failure, and `Error.Details` is nil.
abbrev pub error_response : (Failure → Text) → Failure × Bool → ErrorResponse
error_response describe (f, retryable) = record {
  code = deployment_failed;
  message = describe f;
  retryable = retryable;
  details = [];
}

-- The error that is returned: the last is of a check that failed and a rollback that did too.
pub data DeployError : Type 0 where
  plain retryable : Failure → DeployError
  not_restored : Failure → Failure → DeployError

-- What is returned, with the directory after it.
pub record Deployed : Type 0 where
  pub tree : Tree
  pub report : Report
  pub error : Option DeployError

abbrev pub deployed : Tree → Report → Option DeployError → Deployed
deployed t report error = record { tree = t; report = report; error = error }

unfoldable pub new_report : Text → Report
new_report generation = record {
  state = deploying;
  success = false;
  generation = generation;
  verified = false;
  reloaded = false;
  failure = none;
}

unfoldable pub deployment_failure : Report → Failure → Bool → Report
deployment_failure report e again = record report {
  state = failed;
  success = false;
  failure = some (e, again);
}

unfoldable pub skipped_report : Text → Report
skipped_report generation = record (new_report generation) {
  state = skipped;
  success = true;
  verified = true;
  reloaded = true;
}

unfoldable pub succeeded_report : Text → Report
succeeded_report generation = record (new_report generation) {
  state = succeeded;
  success = true;
  verified = true;
  reloaded = true;
}

unfoldable pub ensure_secure_directory : World → Place → Checked (Unit {0})
ensure_secure_directory w place = do
  call w (make_directory place)
  call w (stat_directory place)
  require (w.is_directory place) bad_directory
  call w (chmod_directory place)

abbrev pub check_previous : World → Tree → Option Text → Checked (Unit {0})
check_previous w t none = ok tt
check_previous w t (some previous) = assert_safe_release w t previous

-- What comes before the comparison with the current generation, which it returns.
unfoldable pub prepare : World → GenerationDeployOpts → Tree → Checked (Option Text)
prepare w opts t = do
  or_invalid (validate_generation_id opts.generation)
  refuse (is_empty opts.domain) no_domain
  refuse (is_empty opts.out_dir) no_out_dir
  ensure_secure_directory w out_dir
  call w lock
  ensure_secure_directory w releases_dir
  previous ← read_deployment_current w t
  check_previous w t previous
  ok previous

abbrev pub is_same : Option Text → Text → Bool
is_same none generation = false
is_same (some previous) generation = previous == generation

-- A command that is not there succeeds.
abbrev pub run_command : Option (Tree → Option Text) → Tree → Option Text
run_command none t = none
run_command (some body) t = body t

unfoldable pub refused : Tree → Report → Failure → Deployed
refused t report e = deployed t (deployment_failure report e false) (some (plain e))

-- What is returned after the reload; the report is verified.
abbrev pub after_reload : GenerationDeployOpts → Report → Tree → Option Text → Deployed
after_reload opts report t (some e) =
    deployed t (deployment_failure report (command e) true) (some (retryable (command e)))
after_reload opts report t none = deployed t (succeeded_report opts.generation) none

unfoldable pub reload_release : GenerationDeployOpts → Report → Tree → Deployed
reload_release opts report t = after_reload opts report t (run_command opts.reload t)

-- What is returned after a check that failed, by the result of the rollback.
abbrev pub rolled_back : Report → Text → Tree × Checked (Unit {0}) → Deployed
rolled_back report e (t, ok u) =
    deployed t (deployment_failure report (command e) false) (some (plain (command e)))
rolled_back report e (t, err f) =
    deployed t (deployment_failure report (command e) false) (some (not_restored (command e) f))

unfoldable pub verified_report : Text → Report
verified_report generation = record (new_report generation) { verified = true }

abbrev pub after_verify : World → GenerationDeployOpts → Option Text → Tree → Option Text → Deployed
after_verify w opts previous t (some e) =
    rolled_back (new_report opts.generation) e (restore_deployment_current w previous t)
after_verify w opts previous t none = reload_release opts (verified_report opts.generation) t

unfoldable pub verify_release : World → GenerationDeployOpts → Option Text → Tree → Deployed
verify_release w opts previous t = after_verify w opts previous t (run_command opts.verify t)

module _ {Certificate Key : Type 0} (crypto : Crypto Certificate Key) where
  abbrev pub after_publish :
      World → GenerationDeployOpts → Option Text → Tree × Checked (Unit {0}) → Deployed
  after_publish w opts previous (t, err e) = refused t (new_report opts.generation) e
  after_publish w opts previous (t, ok u) = verify_release w opts previous t

  abbrev pub after_prepare : World → GenerationDeployOpts → Tree → Checked (Option Text) → Deployed
  after_prepare w opts t (err e) = refused t (new_report opts.generation) e
  after_prepare w opts t (ok previous) =
      if is_same previous opts.generation
      then deployed t (skipped_report opts.generation) none
      else after_publish w opts previous (publish crypto w opts t)

  unfoldable pub deploy_generation : World → GenerationDeployOpts → Tree → Deployed
  deploy_generation w opts t = after_prepare w opts t (prepare w opts t)
