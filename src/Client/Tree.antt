-- ===== src/Client/Tree.antt =====
-- internal/client/deploy.go: the directory that a deployment changes, and what the system calls on
-- it return. A call fails when the world says so, or when the directory makes it.
use cert_keeper.Prelude.{ℕ, Text, Bool, Option, List, Result}
use cert_keeper.Prelude.Steps.{Steps}
use cert_keeper.Protocol.Errors.{ErrorCode}

-- What is at a path of a release: a regular file with its content, or anything else.
pub data Node : Type 0 where
  file : Text → Node
  not_regular : Node

-- A directory that is no symbolic link, with its entries, or anything else.
pub data Release : Type 0 where
  directory : List (Text × Node) → Release
  not_directory : Release

-- The path `current`: a symbolic link with its target, a regular file with its content, or neither.
pub data Current : Type 0 where
  absent : Current
  link : Text → Current
  regular : Text → Current
  special : Current

pub record Tree : Type 0 where
  pub current : Current
  pub releases : List (Text × Release)
  pub staging : Option (List (Text × Text))  -- of the last deployment that made one
  pub temporaries : List Text  -- the generations of the links `.current-...`

pub data Place : Type 0 where
  out_dir releases_dir : Place

-- `current` is written to switch to a generation, and to restore the one before.
pub data Phase : Type 0 where
  switching restoring : Phase

-- The system calls of `DeployGeneration`, each made once at most.
pub data Step : Type 0 where
  make_directory stat_directory chmod_directory : Place → Step
  lock : Step
  stat_current read_link read_current : Step
  stat_release read_release : Step
  read_release_file : Text → Step
  make_staging chmod_staging remove_staging : Step
  open_staged chmod_staged write_staged sync_staged close_staged read_staged check_staged :
      Text → Step
  write_short : Text → Step
  stat_target rename_release chmod_release sync_releases : Step
  stat_switched remove_temporary make_link rename_link sync_out : Phase → Step
  stat_restored remove_current sync_removed : Step

-- What the calls return, where `none` is success, and the clock. A path that should be a
-- directory may be a symbolic link to one, or no directory.
pub record World : Type 0 where
  pub fails : Step → Option Text
  pub is_directory : Place → Bool
  pub now : ℕ

-- Why a deployment failed.
pub data Failure : Type 0 where
  invalid : ErrorCode → Failure
  system : Step → Text → Failure
  no_domain no_out_dir no_fetch : Failure
  bad_directory bad_current bad_release link_exists not_found : Failure
  incomplete_manifest : Failure
  download : Text → Text → Failure
  wrong_size wrong_digest : Text → Failure
  bad_pem : Failure
  bad_certificate : Text → Failure
  expired wrong_key no_name : Failure
  not_covered : Text → Text → Failure
  release_exists : Failure
  command : Text → Failure

abbrev pub Checked {ℓ} : Type ℓ → Type ℓ
Checked A = Result Failure A

abbrev pub Deploying {ℓ} : Type ℓ → Type ℓ
Deploying A = Steps Tree Failure A
