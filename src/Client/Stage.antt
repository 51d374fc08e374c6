-- ===== src/Client/Stage.antt =====
-- internal/client/deploy.go: the files of a generation, downloaded to a staging directory, checked
-- there, and published as a release.
pub mod Laws
pub mod Published
use cert_keeper.Prelude.{
  ℕ, Text, Bool, true, false, not, ◌==◌, nat_eq, text_eq, Option, none, some, ok, err, refuse,
  require, length, any, codes, List, [], ◌∷◌, ◌++◌, if◌then◌else◌, map, Result,
}
use cert_keeper.Prelude.Int.{ℤ, pos, beq_ℤ}
use cert_keeper.Prelude.Steps.{lift, modify, inspect, return, ◌>>=◌, ◌>>◌}
use cert_keeper.Protocol.Manifest.{FileManifest, fixed_file_names, validate_manifest}
use cert_keeper.Client.Tree.{
  Node, file, Release, directory, Tree, switching, make_staging, chmod_staging, remove_staging,
  open_staged, chmod_staged, write_staged, sync_staged, close_staged, read_staged, check_staged,
  write_short, stat_target, rename_release, chmod_release, sync_releases, World, Failure, not_found,
  incomplete_manifest, download, wrong_size, wrong_digest, release_exists, no_fetch, Checked,
  Deploying,
}
use cert_keeper.Client.Certificate.{Crypto, validate_staged_certificate}
use cert_keeper.Client.Current.{write_deployment_current}
use cert_keeper.Client.Read.{call, or_invalid, lookup}

-- `GenerationDeployOpts`; a command returns its error, and does not change the directory.
pub record GenerationDeployOpts : Type 0 where
  pub domain : Text
  pub san : List Text
  pub out_dir : Text
  pub generation : Text
  pub manifest : List FileManifest
  pub fetch : Option (Text → Result Text Text)
  pub verify : Option (Tree → Option Text)
  pub reload : Option (Tree → Option Text)

abbrev pub has_file : List FileManifest → Text → Bool
has_file manifest name = any (λ item. item.name == name) manifest

-- The last loop of `validateDeploymentManifest`.
unfoldable pub require_files : List FileManifest → List Text → Checked (Unit {0})
require_files manifest [] = ok tt
require_files manifest (name ∷ names) =
    if has_file manifest name then require_files manifest names else err incomplete_manifest

unfoldable pub validate_deployment_manifest : List FileManifest → Deploying (Unit {0})
validate_deployment_manifest manifest = do
  lift (or_invalid (validate_manifest manifest))
  lift (require (length manifest == length fixed_file_names) incomplete_manifest)
  lift (require_files manifest fixed_file_names)

-- `manifestByName[fileName]`: of items with one name the last, and an empty one without any.
abbrev pub item_named : Text → List FileManifest → FileManifest → FileManifest
item_named name [] found = found
item_named name (item ∷ items) found =
    item_named name items (if item.name == name then item else found)

abbrev pub no_item : FileManifest
no_item = record { name = []; size = pos 0; sha256 = [] }

abbrev pub files_of : Option (List (Text × Text)) → List (Text × Text)
files_of none = []
files_of (some files) = files

-- A file of the staging directory, once its content is written.
unfoldable pub with_staged : Text → Text → Tree → Tree
with_staged name content t = record t { staging = some ((name, content) ∷ files_of t.staging) }

-- `readRegularFile` in the staging directory.
unfoldable pub read_file : Tree → Text → Checked Text
read_file t name = elim (lookup name (files_of t.staging)) [
  | none ↦ err not_found
  | some content ↦ ok content
]

unfoldable pub new_staging : Tree → Tree
new_staging t = record t { staging = some [] }

-- `os.RemoveAll(stagingDir)`, which may fail.
unfoldable pub without_staging : World → Tree → Tree
without_staging w t = elim (w.fails remove_staging) [
  | none ↦ record t { staging = none }
  | some e ↦ t
]

-- The release that the staging directory becomes.
abbrev pub release_of : Tree → Release
release_of t = directory (map (λ entry. (entry.0, file entry.1)) (files_of t.staging))

unfoldable pub published : Text → Tree → Tree
published generation t = record t {
  releases = (generation, release_of t) ∷ t.releases;
  staging = none;
}

abbrev pub required : Option (Text → Result Text Text) → Checked (Text → Result Text Text)
required none = err no_fetch
required (some fetch) = ok fetch

abbrev pub is_some {ℓ} : {A : Type ℓ} → Option A → Bool
is_some none = false
is_some (some a) = true

module _ {Certificate Key : Type 0} (crypto : Crypto Certificate Key) where
  -- The size and the digest that the manifest gives for a file.
  unfoldable pub matches_manifest : FileManifest → Text → Text → Checked (Unit {0})
  matches_manifest item name content =
      if not (beq_ℤ (pos (length content)) item.size)
      then err (wrong_size name)
      else if not (crypto.sha256_hex content == item.sha256)
      then err (wrong_digest name)
      else ok tt

  unfoldable pub write_and_validate_staged_file :
      World → Text → FileManifest → Text → Deploying (Unit {0})
  write_and_validate_staged_file w name item content = do
    lift (matches_manifest item name content)
    lift (call w (open_staged name))
    lift (call w (chmod_staged name))
    lift (call w (write_staged name))
    lift (call w (write_short name))
    modify (with_staged name content)
    lift (call w (sync_staged name))
    lift (call w (close_staged name))
    lift (call w (read_staged name))
    stored ← inspect (λ t. read_file t name)
    lift (matches_manifest item name stored)

  -- The call of `opts.Fetch`.
  unfoldable pub fetch_file : (Text → Result Text Text) → Text → Checked Text
  fetch_file fetch name = elim (fetch name) [
    | ok content ↦ ok content
    | err e ↦ err (download name e)
  ]

  unfoldable pub stage_files :
      World → (Text → Result Text Text) → List FileManifest → List Text → Deploying (Unit {0})
  stage_files w fetch manifest [] = return tt
  stage_files w fetch manifest (name ∷ names) = do
    content ← lift (fetch_file fetch name)
    write_and_validate_staged_file w name (item_named name manifest no_item) content
    stage_files w fetch manifest names

  abbrev pub staged_read : World → Tree → Text → Checked Text
  staged_read w t name = elim (call w (check_staged name)) [
    | ok u ↦ read_file t name
    | err e ↦ err e
  ]

  unfoldable pub validate_staging : World → GenerationDeployOpts → Deploying (Unit {0})
  validate_staging w opts t =
      (t, validate_staged_certificate crypto (staged_read w t) opts.domain opts.san w.now)

  unfoldable pub publish_release : World → Text → Deploying (Unit {0})
  publish_release w generation = do
    lift (call w stat_target)
    inspect (λ t. refuse (is_some (lookup generation t.releases)) release_exists)
    lift (call w rename_release)
    modify (published generation)
    lift (call w chmod_release)
    lift (call w sync_releases)

  -- The deferred function removes the staging directory, unless it has become a release.
  abbrev pub cleaned : World → Tree × Checked (Unit {0}) → Tree × Checked (Unit {0})
  cleaned w (t, ok u) = (t, ok tt)
  cleaned w (t, err e) = (without_staging w t, err e)

  -- The files are in the staging directory, and checked.
  unfoldable pub fill_staging :
      World → GenerationDeployOpts → (Text → Result Text Text) → Deploying (Unit {0})
  fill_staging w opts fetch = do
    lift (call w chmod_staging)
    stage_files w fetch opts.manifest fixed_file_names
    validate_staging w opts

  unfoldable pub fill_release :
      World → GenerationDeployOpts → (Text → Result Text Text) → Deploying (Unit {0})
  fill_release w opts fetch = do fill_staging w opts fetch; publish_release w opts.generation

  unfoldable pub fill_and_clean :
      World → GenerationDeployOpts → (Text → Result Text Text) → Deploying (Unit {0})
  fill_and_clean w opts fetch t = cleaned w (fill_release w opts fetch t)

  -- From the check of `opts.Fetch` to the creation of the staging directory.
  unfoldable pub check_inputs : World → GenerationDeployOpts → Deploying (Text → Result Text Text)
  check_inputs w opts = do
    fetch ← lift (required opts.fetch)
    validate_deployment_manifest opts.manifest
    lift (call w make_staging)
    return fetch

  unfoldable pub make_release :
      World → GenerationDeployOpts → (Text → Result Text Text) → Deploying (Unit {0})
  make_release w opts fetch = do modify new_staging; fill_and_clean w opts fetch

  -- From there to the switch of `current`.
  unfoldable pub publish : World → GenerationDeployOpts → Deploying (Unit {0})
  publish w opts = do
    fetch ← check_inputs w opts
    make_release w opts fetch
    write_deployment_current w switching opts.generation
