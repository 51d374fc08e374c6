-- ===== src/Certstore/Publish.antt =====
-- internal/certstore/certstore.go: `publish`.
pub mod Laws
pub mod Switch
pub mod Latest
pub mod Written
pub mod Success
use cert_keeper.Prelude.{
  ℕ, zero, suc, Text, Bool, true, false, ◌==◌, text_eq, Option, none, some, Result, ok, err, refuse,
  length, map, codes, List, [], ◌∷◌, ◌++◌, if◌then◌else◌,
}
use cert_keeper.Prelude.Steps.{lift, modify, inspect, raise, return, ◌>>=◌, ◌>>◌}
use cert_keeper.Prelude.Int.{pos}
use cert_keeper.Protocol.Identifiers.{validate_revision}
use cert_keeper.Protocol.Manifest.{FileManifest, fixed_file_names, file_cert}
use cert_keeper.Client.Tree.{Node, file}
use cert_keeper.Client.Read.{lookup}
use cert_keeper.Client.Certificate.{Crypto}
use cert_keeper.Certstore.{
  StoreFailure, unsafe_path, invalid_manifest, system, Checked, Entry, directory, Folder, folder,
  missing, unsafe, DomainDir, Call, stat_root, stat_entry, make_domain, make_releases,
  sync_releases, make_temporary, chmod_temporary, sync_temporary, rename_temporary, write_file,
  remove_entry, World, call, Storing, is_not_found, assert_folder, entries_of, on_folder,
  without_entry, with_entry, validate_generation, normalize_domain,
}
use cert_keeper.Certstore.Manifest.{
  Formats, GenerationManifest, or_invalid, validate_file_set, content_of, first_certificate,
  certificate_sans, certificate_fingerprint, manifest_file_name,
}
use cert_keeper.Certstore.Manifest
use cert_keeper.Certstore.Read.{current_state}
use cert_keeper.Certstore.Build.{
  Staged, make_domain_directory, if_found, new_generation_path, prepare,
}
use cert_keeper.Certstore.Current.{write_current}

-- `ensureDirectory(releasesDir)`.
abbrev pub made : Folder → Folder
made missing = folder []
made unsafe = unsafe
made (folder entries) = folder entries

unfoldable pub with_releases : DomainDir → DomainDir
with_releases d = record d { releases = made d.releases }

abbrev pub no_entries : Checked (List (Text × Entry)) → Checked (Unit {0})
no_entries (ok entries) = ok tt
no_entries (err e) = err e

-- `domainPaths` with creation: the name of the domain's directory.
unfoldable pub make_domain_paths : World → Text → Storing Text
make_domain_paths w domain = do
  safe ← lift (make_domain_directory w domain)
  modify with_releases
  inspect (λ d. no_entries (assert_folder d.releases))
  return safe

-- What a removal that failed left.
abbrev pub leave : World → Text → List (Text × Entry) → List (Text × Entry)
leave w name entries =
    map (λ (e : Text × Entry). if e.0 == name then (e.0, w.left name) else e) entries

abbrev pub removal : World → Text → Option StoreFailure → List (Text × Entry) → List (Text × Entry)
removal w name none entries = without_entry name entries
removal w name (some e) entries = leave w name entries

-- `_ = os.RemoveAll(path)`.
unfoldable pub remove_all : World → Text → DomainDir → DomainDir
remove_all w name d = record d {
  releases = on_folder (removal w name (w.fails (remove_entry name))) d.releases;
}

abbrev pub removed_on_failure {ℓ} :
    {A : Type ℓ} → World → Text → DomainDir × Checked A → DomainDir × Checked A
removed_on_failure w name (d, ok a) = (d, ok a)
removed_on_failure w name (d, err e) = (remove_all w name d, err e)

-- A program whose failure is followed by a removal.
abbrev pub or_remove {ℓ} : {A : Type ℓ} → World → Text → Storing A → Storing A
or_remove w name m d = removed_on_failure w name (m d)

-- The directory takes its name.
unfoldable pub with_generation : World → Text → List (Text × Node) → DomainDir → DomainDir
with_generation w generation files d = record d {
  releases =
      on_folder
        (λ entries. with_entry generation (directory files) (without_entry w.temporary entries))
        d.releases;
}

unfoldable pub with_temporary : World → DomainDir → DomainDir
with_temporary w d = record d {
  releases = on_folder (with_entry w.temporary (directory [])) d.releases;
}

-- The release is synced and made current, or removed again.
unfoldable pub finish : World → Text → Storing (Unit {0})
finish w generation = do
  or_remove w generation (lift (call w sync_releases))
  or_remove w generation (write_current w generation)

module _ {Certificate Key : Type 0} (crypto : Crypto Certificate Key)
    (formats : Formats Certificate) (w : World) where
  -- From the temporary directory on.
  unfoldable pub install : Text → Text → Staged → List (Text × Text) → Storing GenerationManifest
  install domain generation staged files = do
    prepared ← inspect (prepare crypto formats w domain generation staged files)
    modify (with_generation w generation prepared.1)
    finish w generation
    return prepared.0

  -- From the new id on.
  unfoldable pub place :
      Text → Staged → List (Text × Text) → Text → Storing (Text × GenerationManifest)
  place domain staged files generation = do
    lift (call w make_temporary)
    modify (with_temporary w)
    or_remove w w.temporary (lift (call w chmod_temporary))
    m ← or_remove w w.temporary (install domain generation staged files)
    return (generation, m)

  -- From the check of `current` on.
  unfoldable pub place_new :
      Text → Staged → List (Text × Text) → Text → Storing (Text × GenerationManifest)
  place_new domain staged files safe = do
    inspect (λ d. if_found (current_state crypto formats w safe d))
    generation ← inspect (λ d. new_generation_path w 8 w.drawn (entries_of d.releases))
    place domain staged files generation

  unfoldable pub publish_files :
      Text → Staged → List (Text × Text) → Storing (Text × GenerationManifest)
  publish_files domain staged files = do
    safe ← make_domain_paths w domain
    place_new domain staged files safe

  unfoldable pub publish : Text → Staged → Storing (Text × GenerationManifest)
  publish domain staged = do files ← lift staged.files; publish_files domain staged files
