-- ===== src/Certstore/Build.antt =====
-- internal/certstore/certstore.go: the manifest of a generation that is published, and its id.
use cert_keeper.Prelude.{
  ℕ, zero, suc, Text, none, some, ok, err, ◌>>=◌, ◌>>◌, length, codes, List, [], ◌∷◌, ◌++◌,
  if◌then◌else◌,
}
use cert_keeper.Prelude.Int.{pos}
use cert_keeper.Protocol.Identifiers.{validate_revision}
use cert_keeper.Protocol.Manifest.{FileManifest, fixed_file_names, file_cert}
use cert_keeper.Client.Tree.{Node, file}
use cert_keeper.Client.Read.{lookup}
use cert_keeper.Client.Certificate.{Crypto}
use cert_keeper.Certstore.{
  invalid_manifest, system, Checked, Entry, DomainDir, stat_root, make_domain, make_releases,
  stat_entry, write_file, sync_temporary, rename_temporary, World, call, is_not_found,
  validate_generation, normalize_domain,
}
use cert_keeper.Certstore.Manifest
use cert_keeper.Certstore.Manifest.{
  Formats, GenerationManifest, or_invalid, validate_file_set, content_of, manifest_file_name,
}
use cert_keeper.Certstore.Read.{next_revision}

-- What `readStaging` returns, and what `validateCertificateFiles` answers on the files.
pub record Staged : Type 0 where
  pub files : Checked (List (Text × Text))
  pub verified : Checked (Unit {0})

-- `domainPaths` with creation, up to the directory `releases`.
unfoldable pub make_domain_directory : World → Text → Checked Text
make_domain_directory w domain = do
  safe ← normalize_domain domain
  call w stat_root
  call w make_domain
  call w make_releases
  ok safe

-- `currentState` may find nothing.
abbrev pub if_found {ℓ} : {A : Type ℓ} → Checked A → Checked (Unit {0})
if_found (ok a) = ok tt
if_found (err e) = if is_not_found e then ok tt else err e

-- The loop of `newGenerationPath`, with the attempts that are left and the ids that are drawn.
unfoldable pub new_generation_path : World → ℕ → List Text → List (Text × Entry) → Checked Text
new_generation_path w zero drawn entries = err (system (codes "no unique id"))
new_generation_path w (suc attempts) [] entries = err (system (codes "random"))
new_generation_path w (suc attempts) (id ∷ drawn) entries = do
  validate_generation id
  call w (stat_entry id)
  elim (lookup id entries) [
    | none ↦ ok id
    | some entry ↦ new_generation_path w attempts drawn entries
  ]

-- `files[name]`, empty where it is missing.
abbrev pub staged_content : Text → List (Text × Text) → Text
staged_content name files = elim (lookup name files) [ none ↦ [] | some content ↦ content ]

-- The loop that writes the files, with what it has written in the temporary directory at its end.
unfoldable pub write_all : World → List (Text × Text) → List Text → Checked (List (Text × Node))
write_all w files [] = ok []
write_all w files (name ∷ names) = do
  call w (write_file name)
  rest ← write_all w files names
  ok ((name, file (staged_content name files)) ∷ rest)

module _ {Certificate Key : Type 0} (crypto : Crypto Certificate Key)
    (formats : Formats Certificate) where
  -- The loop of `buildManifest`.
  unfoldable pub build_entries : List (Text × Text) → List Text → Checked (List FileManifest)
  build_entries files [] = ok []
  build_entries files (name ∷ names) = elim (lookup name files) [
    | none ↦ err invalid_manifest
    | some content ↦ do
      rest ← build_entries files names
      ok (
          record { name = name; size = pos (length content); sha256 = crypto.sha256_hex content }
          ∷ rest)
  ]

  unfoldable pub build_manifest : List (Text × Text) → Checked (List FileManifest)
  build_manifest files = do
    manifest ← build_entries files fixed_file_names
    validate_file_set manifest
    ok manifest

  unfoldable pub build_generation_manifest :
      Text → Text → ℕ → Staged → List (Text × Text) → Checked GenerationManifest
  build_generation_manifest domain generation revision staged files = do
    validate_generation generation
    safe ← normalize_domain domain
    or_invalid (validate_revision revision) invalid_manifest
    staged.verified
    manifest ← build_manifest files
    leaf ←
        or_invalid
          (Manifest.first_certificate crypto formats (content_of crypto formats file_cert files))
          invalid_manifest
    ok (record {
      generation = generation;
      revision = revision;
      domain = safe;
      sans = Manifest.certificate_sans crypto formats leaf;
      serial = formats.serial leaf;
      fingerprint = Manifest.certificate_fingerprint crypto formats leaf;
      files = manifest;
    })

  -- What `publish` does between the temporary directory and its new name: the manifest, and the
  -- files that the directory holds by then.
  unfoldable pub prepare :
      World
      → Text
      → Text
      → Staged
      → List (Text × Text)
      → DomainDir
      → Checked (GenerationManifest × List (Text × Node))
  prepare w domain generation staged files d = do
    revision ← next_revision crypto formats w domain d
    manifest ← build_generation_manifest domain generation revision staged files
    contents ← write_all w files fixed_file_names
    call w (write_file manifest_file_name)
    call w sync_temporary
    call w rename_temporary
    ok (
      manifest,
      contents ++ (manifest_file_name, file (formats.encode_manifest manifest ++ 10 ∷ [])) ∷ [],
    )
