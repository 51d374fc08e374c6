-- ===== src/Certstore/Manifest.antt =====
-- internal/certstore/certstore.go: the manifest of a generation, and the check of a generation
-- against it: `loadGeneration`.
use cert_keeper.Prelude.{
  ℕ, Text, Bool, true, false, ◌&&◌, ◌||◌, ◌==◌, nat_eq, text_eq, Option, none, some, Result, ok,
  err, ◌>>=◌, ◌>>◌, require, length, all, any, is_empty, to_lower, codes, map, List, [], ◌∷◌, ◌++◌,
  if◌then◌else◌,
}
use cert_keeper.Prelude.Trim.{trim_space}
use cert_keeper.Prelude.Distinct.{member}
use cert_keeper.Prelude.Int.{pos, beq_ℤ}
use cert_keeper.Protocol.Identifiers.{validate_revision}
use cert_keeper.Protocol.Manifest.{FileManifest, validate_manifest, fixed_file_names, file_cert}
use cert_keeper.Store.Sql.{order_by, text_before}
use cert_keeper.Client.Tree.{Node, file, not_regular}
use cert_keeper.Client.Read.{lookup}
use cert_keeper.Client.Certificate.{Crypto, parse_certificates}
use cert_keeper.Certstore.{
  StoreFailure, not_found, unsafe_path, invalid_certificate, invalid_manifest, Checked, World, call,
  read_entry, read_file, validate_generation, normalize_domain,
}

pub record GenerationManifest : Type 0 where
  pub generation : Text
  pub revision : ℕ  -- uint64
  pub domain : Text
  pub sans : List Text
  pub serial : Text
  pub fingerprint : Text
  pub files : List FileManifest

-- `encoding/json` on a manifest and on a list of files, and what crypto/x509 has parsed of a
-- certificate: its serial in decimal, its names, and its addresses in text.
pub record Formats (Certificate : Type 0) : Type 0 where
  pub encode_manifest : GenerationManifest → Text
  pub decode_manifest : Text → Option GenerationManifest
  pub decode_files : Text → Option (List FileManifest)
  pub serial : Certificate → Text
  pub dns_names : Certificate → List Text
  pub ip_addresses : Certificate → List Text

abbrev pub manifest_file_name : Text
manifest_file_name = codes "manifest.json"

-- Why a check of another part failed is not told.
abbrev pub or_invalid {ℓ κ} : {E : Type ℓ} {A : Type κ} → Result E A → StoreFailure → Checked A
or_invalid (ok a) e = ok a
or_invalid (err _) e = err e

unfoldable pub read_regular_file : World → Text → Text → Option Node → Checked Text
read_regular_file w generation name none = err not_found
read_regular_file w generation name (some not_regular) = err unsafe_path
read_regular_file w generation name (some (file content)) = do
  call w (read_file generation name)
  ok content

-- `validateManifest`: the five fixed files.
unfoldable pub validate_file_set : List FileManifest → Checked (Unit {0})
validate_file_set manifest = do
  or_invalid (validate_manifest manifest) invalid_manifest
  require (length manifest == length fixed_file_names) invalid_manifest
  require (all (λ name. any (λ (f : FileManifest). f.name == name) manifest) fixed_file_names)
      invalid_manifest

-- The loop of `assertGenerationContents`.
unfoldable pub check_contents :
    World → Text → List (Text × Node) → List (Text × Node) → Checked (Unit {0})
check_contents w generation files [] = ok tt
check_contents w generation files ((name, node) ∷ rest) = do
  require (member name (manifest_file_name ∷ fixed_file_names)) invalid_manifest
  _ ← read_regular_file w generation name (lookup name files)
  check_contents w generation files rest

unfoldable pub assert_generation_contents : World → Text → List (Text × Node) → Checked (Unit {0})
assert_generation_contents w generation files = do
  call w (read_entry generation)
  require (length files == 6) invalid_manifest
  check_contents w generation files files

-- The first loop of `sameStringSet`: the names in lower case, unless one comes twice.
unfoldable pub string_set : List Text → List Text → Option (List Text)
string_set seen [] = some seen
string_set seen (name ∷ names) =
    let rest = string_set (to_lower name ∷ seen) names in
    if member (to_lower name) seen then none else rest

unfoldable pub same_string_set : List Text → List Text → Bool
same_string_set left right = length left == length right && elim (string_set [] left) [
  | none ↦ false
  | some set ↦ all (λ name. member (to_lower name) set) right
]

-- The keys of a set, as the code collects them.
unfoldable pub distinct : List Text → List Text
distinct [] = []
distinct (name ∷ names) =
    let rest = distinct names in if member name rest then rest else name ∷ rest

module _ {Certificate Key : Type 0} (crypto : Crypto Certificate Key)
    (formats : Formats Certificate) where
  abbrev pub only : List Certificate → Checked Certificate
  only (certificate ∷ []) = ok certificate
  only _ = err invalid_certificate

  unfoldable pub first_certificate : Text → Checked Certificate
  first_certificate content = do
    certificates ← or_invalid (parse_certificates crypto content) invalid_certificate
    only certificates

  unfoldable pub certificate_sans : Certificate → List Text
  certificate_sans c =
      order_by text_before (distinct (map to_lower (formats.dns_names c) ++ formats.ip_addresses c))

  unfoldable pub certificate_fingerprint : Certificate → Text
  certificate_fingerprint c = crypto.sha256_hex (crypto.raw c)

  -- The manifest, and whether it has the older form of a list of files.
  unfoldable pub decode_trimmed : Text → Checked (GenerationManifest × Bool)
  decode_trimmed [] = err invalid_manifest
  decode_trimmed (c ∷ s) =
      if c == b'['
      then elim (formats.decode_files (c ∷ s)) [
        | none ↦ err invalid_manifest
        | some files ↦
            validate_file_set files
            >> ok (
              record {
                generation = [];
                revision = 0;
                domain = [];
                sans = [];
                serial = [];
                fingerprint = [];
                files = files;
              },
              true,
            )
      ]
      else elim (formats.decode_manifest (c ∷ s)) [
        | none ↦ err invalid_manifest
        | some m ↦ ok (m, false)
      ]

  unfoldable pub decode_generation_manifest : Text → Checked (GenerationManifest × Bool)
  decode_generation_manifest content = decode_trimmed (trim_space content)

  -- The loop of `loadGeneration` over the files: their contents.
  unfoldable pub read_files :
      World → Text → List (Text × Node) → List FileManifest → Checked (List (Text × Text))
  read_files w generation files [] = ok []
  read_files w generation files (item ∷ items) = do
    content ← read_regular_file w generation item.name (lookup item.name files)
    require (beq_ℤ item.size (pos (length content)) && item.sha256 == crypto.sha256_hex content)
        invalid_manifest
    rest ← read_files w generation files items
    ok ((item.name, content) ∷ rest)

  -- `files[name]`, empty where it is missing.
  abbrev pub content_of : Text → List (Text × Text) → Text
  content_of name contents = elim (lookup name contents) [ none ↦ [] | some content ↦ content ]

  -- An older manifest is completed from the certificate.
  unfoldable pub completed :
      Text → Text → Bool → List (Text × Text) → GenerationManifest → Checked GenerationManifest
  completed domain generation false contents m = ok m
  completed domain generation true contents m = do
    leaf ← or_invalid (first_certificate (content_of file_cert contents)) invalid_manifest
    ok (record m {
      generation = generation;
      domain = domain;
      revision = 1;
      sans = certificate_sans leaf;
      serial = formats.serial leaf;
      fingerprint = certificate_fingerprint leaf;
    })

  unfoldable pub validate_generation_manifest :
      Text → Text → GenerationManifest → List (Text × Text) → Checked (Unit {0})
  validate_generation_manifest domain generation m contents = do
    require (is_empty generation || m.generation == generation) invalid_manifest
    or_invalid (validate_generation m.generation) invalid_manifest
    or_invalid (validate_revision m.revision) invalid_manifest
    safe ← normalize_domain domain
    manifest_domain ← or_invalid (normalize_domain m.domain) invalid_manifest
    require (manifest_domain == safe) invalid_manifest
    or_invalid (validate_file_set m.files) invalid_manifest
    leaf ← or_invalid (first_certificate (content_of file_cert contents)) invalid_manifest
    require (m.serial == formats.serial leaf) invalid_manifest
    require (m.fingerprint == certificate_fingerprint leaf) invalid_manifest
    require (same_string_set m.sans (certificate_sans leaf)) invalid_manifest

  -- What is loaded of a generation whose directory holds `files`.
  unfoldable pub load_generation :
      World → Text → Text → List (Text × Node) → Checked (GenerationManifest × List (Text × Text))
  load_generation w domain generation files = do
    assert_generation_contents w generation files
    content ← read_regular_file w generation manifest_file_name (lookup manifest_file_name files)
    (decoded, legacy) ← decode_generation_manifest content
    contents ← read_files w generation files decoded.files
    m ← completed domain generation legacy contents decoded
    validate_generation_manifest domain generation m contents
    ok (m, contents)
