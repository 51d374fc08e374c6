-- ===== src/Certstore/Tests.antt =====
-- A small store: publications, collections, and instances of the theorems on them.
use cert_keeper.Prelude.{
  ℕ, Text, Bool, true, false, Option, none, some, Result, ok, err, List, [], ◌∷◌, ◌++◌, map, length,
  ◌≡◌, ◌≢◌, refl, codes, arith,
}
use cert_keeper.Prelude.Int.{pos}
use cert_keeper.Protocol.Manifest.{
  FileManifest, file_cert, file_key, file_fullchain, file_ca, file_time_log, fixed_file_names,
}
use cert_keeper.Client.Tree.{file}
use cert_keeper.Client.Certificate.{Crypto, Block}
use cert_keeper.Client.Read.{lookup, release_target}
use cert_keeper.Certstore.{
  StoreFailure, Entry, directory, Folder, folder, missing, Pointer, absent, link, DomainDir, World,
  Call, restore_current, sync_domain, system, Checked, call,
}
use cert_keeper.Certstore.Entries.{released}
use cert_keeper.Certstore.Manifest.{Formats, GenerationManifest}
use cert_keeper.Certstore.Read
use cert_keeper.Certstore.Build.{Staged, prepare}
use cert_keeper.Certstore.Publish.{publish}
use cert_keeper.Certstore.Publish.Laws.{publish-Stays}
use cert_keeper.Certstore.Publish.Switch.{publish-Restores, Restores}
use cert_keeper.Certstore.Publish.Success.{publish-IsPublished, OnSuccess, IsPublished}
use cert_keeper.Certstore.Collect.{GcOptions, Candidate, plan_collection, garbage_collect}
use cert_keeper.Certstore.Collect.Current.{collect-current_state}

abbrev domain : Text
domain = codes "a.example.com"

abbrev digest : Text
digest = codes "aaaaaaaaaaaaaaaaaaaaaaaaaaaaaaaaaaaaaaaaaaaaaaaaaaaaaaaaaaaaaaaa"

-- A block of one byte is a certificate.
abbrev one_block : Text → Option (Block × Text)
one_block [] = none
one_block (c ∷ rest) = some (record { type = codes "CERTIFICATE"; bytes = c ∷ [] }, rest)

abbrev toy : Crypto Text Text
toy = record {
  sha256_hex = λ _. digest;
  pem_decode = one_block;
  parse_certificate = λ bytes. ok bytes;
  parse_pkcs8 = λ bytes. ok bytes;
  parse_pkcs1 = λ bytes. err [];
  parse_ec = λ bytes. err [];
  is_signer = λ _. true;
  signer_public = λ _. ok [];
  raw = λ c. c;
  public_key = λ _. ok [];
  not_before = λ _. 0;
  not_after = λ _. 100;
  verify_hostname = λ _ _. none;
}

abbrev item : Text → FileManifest
item name = record { name = name; size = pos 1; sha256 = digest }

-- A manifest is written as its generation, whose length is the revision.
abbrev manifest_of : Text → GenerationManifest
manifest_of generation = record {
  generation = generation;
  revision = length generation;
  domain = domain;
  sans = codes "a" ∷ [];
  serial = codes "1";
  fingerprint = digest;
  files = map item fixed_file_names;
}

abbrev formats : Formats Text
formats = record {
  encode_manifest = λ m. m.generation;
  decode_manifest = λ content. some (manifest_of content);
  decode_files = λ content. none;
  serial = λ c. codes "1";
  dns_names = λ c. codes "A" ∷ [];
  ip_addresses = λ c. [];
}

abbrev contents : List (Text × Text)
contents = map (λ (name : Text). (name, codes "C")) fixed_file_names

abbrev generation : Text → Text × Entry
generation id = (
  id,
  directory (
      map (λ (name : Text). (name, file (codes "C"))) fixed_file_names
      ++ (codes "manifest.json", file id) ∷ []),
)

-- The revisions 1 to 3, of which the second is current.
abbrev store : DomainDir
store = record {
  current = link (codes "releases/gg");
  releases =
      folder (generation (codes "g") ∷ generation (codes "gg") ∷ generation (codes "ggg") ∷ []);
  legacy = missing;
}

abbrev sync_only : Call → Option StoreFailure
sync_only sync_domain = some (system (codes "EIO"))
sync_only _ = none

abbrev failing : Call → Option StoreFailure
failing sync_domain = some (system (codes "EIO"))
failing restore_current = some (system (codes "EIO"))
failing _ = none

abbrev map_first : Checked (Text × GenerationManifest) → Checked (Text × ℕ)
map_first (ok (g, m)) = ok (g, m.revision)
map_first (err e) = err e

abbrev world : World
world = record {
  fails = λ _. none;
  left = λ _. Entry.other;
  drawn = codes "gg" ∷ codes "gggg" ∷ [];
  temporary = codes ".tmp-1";
}

abbrev options : GcOptions
options = record {
  keep_recent = pos 1;
  report_references = [];
  deployment_references = [];
  deployment_reports = [] ∷ [];
  protected_generations = [];
  protected = [];
}

abbrev staged : Staged
staged = record { files = ok contents; verified = ok tt }

certstore : Unit {0}
unfolding cert_keeper.Certstore.open_entry cert_keeper.Certstore.validate_generation
    cert_keeper.Certstore.is_safe_label cert_keeper.Certstore.normalize_domain
    cert_keeper.Certstore.Manifest.read_regular_file
    cert_keeper.Certstore.Manifest.validate_file_set cert_keeper.Certstore.Manifest.check_contents
    cert_keeper.Certstore.Manifest.assert_generation_contents
    cert_keeper.Certstore.Manifest.string_set cert_keeper.Certstore.Manifest.same_string_set
    cert_keeper.Certstore.Manifest.distinct cert_keeper.Certstore.Manifest.first_certificate
    cert_keeper.Certstore.Manifest.certificate_sans
    cert_keeper.Certstore.Manifest.certificate_fingerprint
    cert_keeper.Certstore.Manifest.decode_trimmed
    cert_keeper.Certstore.Manifest.decode_generation_manifest
    cert_keeper.Certstore.Manifest.read_files cert_keeper.Certstore.Manifest.completed
    cert_keeper.Certstore.Manifest.validate_generation_manifest
    cert_keeper.Certstore.Manifest.load_generation cert_keeper.Certstore.Read.domain_paths
    cert_keeper.Certstore.Read.read_current_link cert_keeper.Certstore.Read.captured
    cert_keeper.Certstore.Read.capture_current cert_keeper.Certstore.Read.check_target
    cert_keeper.Certstore.Read.prepare_link cert_keeper.Certstore.Read.find_generation
    cert_keeper.Certstore.Read.named_state cert_keeper.Certstore.Read.current_state
    cert_keeper.Certstore.Read.entry_revision cert_keeper.Certstore.Read.greatest_revision
    cert_keeper.Certstore.Read.scan_folder cert_keeper.Certstore.Read.next_revision
    cert_keeper.Certstore.Current.with_current cert_keeper.Certstore.Current.sync_or_restore
    cert_keeper.Certstore.Current.write_current cert_keeper.Certstore.Build.make_domain_directory
    cert_keeper.Certstore.Build.new_generation_path cert_keeper.Certstore.Build.write_all
    cert_keeper.Certstore.Build.build_entries cert_keeper.Certstore.Build.build_manifest
    cert_keeper.Certstore.Build.build_generation_manifest cert_keeper.Certstore.Build.prepare
    cert_keeper.Certstore.Publish.with_releases cert_keeper.Certstore.Publish.make_domain_paths
    cert_keeper.Certstore.Publish.remove_all cert_keeper.Certstore.Publish.with_generation
    cert_keeper.Certstore.Publish.with_temporary cert_keeper.Certstore.Publish.finish
    cert_keeper.Certstore.Publish.install cert_keeper.Certstore.Publish.place
    cert_keeper.Certstore.Publish.place_new cert_keeper.Certstore.Publish.publish_files
    cert_keeper.Certstore.Publish.publish cert_keeper.Certstore.Collect.validate_all
    cert_keeper.Certstore.Collect.protected_by cert_keeper.Certstore.Collect.find_candidates
    cert_keeper.Certstore.Collect.sweep cert_keeper.Certstore.Collect.listed
    cert_keeper.Certstore.Collect.plan_collection cert_keeper.Certstore.Collect.collected
    cert_keeper.Certstore.Collect.garbage_collect cert_keeper.Client.Read.release_target
    cert_keeper.Client.Read.managed_target cert_keeper.Client.Certificate.decode_remaining
    cert_keeper.Client.Certificate.decode_pem_blocks cert_keeper.Client.Certificate.parse_blocks
    cert_keeper.Client.Certificate.parse_certificates
    cert_keeper.Protocol.Identifiers.validate_generation_id
    cert_keeper.Protocol.Identifiers.validate_path_segment
    cert_keeper.Protocol.Identifiers.is_path_traversal cert_keeper.Protocol.Identifiers.has_control
    cert_keeper.Protocol.Manifest.validate_manifest cert_keeper.Protocol.Manifest.validate_file
    cert_keeper.Protocol.Manifest.validate_file_name cert_keeper.Protocol.Manifest.validate_files
    cert_keeper.Protocol.Manifest.is_lower_hex cert_keeper.Protocol.Manifest.is_fixed_file_name
    cert_keeper.Prelude.text_beq cert_keeper.Prelude.split cert_keeper.Prelude.Trim.trim_space
    cert_keeper.Prelude.Trim.trim_left cert_keeper.Prelude.Trim.trim_right
    cert_keeper.Prelude.Trim.without_space cert_keeper.Prelude.space_last
    cert_keeper.Store.Sql.order_by cert_keeper.Prelude.is_padded cert_keeper.Prelude.space_first
    cert_keeper.Prelude.to_lower cert_keeper.Protocol.Identifiers.validate_revision
certstore = tt

abbrev after_publish : DomainDir × Checked (Text × GenerationManifest)
after_publish = publish toy formats world domain staged store

publish-id : map_first after_publish.1 ≡ ok (codes "gggg", 4)
unfolding certstore
publish-id = refl

publish-current : after_publish.0.current ≡ link (codes "releases/gggg")
unfolding certstore
publish-current = refl

-- The last sync fails, and then the restoration too: the generation is removed that `current` names.
abbrev twice_failing : World
twice_failing = record world { fails = λ c. failing c }

publish-dangling :
    ((publish toy formats twice_failing domain staged store).0.current
      ≡ link (codes "releases/gggg"))
    × (released (codes "gggg") (publish toy formats twice_failing domain staged store).0 ≡ none)
unfolding certstore
publish-dangling = (refl, refl)

-- The first generation is neither current nor among the kept.
abbrev after_collect : DomainDir
after_collect = (garbage_collect toy formats world domain options store).0

collect-first : released (codes "g") after_collect ≡ none
unfolding certstore
collect-first = refl

store-paths : Read.domain_paths world domain store ≡ ok domain
unfolding certstore
store-paths = refl

store-current :
    Read.current_state toy formats world domain store ≡ ok (codes "gg", Read.in_releases)
unfolding certstore
store-current = refl

collect-current_state_example :
    Read.current_state toy formats world domain after_collect ≡ ok (codes "gg", Read.in_releases)
collect-current_state_example =
    collect-current_state toy formats world domain options store domain (codes "gg")
      Read.in_releases store-paths store-current

publish-IsPublished_example :
    OnSuccess (IsPublished toy formats world domain staged store) after_publish
publish-IsPublished_example = publish-IsPublished toy formats world domain staged store

abbrev failing_sync : World
failing_sync = record world { fails = λ c. sync_only c }

publish-Restores_example : Restores store (publish toy formats failing_sync domain staged store)
publish-Restores_example = publish-Restores toy formats failing_sync domain staged store refl

not_temporary : codes "gg" ≢ codes ".tmp-1"
not_temporary = λ h. cc

store-released : released (codes "gg") store ≡ some (generation (codes "gg")).1
unfolding certstore
store-released = refl

publish-Stays_example : released (codes "gg") after_publish.0 ≡ some (generation (codes "gg")).1
publish-Stays_example =
    publish-Stays toy formats world domain staged (codes "gg") (generation (codes "gg")).1 store
      not_temporary store-released
