-- ===== src/Certstore/Read.antt =====
-- internal/certstore/certstore.go: what the store reads: the paths of a domain, the generation that
-- `current` names, and the revision of the next generation.
use cert_keeper.Prelude.{
  ℕ, suc, ◌^◌, ◌-◌, ltb, Text, ◌==◌, nat_eq, text_eq, Option, none, some, ok, err, ◌>>=◌, ◌>>◌,
  refuse, List, [], ◌∷◌, if◌then◌else◌,
}
use cert_keeper.Prelude.Trim.{trim_space}
use cert_keeper.Protocol.Manifest.{validate_file_name}
use cert_keeper.Client.Tree.{Node}
use cert_keeper.Client.Read.{lookup, managed_target, release_target}
use cert_keeper.Client.Certificate.{Crypto}
use cert_keeper.Certstore.{
  StoreFailure, not_found, unsafe_path, invalid_file, invalid_manifest, Checked, Entry, symlink,
  Folder, Pointer, absent, link, regular, special, DomainDir, Call, stat_root, stat_domain,
  stat_releases, stat_legacy, stat_current, read_current, read_releases, read_legacy, stat_entry,
  random, make_link, rename_link, stat_legacy_entry, World, call, is_not_found, is_temporary,
  assert_folder, open_entry, entries_of, validate_generation, normalize_domain,
}
use cert_keeper.Certstore.Manifest.{Formats, GenerationManifest, load_generation, or_invalid}

-- What follows an `assertDirectory` that may find nothing.
abbrev pub or_else_missing {ℓ κ} :
    {A : Type ℓ} {B : Type κ} → Checked A → (A → Checked B) → (StoreFailure → Checked B) → Checked B
or_else_missing (ok a) found otherwise = found a
or_else_missing (err e) found otherwise = if is_not_found e then otherwise e else err e

-- `domainPaths` without creation: the name of the domain's directory.
unfoldable pub domain_paths : World → Text → DomainDir → Checked Text
domain_paths w domain d = do
  safe ← normalize_domain domain
  call w stat_root
  call w stat_domain
  or_else_missing (call w stat_releases >> assert_folder d.releases) (λ _. ok safe)
      (λ _. call w stat_legacy >> assert_folder d.legacy >>= λ _. ok safe)

-- `readCurrentLink`.
abbrev pub or_unsafe : Option Text → Checked Text
or_unsafe none = err unsafe_path
or_unsafe (some generation) = ok generation

unfoldable pub read_current_link : World → Text → Checked Text
read_current_link w target = do
  call w read_current
  generation ← or_unsafe (managed_target target)
  validate_generation generation
  ok generation

-- `captureCurrent`, after its `Lstat`.
unfoldable pub captured : World → Pointer → Checked Pointer
captured w absent = ok absent
captured w special = err unsafe_path
captured w (link target) = do
  generation ← read_current_link w target
  ok (link (release_target generation))
captured w (regular content) = do
  call w read_current
  validate_generation (trim_space content)
  ok (regular content)

unfoldable pub capture_current : World → DomainDir → Checked Pointer
capture_current w d = do call w stat_current; captured w d.current

-- The target of `writeCurrent`.
unfoldable pub check_target : World → Text → DomainDir → Checked (Unit {0})
check_target w generation d = do
  _ ← open_entry w stat_entry generation (entries_of d.releases)
  ok tt

-- `writeCurrent` up to the call that puts the link in the place of `current`: what is there before.
unfoldable pub prepare_link : World → Text → DomainDir → Checked Pointer
prepare_link w generation d = do
  validate_generation generation
  check_target w generation d
  snapshot ← capture_current w d
  call w random
  call w make_link
  call w rename_link
  ok snapshot

-- A generation's directory, in `releases` or in the older place.
pub data Place : Type 0 where
  in_releases in_legacy : Place

abbrev pub or_error {ℓ} : {A : Type ℓ} → Checked A → StoreFailure → Checked A
or_error (ok a) e = ok a
or_error (err _) e = err e

unfoldable pub find_generation : World → Text → DomainDir → Checked (Place × List (Text × Node))
find_generation w generation d =
    or_else_missing (open_entry w stat_entry generation (entries_of d.releases))
      (λ files. ok (in_releases, files))
      (λ e. do
        files ← or_error (open_entry w stat_legacy_entry generation (entries_of d.legacy)) e
        ok (in_legacy, files))

module _ {Certificate Key : Type 0} (crypto : Crypto Certificate Key)
    (formats : Formats Certificate) (w : World) where
  -- `currentState` without the migration of an older `current`. `safe` is the directory's name.
  unfoldable pub named_state : Text → Pointer → DomainDir → Checked (Text × Place)
  named_state safe absent d = err not_found
  named_state safe special d = err unsafe_path
  named_state safe (link target) d = do
    generation ← read_current_link w target
    files ← open_entry w stat_entry generation (entries_of d.releases)
    _ ← load_generation crypto formats w safe generation files
    ok (generation, in_releases)
  named_state safe (regular content) d = do
    call w read_current
    validate_generation (trim_space content)
    (place, files) ← find_generation w (trim_space content) d
    _ ← load_generation crypto formats w safe (trim_space content) files
    ok (trim_space content, place)

  unfoldable pub current_state : Text → DomainDir → Checked (Text × Place)
  current_state safe d = do call w stat_current; named_state safe d.current d

  -- `GetCurrent`.
  unfoldable pub get_current : Text → DomainDir → Checked Text
  get_current domain d = do
    safe ← domain_paths w domain d
    (generation, _) ← current_state safe d
    ok generation

  -- `LoadGenerationManifest` and `ReadFile` of a generation that is given.
  unfoldable pub load_given :
      Text → Text → DomainDir → Checked (GenerationManifest × List (Text × Text))
  load_given domain generation d = do
    validate_generation generation
    _ ← domain_paths w domain d
    (_, files) ← find_generation w generation d
    load_generation crypto formats w domain generation files

  unfoldable pub read_file_given : Text → Text → Text → DomainDir → Checked (Option Text)
  read_file_given domain generation name d = do
    or_invalid (validate_file_name name) invalid_file
    (_, contents) ← load_given domain generation d
    ok (lookup name contents)

  -- The revision of an entry, 0 where the entry is no generation.
  unfoldable pub entry_revision :
      Text → (Text → Call) → List (Text × Entry) → Text → Entry → Checked ℕ
  entry_revision domain stat entries name symlink = err unsafe_path
  entry_revision domain stat entries name entry =
      if is_temporary name then ok 0 else elim (validate_generation name) [
        | err _ ↦ ok 0
        | ok u ↦ do
          files ← open_entry w stat name entries
          (m, _) ← load_generation crypto formats w domain name files
          ok m.revision
      ]

  -- The loop of `nextRevision` over one directory: the greatest revision so far and in it.
  unfoldable pub greatest_revision :
      Text → (Text → Call) → List (Text × Entry) → List (Text × Entry) → ℕ → Checked ℕ
  greatest_revision domain stat entries [] greatest = ok greatest
  greatest_revision domain stat entries ((name, entry) ∷ rest) greatest = do
    revision ← entry_revision domain stat entries name entry
    greatest_revision domain stat entries rest
        (if ltb greatest revision then revision else greatest)

  unfoldable pub scan_folder : Text → (Text → Call) → Call → Call → Folder → ℕ → Checked ℕ
  scan_folder domain stat stat_folder list f greatest =
      or_else_missing (call w stat_folder >> assert_folder f)
        (λ entries. call w list >> greatest_revision domain stat entries entries greatest)
        (λ _. ok greatest)

  unfoldable pub next_revision : Text → DomainDir → Checked ℕ
  next_revision domain d = do
    released ← scan_folder domain stat_entry stat_releases read_releases d.releases 0
    greatest ← scan_folder domain stat_legacy_entry stat_legacy read_legacy d.legacy released
    refuse (greatest == 2 ^ 64 - 1) invalid_manifest
    ok (suc greatest)
