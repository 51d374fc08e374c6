-- ===== src/Client/Read.antt =====
-- internal/client/deploy.go: what a deployment reads of its directory: the generation that `current`
-- names, and whether its release is whole.
use cert_keeper.Prelude.{
  Text, Bool, not, ◌&&◌, ◌||◌, ◌==◌, nat_eq, text_eq, Option, none, some, ok, err, require, length,
  is_empty, any, all, codes, List, [], ◌∷◌, ◌++◌, split, if◌then◌else◌, ◌>>◌,
}
use cert_keeper.Prelude.Trim.{trim_space}
use cert_keeper.Protocol.Errors.{Check}
use cert_keeper.Protocol.Identifiers.{validate_generation_id, is_dots}
use cert_keeper.Protocol.Manifest.{fixed_file_names, is_fixed_file_name}
use cert_keeper.Client.Tree.{
  Node, file, not_regular, Release, directory, not_directory, Current, absent, link, regular,
  special, Tree, Step, stat_current, read_link, read_current, stat_release, read_release,
  read_release_file, World, invalid, system, bad_current, bad_release, Checked,
}

abbrev pub call : World → Step → Checked (Unit {0})
call w step = elim (w.fails step) [ none ↦ ok tt | some e ↦ err (system step e) ]

abbrev pub or_invalid : Check → Checked (Unit {0})
or_invalid (ok u) = ok tt
or_invalid (err e) = err (invalid e)

abbrev pub lookup {ℓ} : {A : Type ℓ} → Text → List (Text × A) → Option A
lookup name [] = none
lookup name ((key, a) ∷ rest) =
    let later = lookup name rest in if key == name then some a else later

-- `filepath.Join("releases", string(generation))`.
unfoldable pub release_target : Text → Text
release_target generation = codes "releases/" ++ generation

-- The base of a clean relative target in `releases`: the target is of two parts then, and neither
-- is empty or made of dots.
abbrev pub base_of : List Text → Option Text
base_of (dir ∷ base ∷ []) =
    if dir == codes "releases" && not (is_empty base || is_dots base) then some base else none
base_of _ = none

unfoldable pub managed_target : Text → Option Text
managed_target target = base_of (split b'/' target)

unfoldable pub generation_of_target : Text → Checked (Option Text)
generation_of_target target = elim (managed_target target) [
  | none ↦ err bad_current
  | some generation ↦ or_invalid (validate_generation_id generation) >> ok (some generation)
]

unfoldable pub read_named : World → Current → Checked (Option Text)
read_named w absent = ok none
read_named w special = err bad_current
read_named w (link target) = elim (w.fails read_link) [
  | none ↦ generation_of_target target
  | some e ↦ err bad_current
]
read_named w (regular content) =
    call w read_current
    >> or_invalid (validate_generation_id (trim_space content))
    >> ok (some (trim_space content))

unfoldable pub read_deployment_current : World → Tree → Checked (Option Text)
read_deployment_current w t = call w stat_current >> read_named w t.current

-- The loop of `assertSafeRelease` over the entries.
unfoldable pub check_entries : World → List (Text × Node) → Checked (Unit {0})
check_entries w [] = ok tt
check_entries w ((name, not_regular) ∷ rest) = err bad_release
check_entries w ((name, file content) ∷ rest) =
    require (is_fixed_file_name name) bad_release
    >> call w (read_release_file name)
    >> check_entries w rest

unfoldable pub has_all_files : List (Text × Node) → Bool
has_all_files entries = all (λ name. any (λ entry. entry.0 == name) entries) fixed_file_names

unfoldable pub check_release : World → Option Release → Checked (Unit {0})
check_release w none = err bad_release
check_release w (some not_directory) = err bad_release
check_release w (some (directory entries)) =
    call w read_release
    >> require (length entries == length fixed_file_names) bad_release
    >> check_entries w entries
    >> require (has_all_files entries) bad_release

unfoldable pub assert_safe_release : World → Tree → Text → Checked (Unit {0})
assert_safe_release w t generation =
    call w stat_release >> check_release w (lookup generation t.releases)
