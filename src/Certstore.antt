-- ===== src/Certstore.antt =====
-- internal/certstore/certstore.go: the directory of a domain in the certificate store, what the
-- system calls on it return, and the checks of its names.
pub mod Manifest
pub mod Entries
pub mod Read
pub mod Current
pub mod Build
pub mod Publish
pub mod Collect
mod Tests
use cert_keeper.Prelude.{
  ℕ, Text, Bool, true, false, not, ◌&&◌, ◌||◌, ◌==◌, nat_eq, text_eq, Option, none, some, Result,
  ok, err, ◌>>=◌, ◌>>◌, refuse, require, ltb, leb, length, all, is_empty, is_padded, to_lower,
  split, codes, List, [], ◌∷◌, ◌++◌, filter,
}
use cert_keeper.Prelude.Steps.{Steps}
use cert_keeper.Protocol.Errors.{Check}
use cert_keeper.Protocol.Identifiers.{validate_generation_id}
use cert_keeper.Client.Tree.{Node}
use cert_keeper.Client.Read.{lookup}

-- `system` is any error that the package does not name.
pub data StoreFailure : Type 0 where
  not_found unsafe_path invalid_domain invalid_generation invalid_file invalid_certificate
        invalid_manifest invalid_options is_current :
      StoreFailure
  system : Text → StoreFailure

abbrev pub Checked {ℓ} : Type ℓ → Type ℓ
Checked A = Result StoreFailure A

-- An entry of a directory of generations: a directory with its entries, a symbolic link, or
-- anything else.
pub data Entry : Type 0 where
  directory : List (Text × Node) → Entry
  symlink other : Entry

-- A path that should be a directory: it is missing, no directory (or a link), or one with entries.
pub data Folder : Type 0 where
  missing unsafe : Folder
  folder : List (Text × Entry) → Folder

-- The path `current`: a symbolic link with its target, a regular file with its content, or neither.
pub data Pointer : Type 0 where
  absent : Pointer
  link : Text → Pointer
  regular : Text → Pointer
  special : Pointer

-- The directory of a domain: `current`, `releases` and the older `generations`.
pub record DomainDir : Type 0 where
  pub current : Pointer
  pub releases : Folder
  pub legacy : Folder

-- The system calls whose failure an operation meets; calls of the same kind on the same path
-- return the same during one operation.
pub data Call : Type 0 where
  stat_root stat_domain stat_releases stat_legacy stat_current read_current random : Call
  make_domain make_releases : Call
  read_releases read_legacy sync_releases sync_domain : Call
  stat_entry stat_legacy_entry read_entry remove_entry : Text → Call
  read_file : Text → Text → Call
  make_temporary chmod_temporary sync_temporary rename_temporary : Call
  write_file : Text → Call
  make_link rename_link restore_current sync_restored : Call

-- What the calls return, where `none` is success; what a removal that fails leaves of an entry; the
-- ids that `newGenerationID` draws, and the name of the temporary directory.
pub record World : Type 0 where
  pub fails : Call → Option StoreFailure
  pub left : Text → Entry
  pub drawn : List Text
  pub temporary : Text

abbrev pub Storing {ℓ} : Type ℓ → Type ℓ
Storing A = Steps DomainDir StoreFailure A

abbrev pub answer : Option StoreFailure → Checked (Unit {0})
answer none = ok tt
answer (some e) = err e

abbrev pub call : World → Call → Checked (Unit {0})
call w c = answer (w.fails c)

-- `errors.Is(err, ErrNotFound)`.
abbrev pub is_not_found : StoreFailure → Bool
is_not_found not_found = true
is_not_found _ = false

-- `assertDirectory`, after its `Lstat`.
abbrev pub assert_folder : Folder → Checked (List (Text × Entry))
assert_folder missing = err not_found
assert_folder unsafe = err unsafe_path
assert_folder (folder entries) = ok entries

abbrev pub assert_entry : Option Entry → Checked (List (Text × Node))
assert_entry none = err not_found
assert_entry (some symlink) = err unsafe_path
assert_entry (some other) = err unsafe_path
assert_entry (some (directory files)) = ok files

-- `assertDirectory` of an entry of a directory.
unfoldable pub open_entry :
    World → (Text → Call) → Text → List (Text × Entry) → Checked (List (Text × Node))
open_entry w stat name entries = do call w (stat name); assert_entry (lookup name entries)

-- The entries of a directory; a path that is none has none.
abbrev pub entries_of : Folder → List (Text × Entry)
entries_of (folder entries) = entries
entries_of _ = []

abbrev pub on_folder : (List (Text × Entry) → List (Text × Entry)) → Folder → Folder
on_folder f (folder entries) = folder (f entries)
on_folder f missing = missing
on_folder f unsafe = unsafe

abbrev pub without_entry : Text → List (Text × Entry) → List (Text × Entry)
without_entry name entries = filter (λ (e : Text × Entry). not (e.0 == name)) entries

abbrev pub with_entry : Text → Entry → List (Text × Entry) → List (Text × Entry)
with_entry name entry entries = (name, entry) ∷ without_entry name entries

unfoldable pub validate_generation : Text → Checked (Unit {0})
validate_generation id = elim (validate_generation_id id) [
  | ok u ↦ ok tt
  | err e ↦ err invalid_generation
]

abbrev pub is_label_byte : ℕ → Bool
is_label_byte c = (leb b'a' c && leb c b'z') || (leb b'0' c && leb c b'9') || c == b'-'

abbrev pub starts_with_dash : Text → Bool
starts_with_dash [] = false
starts_with_dash (c ∷ s) = c == b'-'

abbrev pub ends_with_dash : Text → Bool
ends_with_dash [] = false
ends_with_dash (c ∷ []) = c == b'-'
ends_with_dash (c ∷ d ∷ s) = ends_with_dash (d ∷ s)

unfoldable pub is_safe_label : Text → Bool
is_safe_label label =
    not (is_empty label || ltb 63 (length label) || starts_with_dash label || ends_with_dash label)
    && all is_label_byte label

unfoldable pub normalize_domain : Text → Checked Text
normalize_domain domain = do
  refuse (is_empty domain || is_padded domain || ltb 253 (length domain)) invalid_domain
  require (all is_safe_label (split b'.' (to_lower domain))) invalid_domain
  ok (to_lower domain)

-- `strings.HasPrefix(name, ".tmp-")`.
abbrev pub is_temporary : Text → Bool
is_temporary (a ∷ b ∷ c ∷ d ∷ e ∷ rest) = (a ∷ b ∷ c ∷ d ∷ e ∷ []) == codes ".tmp-"
is_temporary _ = false
