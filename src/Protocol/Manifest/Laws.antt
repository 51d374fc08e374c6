-- ===== src/Protocol/Manifest/Laws.antt =====
-- The accepted manifests: valid files, each name at most once.
use cert_keeper.Prelude.{
  Text, true, false, ◌||◌, nat_eq, text_eq, text_beq, ok, length, is_empty, List, [], ◌∷◌, map, ◌≡◌,
  ◌≢◌, ◌↔◌, refl, ◌⊎◌, inl, inr, ◌≤◌, suc, All, all_iff, arith, text_beq_iff, ap,
}
use cert_keeper.Prelude.Int.{is_negative}
use cert_keeper.Prelude.Distinct.{Distinct, member, Distinct-length-le}
use cert_keeper.Protocol.Identifiers.{is_path_traversal, is_dots}
use cert_keeper.Protocol.Manifest.{
  FileManifest, file_cert, file_key, file_fullchain, file_ca, file_time_log, fixed_file_names,
  is_fixed_file_name, validate_file_name, is_lower_hex, is_lower_hex_byte, validate_file,
  validate_files, validate_manifest,
}

-- One of the five names, a size that is not negative, and a digest of 64 lower-case hex digits.
pub record IsFile (f : FileManifest) : Type 0 where
  pub fixed : member f.name fixed_file_names ≡ true
  pub sized : is_negative f.size ≡ false
  pub digest_length : length f.sha256 ≡ 64
  pub digest_bytes : All (λ c. is_lower_hex_byte c ≡ true) f.sha256

fixed_cases :
    (name : Text)
    → is_fixed_file_name name ≡ true
    → (name ≡ file_cert)
      ⊎ (name ≡ file_key)
      ⊎ (name ≡ file_fullchain)
      ⊎ (name ≡ file_ca)
      ⊎ (name ≡ file_time_log)
unfolding is_fixed_file_name
fixed_cases name h = ground (
  arith,
  text_beq_iff name file_cert,
  text_beq_iff name file_key,
  text_beq_iff name file_fullchain,
  text_beq_iff name file_ca,
  text_beq_iff name file_time_log,
)

-- No fixed name is empty, leaves its directory or names one.
fixed_is_plain :
    (name : Text)
    → is_fixed_file_name name ≡ true
    → (is_empty name ≡ false) × ((is_path_traversal name || is_dots name) ≡ false)
unfolding is_path_traversal text_beq
fixed_is_plain name h = elim (fixed_cases name h) [
  | inl e ↦ rw e (refl, refl)
  | inr (inl e) ↦ rw e (refl, refl)
  | inr (inr (inl e)) ↦ rw e (refl, refl)
  | inr (inr (inr (inl e))) ↦ rw e (refl, refl)
  | inr (inr (inr (inr e))) ↦ rw e (refl, refl)
]

pub validate_file_name_iff :
    (name : Text) → (validate_file_name name ≡ ok tt) ↔ (is_fixed_file_name name ≡ true)
unfolding validate_file_name
validate_file_name_iff name = ground (arith, fixed_is_plain name)

pub validate_file_iff : (f : FileManifest) → (validate_file f ≡ ok tt) ↔ IsFile f
unfolding validate_file is_fixed_file_name is_lower_hex
validate_file_iff f = (
  λ h. ground (arith, fixed_is_plain f.name, all_iff is_lower_hex_byte f.sha256),
  λ h. ground (arith, fixed_is_plain f.name, all_iff is_lower_hex_byte f.sha256),
)

abbrev pub names : List FileManifest → List Text
names m = map (λ (f : FileManifest). f.name) m

-- The names that were met before are not met again.
abbrev AllNew : List Text → List Text → Type 0
AllNew seen ns = All (λ n. member n seen ≡ false) ns

AllNew-nil : (ns : List Text) → AllNew [] ns
AllNew-nil [] = tt
AllNew-nil (n ∷ ns) = (refl, AllNew-nil ns)

AllNew-cons :
    (n : Text) (seen ns : List Text) → AllNew (n ∷ seen) ns ↔ (All (λ m. n ≢ m) ns × AllNew seen ns)
AllNew-cons n seen [] = ground arith
AllNew-cons n seen (m ∷ ns) = ground (arith, text_beq_iff m n, AllNew-cons n seen ns)

validate_files_iff :
    (seen : List Text) (m : List FileManifest)
    → (validate_files seen m ≡ ok tt) ↔ (All IsFile m × Distinct (names m) × AllNew seen (names m))
unfolding validate_files
validate_files_iff seen [] = ground arith
validate_files_iff seen (f ∷ m) = ground (
  arith,
  validate_file_iff f,
  validate_files_iff (f.name ∷ seen) m,
  AllNew-cons f.name seen (names m),
)

-- A manifest is accepted exactly if each of its files is valid and no name occurs twice.
pub validate_manifest_iff :
    (m : List FileManifest) → (validate_manifest m ≡ ok tt) ↔ (All IsFile m × Distinct (names m))
unfolding validate_manifest
validate_manifest_iff m = (
  λ h. let (files, distinct, _) = (validate_files_iff [] m).0 h in (files, distinct),
  λ (files, distinct). (validate_files_iff [] m).1 (files, distinct, AllNew-nil (names m)),
)

names-fixed :
    (m : List FileManifest) → All IsFile m → All (λ n. member n fixed_file_names ≡ true) (names m)
names-fixed [] h = tt
names-fixed (f ∷ m) h = (h.0.fixed, names-fixed m h.1)

length-names : (m : List FileManifest) → length (names m) ≡ length m
length-names [] = refl
length-names (f ∷ m) = ap suc (length-names m)

-- An accepted manifest lists at most the five fixed files.
pub validate_manifest-length : (m : List FileManifest) → validate_manifest m ≡ ok tt → length m ≤ 5
validate_manifest-length m h =
    let (files, distinct) = (validate_manifest_iff m).0 h in
    omega (
      arith,
      length-names m,
      Distinct-length-le (names m) fixed_file_names distinct (names-fixed m files),
    )
