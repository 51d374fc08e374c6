-- ===== src/Protocol/Manifest.antt =====
-- pkg/certproto/protocol.go: the fixed file names and the manifest of a certificate's files.
pub mod Laws
use cert_keeper.Prelude.{
  ℕ, Text, Bool, ◌&&◌, ◌||◌, ◌==◌, nat_eq, text_eq, ok, ◌>>=◌, ◌>>◌, require, refuse, leb, length,
  all, any, not, codes, is_empty, List, [], ◌∷◌, Option, none, some, Result, err,
}
use cert_keeper.Prelude.Int.{ℤ, is_negative}
use cert_keeper.Protocol.Codec.{Codec}
use cert_keeper.Protocol.Errors.{
  Check, ErrorCode, path_traversal, invalid_file_name, unknown_file, duplicate_file,
  invalid_manifest,
}
use cert_keeper.Protocol.Identifiers.{is_path_traversal, is_dots}

abbrev pub file_cert : Text
file_cert = codes "cert.pem"

abbrev pub file_key : Text
file_key = codes "key.pem"

abbrev pub file_fullchain : Text
file_fullchain = codes "fullchain.pem"

abbrev pub file_ca : Text
file_ca = codes "ca.pem"

abbrev pub file_time_log : Text
file_time_log = codes "time.log"

abbrev pub fixed_file_names : List Text
fixed_file_names = file_cert ∷ file_key ∷ file_fullchain ∷ file_ca ∷ file_time_log ∷ []

unfoldable pub is_fixed_file_name : Text → Bool
is_fixed_file_name name = any (λ fixed. name == fixed) fixed_file_names

unfoldable pub validate_file_name : Text → Check
validate_file_name name = do
  refuse (is_empty name) invalid_file_name
  refuse (is_path_traversal name || is_dots name) path_traversal
  require (is_fixed_file_name name) unknown_file

abbrev pub is_lower_hex_byte : ℕ → Bool
is_lower_hex_byte c = (leb b'0' c && leb c b'9') || (leb b'a' c && leb c b'f')

unfoldable pub is_lower_hex : Text → Bool
is_lower_hex value = all is_lower_hex_byte value

pub record FileManifest : Type 0 where
  pub name : Text
  pub size : ℤ  -- int64
  pub sha256 : Text

-- `hex.DecodedLen(len(s)) != 32` adds nothing to `len(s) != 64`.
unfoldable pub validate_file : FileManifest → Check
unfolding validate_file_name
validate_file f = do
  validate_file_name f.name
  refuse (is_negative f.size) invalid_manifest
  require (length f.sha256 == 64 && is_lower_hex f.sha256) invalid_manifest

-- The loop of `CertificateManifest.Validate`; `seen` holds the names met so far.
unfoldable pub validate_files : List Text → List FileManifest → Check
validate_files seen [] = ok tt
validate_files seen (file ∷ rest) = do
  validate_file file
  refuse (any (λ name. file.name == name) seen) duplicate_file
  validate_files (file.name ∷ seen) rest

unfoldable pub validate_manifest : List FileManifest → Check
unfolding validate_files
validate_manifest m = validate_files [] m

-- `json.Unmarshal`, its error handed on without a code of the protocol.
abbrev decode_json : {Wire A : Type 0} → Codec Wire A → Wire → Result (Option ErrorCode) A
decode_json codec w = elim (codec.decode w) [ none ↦ err none | some a ↦ ok a ]

-- The error of a check, as the methods of the codec return it.
abbrev with_code : Check → Result (Option ErrorCode) (Unit {0})
with_code (ok u) = ok tt
with_code (err e) = err (some e)

module _ {Wire : Type 0} (codec : Codec Wire FileManifest) where
  unfoldable pub unmarshal_file : Wire → Result (Option ErrorCode) FileManifest
  unmarshal_file bytes = do
    decoded ← decode_json codec bytes
    with_code (validate_file decoded)
    ok decoded

  unfoldable pub marshal_file : FileManifest → Result ErrorCode Wire
  marshal_file f = do validate_file f; ok (codec.encode f)

module _ {Wire : Type 0} (codec : Codec Wire (List FileManifest)) where
  unfoldable pub marshal_manifest : List FileManifest → Result ErrorCode Wire
  marshal_manifest m = do validate_manifest m; ok (codec.encode m)
