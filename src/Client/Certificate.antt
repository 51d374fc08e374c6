-- ===== src/Client/Certificate.antt =====
-- internal/client/deploy.go: the checks of the files of a certificate before they are published.
pub mod Laws
use cert_keeper.Prelude.{
  ℕ, zero, suc, Text, Bool, true, false, not, ◌||◌, ◌==◌, nat_eq, text_eq, Option, none, some, ok,
  err, Result, ◌>>=◌, ◌>>◌, refuse, require, ltb, leb, length, is_empty, any, codes, List, [], ◌∷◌,
  ◌++◌, if◌then◌else◌,
}
use cert_keeper.Prelude.Trim.{trim_space}
use cert_keeper.Protocol.Manifest.{file_cert, file_key, file_fullchain, file_ca}
use cert_keeper.Client.Tree.{
  Failure, bad_pem, bad_certificate, expired, wrong_key, no_name, not_covered, Checked,
}

pub record Block : Type 0 where
  pub type : Text
  pub bytes : Text

-- The packages crypto/sha256, encoding/pem and crypto/x509, over their certificates and keys.
-- Instants are Unix seconds.
pub record Crypto (Certificate Key : Type 0) : Type 0 where
  pub sha256_hex : Text → Text
  pub pem_decode : Text → Option (Block × Text)
  pub parse_certificate : Text → Result Text Certificate
  pub parse_pkcs8 : Text → Result Text Key
  pub parse_pkcs1 : Text → Result Text Key
  pub parse_ec : Text → Result Text Key
  pub is_signer : Key → Bool
  pub signer_public : Key → Result Text Text
  pub raw : Certificate → Text
  pub public_key : Certificate → Result Text Text
  pub not_before : Certificate → ℕ
  pub not_after : Certificate → ℕ
  pub verify_hostname : Certificate → Text → Option Text

-- The error of another package, as a failure.
abbrev pub or_fail {ℓ} : {A : Type ℓ} → Result Text A → Checked A
or_fail (ok a) = ok a
or_fail (err e) = err (bad_certificate e)

module _ {Certificate Key : Type 0} (crypto : Crypto Certificate Key) where
  -- A block before those of the rest.
  abbrev pub after_block : Block → Option (Checked (List Block)) → Option (Checked (List Block))
  after_block block none = none
  after_block block (some (err e)) = some (err e)
  after_block block (some (ok blocks)) = some (ok (block ∷ blocks))

  -- The loop of `decodePEMBlocks`; the fuel bounds its turns, and `none` is out of fuel.
  unfoldable pub decode_remaining : ℕ → Text → Option (Checked (List Block))
  decode_remaining fuel [] = some (ok [])
  decode_remaining zero (c ∷ s) = none
  decode_remaining (suc fuel) (c ∷ s) = elim (crypto.pem_decode (c ∷ s)) [
    | none ↦ some (err bad_pem)
    | some (block, rest) ↦ after_block block (decode_remaining fuel (trim_space rest))
  ]

  -- The fuel is enough (decode_remaining-ends), so that no text is refused for want of it.
  abbrev pub decoded : Option (Checked (List Block)) → Checked (List Block)
  decoded none = err bad_pem
  decoded (some r) = r

  unfoldable pub decode_pem_blocks : Text → Checked (List Block)
  decode_pem_blocks data_ = do
    refuse (is_empty (trim_space data_)) bad_pem
    decoded (decode_remaining (length (trim_space data_)) (trim_space data_))

  unfoldable pub parse_blocks : List Block → Checked (List Certificate)
  parse_blocks [] = ok []
  parse_blocks (block ∷ blocks) = do
    require (block.type == codes "CERTIFICATE") bad_pem
    certificate ← or_fail (crypto.parse_certificate block.bytes)
    rest ← parse_blocks blocks
    ok (certificate ∷ rest)

  unfoldable pub parse_certificates : Text → Checked (List Certificate)
  parse_certificates content = do blocks ← decode_pem_blocks content; parse_blocks blocks

  unfoldable pub parse_key_block : Block → Checked Key
  parse_key_block block =
      if block.type == codes "PRIVATE KEY"
      then or_fail (crypto.parse_pkcs8 block.bytes)
      else if block.type == codes "RSA PRIVATE KEY"
      then or_fail (crypto.parse_pkcs1 block.bytes)
      else if block.type == codes "EC PRIVATE KEY"
      then or_fail (crypto.parse_ec block.bytes)
      else err bad_pem

  abbrev pub only {ℓ} : {A : Type ℓ} → List A → Failure → Checked A
  only (a ∷ []) e = ok a
  only _ e = err e

  unfoldable pub parse_private_key : Text → Checked Key
  parse_private_key content = do
    blocks ← decode_pem_blocks content
    block ← only blocks bad_pem
    key ← parse_key_block block
    require (crypto.is_signer key) wrong_key
    ok key

  -- `fullchain[0]`; a file that was decoded has a block.
  abbrev first : List Certificate → Checked Certificate
  first [] = err bad_pem
  first (certificate ∷ _) = ok certificate

  abbrev pub is_out_of_time : ℕ → Certificate → Bool
  is_out_of_time now c = ltb now (crypto.not_before c) || not (ltb now (crypto.not_after c))

  unfoldable pub check_names : Certificate → List Text → Checked (Unit {0})
  check_names leaf [] = ok tt
  check_names leaf (name ∷ names) = do
    refuse (is_empty name) no_name
    elim (crypto.verify_hostname leaf name) [ none ↦ ok tt | some e ↦ err (not_covered name e) ]
    check_names leaf names

  unfoldable pub check_pair : Certificate → Key → Checked (Unit {0})
  check_pair leaf key = do
    certificate_public ← or_fail (crypto.public_key leaf)
    private_public ← or_fail (crypto.signer_public key)
    require (certificate_public == private_public) wrong_key

  -- `validateStagedCertificate`; `read` is `readRegularFile` in the staging directory.
  unfoldable pub validate_staged_certificate :
      (Text → Checked Text) → Text → List Text → ℕ → Checked (Unit {0})
  validate_staged_certificate read domain san now = do
    cert_content ← read file_cert
    certificates ← parse_certificates cert_content
    leaf ← only certificates bad_pem
    fullchain_content ← read file_fullchain
    fullchain ← parse_certificates fullchain_content
    head ← first fullchain
    require (crypto.raw leaf == crypto.raw head) wrong_key
    ca_content ← read file_ca
    cas ← parse_certificates ca_content
    refuse (any (is_out_of_time now) (certificates ++ fullchain ++ cas)) expired
    key_content ← read file_key
    key ← parse_private_key key_content
    check_pair leaf key
    check_names leaf (domain ∷ san)
