-- ===== src/Service/Read/Laws.antt =====
-- What a token may read.
use cert_keeper.Prelude.{
  Text, List, Bool, true, false, text_eq, ◌==◌, ok, ◌≡◌, ◌≢◌, ◌⊎◌, inl, inr, >>-eq-ok, require,
  refuse, codes, Bool-cases, text_beq_iff,
}
use cert_keeper.Protocol.Identifiers.{failed}
use cert_keeper.Protocol.Manifest.{validate_file_name, file_key}
use cert_keeper.Store.Grants.{has_certificate_permission, TokenGrant}
use cert_keeper.Service
use cert_keeper.Service.Reconcile.Laws.{require_v2-ok}
use cert_keeper.Service.Read

-- The token has, on the domain, the permission to read the private key if the file is key.pem, and
-- the permission to read the certificate if it is another.
abbrev pub MayRead : List TokenGrant → Text → Text → Text → Type 0
MayRead grants token domain name =
    ((name ≡ codes "key.pem")
      × (has_certificate_permission grants token domain (codes "read_private_key") ≡ ok true))
    ⊎ ((name ≢ codes "key.pem")
        × (has_certificate_permission grants token domain (codes "read_cert") ≡ ok true))

file-MayRead :
    (grants : List TokenGrant) (t d name : Text)
    → has_certificate_permission grants t d (Read.permission_of_file name) ≡ ok true
    → MayRead grants t d name
file-MayRead grants t d name h = elim (Bool-cases (name == file_key)) [
  | inl key ↦ inl ((text_beq_iff name file_key).0 key, rw key at h)
  | inr fails ↦
      inr (λ same. absurd (differs fails ((text_beq_iff name file_key).1 same)), rw fails at h)
]
  where
    differs : {b : Bool} → b ≡ false → b ≡ true → ⊥
    differs f t = cc

module _ {Status : Type 0} (repository : Read.Repository Status) where
  -- If ReadGenerationFileV2 returns a content, then the token has the permission that the file
  -- needs (read_private_key for key.pem, read_cert for any other), and the content is what the
  -- repository has under that name.
  pub read_file-permitted :
      (s : Service.State) (t d generation name : Text) {content : Text}
      → Read.read_generation_file_v2 repository s t d generation name ≡ ok content
      → MayRead s.grants t d name × (repository.read_file d generation name ≡ ok content)
  unfolding Read.read_generation_file_v2
  read_file-permitted s t d generation name h =
      let (e1, h1) = >>-eq-ok (require (Service.v2_validate_domain d) _) _ h in
      let (e2, h2) = >>-eq-ok (refuse (failed (validate_file_name name)) _) _ h1 in
      let (e3, h3) = >>-eq-ok (Read.check_generation generation) _ h2 in
      let (e4, h4) =
        >>-eq-ok (Service.require_v2_permission s.grants t d (Read.permission_of_file name)) _ h3 in
      (
        file-MayRead s.grants t d name
            (require_v2-ok s.grants t d (Read.permission_of_file name) e4),
        h4,
      )
