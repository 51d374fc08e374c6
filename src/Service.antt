-- ===== src/Service.antt =====
-- internal/service/v2.go: the requests of the protocol, over the store's tables.
pub mod Reconcile
pub mod Domains
pub mod Read
pub mod Report
pub mod Execute
mod Tests
use cert_keeper.Prelude.{
  ℕ, Text, Bool, true, false, not, ◌&&◌, ◌||◌, ◌==◌, nat_eq, text_eq, Option, none, some, Result,
  ok, err, ltb, length, all, any, is_empty, is_padded, to_lower, contains_byte, split, codes, List,
  [], ◌∷◌, if◌then◌else◌, ◌>>=◌,
}
use cert_keeper.Protocol.Domain.{is_ip, is_label}
use cert_keeper.Protocol.Identifiers.{is_control}
use cert_keeper.Store.Schema.{Db, StoreError}
use cert_keeper.Store.Grants.{TokenGrant, has_certificate_permission}
use cert_keeper.Store.Reports.{Reports}
use cert_keeper.Store.Audit.{Events}
use cert_keeper.Store.Jobs.Values.{null_string}

-- The fields of a certificate's configuration that the requests read.
pub record Preset : Type 0 where
  pub challenge_mode : Text
  pub dns_provider : Option Text

-- The tables, with the configuration of each domain in `certs`.
pub record State : Type 0 where
  pub db : Db
  pub presets : List (Text × Preset)
  pub grants : List TokenGrant
  pub reports : Reports
  pub events : Events

-- `ValidationError`, `PermissionError`, an `ErrorResponse` with the code not_found, an error of the
-- store, and an error of the certificate files.
pub data ServiceError : Type 0 where
  validation permission not_found files : ServiceError
  store : StoreError → ServiceError

abbrev pub Serving : Type 0 → Type 0
Serving A = State × Result ServiceError A

abbrev pub from_store {ℓ} : {A : Type ℓ} → Result StoreError A → Result ServiceError A
from_store (ok a) = ok a
from_store (err e) = err (store e)

-- True where `v2ValidateDomain` returns nil; it has two errors, both of validation.
unfoldable pub v2_validate_domain : Text → Bool
v2_validate_domain domain =
    not (
      is_empty domain
      || not (domain == to_lower domain)
      || is_padded domain
      || ltb 253 (length domain)
      || contains_byte b'*' domain
      || is_ip domain
      || not (contains_byte b'.' domain))
    && all is_label (split b'.' domain)

-- A control rune is one byte, and no byte of a longer rune is a control byte.
abbrev pub v2_has_control : Text → Bool
v2_has_control value = any is_control value

-- `nullable`.
abbrev pub nullable : Text → Option Text
nullable s = null_string s

abbrev pub allowed : Result StoreError Bool → Result ServiceError (Unit {0})
allowed (err e) = err (store e)
allowed (ok true) = ok tt
allowed (ok false) = err permission

unfoldable pub require_v2_permission :
    List TokenGrant → Text → Text → Text → Result ServiceError (Unit {0})
require_v2_permission grants token_id domain permission_name =
    allowed (has_certificate_permission grants token_id domain permission_name)
