-- ===== src/Store/Grants.antt =====
-- internal/store/tokens.go: the permissions of a token on the certificate of a domain.
pub mod Laws
use cert_keeper.Prelude.{
  ℕ, Text, Bool, true, false, not, ◌&&◌, ◌||◌, ◌==◌, text_eq, Result, ok, err, ltb, is_blank, any,
  filter, codes, List, [], ◌∷◌, ◌++◌, if◌then◌else◌,
}
use cert_keeper.Store.Sql.{text_before, order_by}
use cert_keeper.Store.Schema.{Db, StoreError, invalid_argument, foreign_key}
use cert_keeper.Store.Domains.{is_certificate_domain}
use cert_keeper.Store.Jobs.Values.{member_text}

-- A row of token_certificate_grants.
pub record TokenGrant : Type 0 where
  pub token_id : Text
  pub domain : Text
  pub permission : Text
  pub created_at : ℕ

abbrev pub valid_certificate_permissions : List Text
valid_certificate_permissions =
    codes "apply"
    ∷ codes "status"
    ∷ codes "read_cert"
    ∷ codes "read_private_key"
    ∷ codes "force"
    ∷ []

unfoldable pub is_permission : Text → Bool
is_permission permission = member_text permission valid_certificate_permissions

-- `token_id=? AND domain=? AND permission=?`, the primary key.
abbrev pub is_grant_of : Text → Text → Text → TokenGrant → Bool
is_grant_of token_id domain permission g =
    g.token_id == token_id && g.domain == domain && g.permission == permission

-- The table after an operation, and its result.
abbrev pub Granting : Type 0 → Type 0
Granting A = List TokenGrant × Result StoreError A

-- `INSERT ... ON CONFLICT DO NOTHING`.
unfoldable pub insert_grant : Db → List TokenGrant → TokenGrant → Granting (Unit {0})
insert_grant db grants g =
    if any (is_grant_of g.token_id g.domain g.permission) grants
    then (grants, ok tt)
    else if member_text g.token_id db.tokens && member_text g.domain db.certs
    then (grants ++ g ∷ [], ok tt)
    else (grants, err foreign_key)

abbrev pub is_grantable : Text → Text → Text → Bool
is_grantable token_id domain permission =
    is_certificate_domain domain && is_permission permission && not (is_blank token_id)

unfoldable pub grant : Db → ℕ → List TokenGrant → Text → Text → Text → Granting (Unit {0})
grant db now grants token_id domain permission =
    if is_grantable token_id domain permission
    then insert_grant db grants
        (record { token_id = token_id; domain = domain; permission = permission; created_at = now })
    else (grants, err invalid_argument)

unfoldable pub revoke : List TokenGrant → Text → Text → Text → Granting (Unit {0})
revoke grants token_id domain permission =
    if is_certificate_domain domain && is_permission permission
    then (filter (λ g. not (is_grant_of token_id domain permission g)) grants, ok tt)
    else (grants, err invalid_argument)

-- `ORDER BY domain, permission`.
abbrev pub grant_before : TokenGrant → TokenGrant → Bool
grant_before g h =
    text_before g.domain h.domain || (g.domain == h.domain && text_before g.permission h.permission)

unfoldable pub list_grants : List TokenGrant → Text → List TokenGrant
list_grants grants token_id = order_by grant_before (filter (λ g. g.token_id == token_id) grants)

unfoldable pub has_certificate_permission :
    List TokenGrant → Text → Text → Text → Result StoreError Bool
has_certificate_permission grants token_id domain permission =
    if is_certificate_domain domain && is_permission permission
    then ok (not (is_blank token_id) && any (is_grant_of token_id domain permission) grants)
    else err invalid_argument
