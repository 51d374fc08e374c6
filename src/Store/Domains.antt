-- ===== src/Store/Domains.antt =====
-- internal/store/tokens.go: the domains that the store accepts.
pub mod Laws
use cert_keeper.Prelude.{
  ℕ, Text, Bool, not, ◌&&◌, ◌||◌, ◌==◌, nat_eq, text_eq, ltb, length, all, is_empty, is_padded,
  to_lower, contains_byte, split, List, [], ◌∷◌, if◌then◌else◌,
}
use cert_keeper.Protocol.Domain.{is_ip, is_label}

-- `strings.HasPrefix(s, "*.")` and `strings.TrimPrefix(s, "*.")`.
abbrev pub without_wildcard : Text → Text
without_wildcard [] = []
without_wildcard (c ∷ []) = c ∷ []
without_wildcard (c ∷ d ∷ s) = if c == b'*' && d == b'.' then s else c ∷ d ∷ s

-- True where `validateCertificateDomain` returns nil; it has one error, "invalid domain".
unfoldable pub is_certificate_domain : Text → Bool
is_certificate_domain domain =
    not (
      is_empty domain
      || not (domain == to_lower domain)
      || is_padded domain
      || ltb 253 (length domain))
    && not (
        is_empty (without_wildcard domain)
        || contains_byte b'*' domain
        || is_ip (without_wildcard domain)
        || not (contains_byte b'.' (without_wildcard domain)))
    && all is_label (split b'.' (without_wildcard domain))
