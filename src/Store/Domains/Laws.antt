-- ===== src/Store/Domains/Laws.antt =====
-- The domains of the store are those of the protocol.
use cert_keeper.Prelude.{
  Text, true, false, nat_eq, text_eq, ok, contains_byte, to_lower, [], ◌∷◌, ◌≡◌, ◌↔◌, refl, arith,
  text_beq_iff, is_empty_iff,
}
use cert_keeper.Prelude.TextLaws.{contains-split, to_lower_of_plain, is_padded_of_plain}
use cert_keeper.Protocol.Domain.{validate_domain}
use cert_keeper.Protocol.Domain.Laws.{validate_domain_short, plain_bytes, no_star}
use cert_keeper.Store.Domains.{without_wildcard, is_certificate_domain}

without_wildcard_of_no_star : (d : Text) → contains_byte b'*' d ≡ false → without_wildcard d ≡ d
without_wildcard_of_no_star [] h = refl
without_wildcard_of_no_star (c ∷ []) h = refl
without_wildcard_of_no_star (c ∷ e ∷ s) h = ground arith

-- The store accepts a domain exactly if the protocol does.
pub is_certificate_domain_iff :
    (d : Text) → (is_certificate_domain d ≡ true) ↔ (validate_domain d ≡ ok tt)
unfolding is_certificate_domain
is_certificate_domain_iff d = (
  λ h.
      (validate_domain_short d).1
        (ground (arith, without_wildcard_of_no_star d, contains-split b'.' d)),
  λ h.
      let (fits, no_ip, many, labels) = (validate_domain_short d).0 h in
      rw (without_wildcard_of_no_star d (no_star d labels)) (
        ground (
          arith,
          contains-split b'.' d,
          no_star d labels,
          is_padded_of_plain d (plain_bytes d labels),
          to_lower_of_plain d (plain_bytes d labels),
          text_beq_iff d (to_lower d),
          is_empty_iff d,
          fits,
          no_ip,
          many,
          labels,
        )),
)
