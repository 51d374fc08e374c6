-- ===== src/Service/Domains.antt =====
-- The domains of the requests are those of the protocol.
use cert_keeper.Prelude.{
  Text, true, nat_eq, text_eq, ok, to_lower, ◌≡◌, ◌↔◌, arith, text_beq_iff, is_empty_iff,
}
use cert_keeper.Prelude.TextLaws.{contains-split, to_lower_of_plain, is_padded_of_plain}
use cert_keeper.Protocol.Domain.{validate_domain}
use cert_keeper.Protocol.Domain.Laws.{validate_domain_short, plain_bytes, no_star}
use cert_keeper.Service.{v2_validate_domain}

pub v2_validate_domain_iff :
    (d : Text) → (v2_validate_domain d ≡ true) ↔ (validate_domain d ≡ ok tt)
unfolding v2_validate_domain
v2_validate_domain_iff d = (
  λ h. (validate_domain_short d).1 (ground (arith, contains-split b'.' d)),
  λ h.
      let (fits, no_ip, many, labels) = (validate_domain_short d).0 h in
      ground (
        arith,
        contains-split b'.' d,
        no_star d labels,
        is_padded_of_plain d (plain_bytes d labels),
        to_lower_of_plain d (plain_bytes d labels),
        text_beq_iff d (to_lower d),
        is_empty_iff d,
        fits,
        no_ip,
        many,
        labels,
      ),
)
