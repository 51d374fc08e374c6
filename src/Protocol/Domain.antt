-- ===== src/Protocol/Domain.antt =====
-- pkg/certproto/contract.go: domain names. internal/store/tokens.go checks the same labels.
pub mod Laws
use mathlib.Core.List.{reverse}
use cert_keeper.Prelude.{
  ℕ, Text, Bool, true, false, ◌&&◌, ◌||◌, ◌==◌, nat_eq, text_eq, ◌>>=◌, ◌>>◌, require, refuse, ltb,
  leb, length, all, any, not, is_empty, contains_byte, split, is_padded, to_lower, List, [], ◌∷◌,
  ◌+◌, ◌*◌, ◌-◌, if◌then◌else◌,
}
use cert_keeper.Protocol.Errors.{Check, invalid_domain}

abbrev pub max_domain_length : ℕ
max_domain_length = 253

abbrev pub is_digit : ℕ → Bool
is_digit c = leb b'0' c && leb c b'9'

-- One field of a dotted decimal address: one to three digits, no leading zero, at most 255.
abbrev decimal : ℕ → Text → ℕ
decimal acc [] = acc
decimal acc (c ∷ s) = decimal (acc * 10 + (c - b'0')) s

abbrev is_octet : Text → Bool
is_octet [] = false
is_octet (c ∷ []) = is_digit c
is_octet (c ∷ d ∷ s) =
    all is_digit (c ∷ d ∷ s)
    && not (c == b'0')
    && leb (length s) 1
    && leb (decimal 0 (c ∷ d ∷ s)) 255

abbrev is_quad : List Text → Bool
is_quad (a ∷ b ∷ c ∷ d ∷ []) = is_octet a && is_octet b && is_octet c && is_octet d
is_quad _ = false

-- `net.ParseIP(s) != nil` for a text with no ':'. The forms with ':' are left out: such a text is
-- refused with the same error by the test of the labels.
unfoldable pub is_ip : Text → Bool
is_ip s = is_quad (split b'.' s)

abbrev pub is_label_byte : ℕ → Bool
is_label_byte c = (leb b'a' c && leb c b'z') || is_digit c || c == b'-'

abbrev pub first_is : ℕ → Text → Bool
first_is b [] = false
first_is b (c ∷ s) = c == b

-- One round of the loop over the labels passes.
unfoldable pub is_label : Text → Bool
is_label label =
    not (
      is_empty label
      || ltb 63 (length label)
      || first_is b'-' label
      || first_is b'-' (reverse label))
    && all is_label_byte label

unfoldable pub validate_domain : Text → Check
validate_domain domain = do
  refuse (is_empty domain) invalid_domain
  refuse
      (ltb max_domain_length (length domain)
        || not (domain == to_lower domain)
        || is_padded domain
        || contains_byte b'*' domain
        || any (λ c. c == b'/' || c == b'\\') domain
        || is_ip domain
        || not (contains_byte b'.' domain))
      invalid_domain
  require (all is_label (split b'.' domain)) invalid_domain
