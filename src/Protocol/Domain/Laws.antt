-- ===== src/Protocol/Domain/Laws.antt =====
-- The accepted domain names, described by their labels.
use mathlib.Core.List.{reverse, reverse-append, reverse-reverse, reverse-cons}
use cert_keeper.Prelude.{
  ℕ, Text, true, false, ◌||◌, ◌==◌, nat_eq, text_eq, ok, length, all, any, contains_byte, split,
  join, to_lower, List, [], ◌∷◌, ◌++◌, ◌≡◌, ◌≢◌, ◌↔◌, refl, ap, sym, ◌∙◌, ◌≤◌, All, all_iff,
  all_mono, any_of_all-not, arith, text_beq_iff, is_empty_iff, leb, ltb,
}
use cert_keeper.Prelude.Splits.{join-split, split-join}
use cert_keeper.Prelude.TextLaws.{
  contains-split, split-all, is_plain, to_lower_of_plain, is_padded_of_plain,
}
use cert_keeper.Protocol.Domain.{
  is_label, is_label_byte, first_is, is_quad, is_ip, validate_domain, max_domain_length,
}

-- A label of a host name: 1 to 63 lower-case letters, digits and hyphens, no hyphen at either end.
pub record IsLabel (label : Text) : Type 0 where
  pub not_empty : 1 ≤ length label
  pub fits : length label ≤ 63
  pub bytes : All (λ c. is_label_byte c ≡ true) label
  pub no_first : (s : Text) → label ≢ b'-' ∷ s
  pub no_last : (s : Text) → label ≢ s ++ b'-' ∷ []

first_is_iff : (b : ℕ) (s : Text) → (first_is b s ≡ false) ↔ ((r : Text) → s ≢ b ∷ r)
first_is_iff b [] = (λ h r e. cc, λ h. refl)
first_is_iff b (c ∷ s) = (λ h r e. ground arith, λ h. ground (arith, h s))

last_is_iff : (b : ℕ) (s : Text) → (first_is b (reverse s) ≡ false) ↔ ((r : Text) → s ≢ r ++ b ∷ [])
last_is_iff b s = (
  λ h r e. (first_is_iff b (reverse s)).0 h (reverse r) (rw e (reverse-append r (b ∷ []))),
  λ h.
      (first_is_iff b (reverse s)).1
        (λ r e. h (reverse r) (sym (reverse-reverse s) ∙ ap reverse e ∙ reverse-cons b r)),
)

pub is_label_iff : (label : Text) → (is_label label ≡ true) ↔ IsLabel label
unfolding is_label
is_label_iff label = (
  λ h. record {
    not_empty = ground (arith, is_empty_iff label);
    fits = ground arith;
    bytes = ground (arith, all_iff is_label_byte label);
    no_first = (first_is_iff b'-' label).0 (ground arith);
    no_last = (last_is_iff b'-' label).0 (ground arith);
  },
  λ h. ground (
    arith,
    is_empty_iff label,
    all_iff is_label_byte label,
    (first_is_iff b'-' label).1 h.no_first,
    (last_is_iff b'-' label).1 h.no_last,
  ),
)

-- A name of two labels or more, at most 253 bytes long, that is no IPv4 address.
pub record IsDomainName (domain : Text) : Type 0 where
  pub labels : List Text
  pub joined : domain ≡ join b'.' labels
  pub many : 2 ≤ length labels
  pub valid : All IsLabel labels
  pub fits : length domain ≤ max_domain_length
  pub not_address : is_quad labels ≡ false

-- Bytes of labels and dots are plain.
is_plain_of_label_byte : (c : ℕ) → (is_label_byte c || c == b'.') ≡ true → is_plain c ≡ true
is_plain_of_label_byte c h = ground arith

is_label-bytes : (label : Text) → is_label label ≡ true → all is_label_byte label ≡ true
unfolding is_label
is_label-bytes label h = ground arith

All-is_label-bytes :
    (parts : List Text)
    → all is_label parts ≡ true
    → All (λ part. all is_label_byte part ≡ true) parts
All-is_label-bytes [] h = tt
All-is_label-bytes (part ∷ parts) h = ground (arith, is_label-bytes part, All-is_label-bytes parts)

module _ (domain : Text) (labels : all is_label (split b'.' domain) ≡ true) where
  name_bytes : all (λ c. is_label_byte c || c == b'.') domain ≡ true
  name_bytes = split-all is_label_byte b'.' domain (All-is_label-bytes _ labels)

  pub plain_bytes : all is_plain domain ≡ true
  plain_bytes = all_mono _ is_plain domain is_plain_of_label_byte name_bytes

  pub no_star : contains_byte b'*' domain ≡ false
  no_star = any_of_all-not _ _ domain (λ c h. ground arith) name_bytes

  no_separator : any (λ c. c == b'/' || c == b'\\') domain ≡ false
  no_separator = any_of_all-not _ _ domain (λ c h. ground arith) name_bytes

-- The tests before the loop over the labels that the loop does not make superfluous.
pub validate_domain_short :
    (domain : Text)
    → (validate_domain domain ≡ ok tt) ↔ (
        (leb (length domain) 253 ≡ true)
        × (is_ip domain ≡ false)
        × (ltb 1 (length (split b'.' domain)) ≡ true)
        × (all is_label (split b'.' domain) ≡ true))
unfolding validate_domain
validate_domain_short domain = (
  λ h. ground (arith, contains-split b'.' domain),
  λ (fits, no_ip, many, labels). ground (
    arith,
    contains-split b'.' domain,
    no_star domain labels,
    no_separator domain labels,
    is_padded_of_plain domain (plain_bytes domain labels),
    to_lower_of_plain domain (plain_bytes domain labels),
    text_beq_iff domain (to_lower domain),
    is_empty_iff domain,
  ),
)

IsLabel-no_dot : (label : Text) → IsLabel label → contains_byte b'.' label ≡ false
IsLabel-no_dot label l =
    any_of_all-not is_label_byte _ label (λ c h. ground arith) ((all_iff _ label).1 l.bytes)

All-IsLabel : (labels : List Text) → (all is_label labels ≡ true) ↔ All IsLabel labels
All-IsLabel [] = (λ _. tt, λ _. refl)
All-IsLabel (l ∷ ls) = (
  λ h. ground (arith, is_label_iff l, (All-IsLabel ls).0),
  λ (v, vs). ground (arith, (is_label_iff l).1 v, (All-IsLabel ls).1 vs),
)

All-no_dot :
    (labels : List Text) → All IsLabel labels → All (λ p. contains_byte b'.' p ≡ false) labels
All-no_dot [] h = tt
All-no_dot (l ∷ ls) (v, vs) = (IsLabel-no_dot l v, All-no_dot ls vs)

split_of_labels :
    (labels : List Text)
    → 2 ≤ length labels
    → All IsLabel labels
    → split b'.' (join b'.' labels) ≡ labels
split_of_labels [] many valid = absurd (omega arith)
split_of_labels (l ∷ ls) many valid = split-join b'.' l ls (All-no_dot (l ∷ ls) valid)

-- A domain is accepted exactly if it is a name of lower-case labels, at least two, within 253
-- bytes and no IPv4 address.
pub validate_domain_iff : (domain : Text) → (validate_domain domain ≡ ok tt) ↔ IsDomainName domain
unfolding is_ip
validate_domain_iff domain = (
  λ h.
      let (fits, no_ip, many, labels) = (validate_domain_short domain).0 h in
      record {
        labels = split b'.' domain;
        joined = sym (join-split b'.' domain);
        many = ground arith;
        valid = (All-IsLabel _).0 labels;
        fits = ground arith;
        not_address = no_ip;
      },
  λ n.
      let e : split b'.' domain ≡ n.labels =
        ap (split b'.') n.joined ∙ split_of_labels n.labels n.many n.valid in
      (validate_domain_short domain).1 (
        ground (arith, n.fits),
        ap is_quad e ∙ n.not_address,
        rw e (ground (arith, n.many)),
        rw e ((All-IsLabel _).1 n.valid),
      ),
)
