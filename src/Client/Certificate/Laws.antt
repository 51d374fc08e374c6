-- ===== src/Client/Certificate/Laws.antt =====
-- What the checks of the files of a certificate accept, and that the loop over PEM blocks ends.
use cert_keeper.Prelude.{
  ℕ, zero, suc, ◌≤◌, ◌<◌, Text, Bool, false, not, ◌||◌, ltb, ◌==◌, text_eq, Option, none, some,
  Result, ok, err, List, [], ◌∷◌, ◌++◌, ◌≡◌, refl, Option-cases, inl, inr, arith, ap, sym, ◌∙◌, All,
  length, >>=-eq-ok, >>-eq-ok, any, require, refuse, text_beq_iff, require-eq-ok, refuse-eq-ok,
}
use cert_keeper.Prelude.Trim.{trim_space}
use cert_keeper.Prelude.Trim.Laws.{trim_space-length}
use cert_keeper.Protocol.Manifest.{file_cert, file_key, file_fullchain, file_ca}
use cert_keeper.Client.Tree.{Failure, bad_pem, wrong_key, expired, Checked}
use cert_keeper.Client.Certificate.{
  Crypto, Block, after_block, decode_remaining, check_names, check_pair, parse_certificates,
  parse_private_key, validate_staged_certificate, is_out_of_time, only, or_fail, first,
}
use mathlib.Core.Path.{subst}

in_time_of :
    (now start end : ℕ) (rest : Bool)
    → (ltb now start || not (ltb now end) || rest) ≡ false
    → (start ≤ now) × (now < end)
in_time_of now start end rest h = ground arith

module _ {Certificate Key : Type 0} (crypto : Crypto Certificate Key) where
  -- The loop returns, where the rest of a block leaves it fuel.
  after_block-ends :
      (block : Block) (o : Option (Checked (List Block)))
      → ((r : Checked (List Block)) × (o ≡ some r))
      → (r : Checked (List Block)) × (after_block crypto block o ≡ some r)
  after_block-ends block none (r, h) = absurd cc
  after_block-ends block (some (ok blocks)) h = (_, refl)
  after_block-ends block (some (err e)) h = (_, refl)

  enough-ends :
      ((s rest : Text) (block : Block)
        → crypto.pem_decode s ≡ some (block, rest)
        → length rest < length s)
      → (fuel : ℕ) (s : Text) → length s ≤ fuel
      → (r : Checked (List Block)) × (decode_remaining crypto fuel s ≡ some r)
  unfolding decode_remaining
  enough-ends shrinks fuel [] h = (_, refl)
  enough-ends shrinks zero (c ∷ s) h = absurd (ground arith)
  enough-ends shrinks (suc fuel) (c ∷ s) h = elim (Option-cases (crypto.pem_decode (c ∷ s))) [
    | inl fails ↦ rw (fails, decode_remaining) (_, refl)
    | inr ((block, rest), e) ↦
        rw (e, decode_remaining)
          (after_block-ends block (decode_remaining crypto fuel (trim_space rest)) (
            enough-ends shrinks fuel (trim_space rest)
              (small (length s) (trim_space-length rest) (shrinks (c ∷ s) rest block e) h)))
  ]
    where
      small : {a b fuel : ℕ} (n : ℕ) → a ≤ b → b < suc n → suc n ≤ suc fuel → a ≤ fuel
      small n p q r = ground arith

  -- If what remains after a PEM block is shorter than the text that it was decoded from, then the
  -- loop of decodePEMBlocks ends, with blocks or with an error, in no more turns than there are
  -- bytes.
  pub decode_remaining-ends :
      ((s rest : Text) (block : Block)
        → crypto.pem_decode s ≡ some (block, rest)
        → length rest < length s)
      → (s : Text) → (r : Checked (List Block)) × (decode_remaining crypto (length s) s ≡ some r)
  decode_remaining-ends shrinks s = enough-ends shrinks (length s) s (omega arith)

  abbrev pub Covers : Certificate → Text → Type 0
  Covers leaf name = (1 ≤ length name) × (crypto.verify_hostname leaf name ≡ none)

  check_names-All :
      (leaf : Certificate) (names : List Text)
      → check_names crypto leaf names ≡ ok tt
      → All (Covers leaf) names
  unfolding check_names
  check_names-All leaf [] h = tt
  check_names-All leaf (name ∷ names) h = ground (arith, check_names-All leaf names)

  -- A certificate that clients can be served with: the leaf is in time and covers the names, and the
  -- key is its own.
  pub record IsServable (read : Text → Checked Text) (names : List Text) (now : ℕ) : Type 0 where
    pub leaf : Certificate
    pub key : Key
    pub cert_content : Text
    pub key_content : Text
    pub cert_read : read file_cert ≡ ok cert_content
    pub leaf_only : parse_certificates crypto cert_content ≡ ok (leaf ∷ [])
    pub key_read : read file_key ≡ ok key_content
    pub key_parsed : parse_private_key crypto key_content ≡ ok key
    pub started : crypto.not_before leaf ≤ now
    pub not_ended : now < crypto.not_after leaf
    pub paired : crypto.public_key leaf ≡ crypto.signer_public key
    pub covered : All (Covers leaf) names

  only-ok : {A : Type 0} (xs : List A) (e : Failure) {a : A} → only crypto xs e ≡ ok a → xs ≡ a ∷ []
  only-ok [] e h = cc
  only-ok (x ∷ []) e h = cc
  only-ok (x ∷ y ∷ xs) e h = cc

  or_fail-ok : {A : Type 0} (r : Result Text A) {a : A} → or_fail r ≡ ok a → r ≡ ok a
  or_fail-ok (ok x) h = cc
  or_fail-ok (err e) h = cc

  check_pair-ok :
      (leaf : Certificate) (key : Key)
      → check_pair crypto leaf key ≡ ok tt
      → crypto.public_key leaf ≡ crypto.signer_public key
  unfolding check_pair
  check_pair-ok leaf key h =
      let (c, ce, h1) = >>=-eq-ok (or_fail (crypto.public_key leaf)) _ h in
      let (k, ke, h2) = >>=-eq-ok (or_fail (crypto.signer_public key)) _ h1 in
      or_fail-ok (crypto.public_key leaf) ce
      ∙ ap ok ((text_beq_iff c k).0 (require-eq-ok (c == k) wrong_key h2))
      ∙ sym (or_fail-ok (crypto.signer_public key) ke)

  in_time :
      (now : ℕ) (leaf : Certificate) (certificates chain more : List Certificate)
      → certificates ≡ leaf ∷ []
      → any (is_out_of_time crypto now) (certificates ++ chain ++ more) ≡ false
      → (crypto.not_before leaf ≤ now) × (now < crypto.not_after leaf)
  in_time now leaf certificates chain more e h =
      let h' = subst (λ cs. any (is_out_of_time crypto now) (cs ++ chain ++ more) ≡ false) e h in
      in_time_of now (crypto.not_before leaf) (crypto.not_after leaf) _ h'

  -- If validateStagedCertificate returns nil, then cert.pem holds one certificate, which is in its
  -- time, and is valid for the domain and for each further name, none of them empty, and key.pem
  -- holds one key, whose public part is the certificate's.
  pub validate-IsServable :
      (read : Text → Checked Text) (domain : Text) (san : List Text) (now : ℕ)
      → validate_staged_certificate crypto read domain san now ≡ ok tt
      → IsServable read (domain ∷ san) now
  unfolding validate_staged_certificate
  validate-IsServable read domain san now h =
      let (cert, e1, h1) = >>=-eq-ok (read file_cert) _ h in
      let (certificates, e2, h2) = >>=-eq-ok (parse_certificates crypto cert) _ h1 in
      let (leaf, e3, h3) = >>=-eq-ok (only crypto certificates bad_pem) _ h2 in
      let (chain, e4, h4) = >>=-eq-ok (read file_fullchain) _ h3 in
      let (fullchain, e5, h5) = >>=-eq-ok (parse_certificates crypto chain) _ h4 in
      let (head, e6, h6) = >>=-eq-ok (first crypto fullchain) _ h5 in
      let (e7, h7) = >>-eq-ok (require (crypto.raw leaf == crypto.raw head) wrong_key) _ h6 in
      let (ca, e8, h8) = >>=-eq-ok (read file_ca) _ h7 in
      let (cas, e9, h9) = >>=-eq-ok (parse_certificates crypto ca) _ h8 in
      let (e10, h10) =
        >>-eq-ok
          (refuse (any (is_out_of_time crypto now) (certificates ++ fullchain ++ cas)) expired) _
          h9 in
      let (key_content, e11, h11) = >>=-eq-ok (read file_key) _ h10 in
      let (key, e12, h12) = >>=-eq-ok (parse_private_key crypto key_content) _ h11 in
      let (e13, h13) =
        >>-eq-ok (check_pair crypto leaf key) (check_names crypto leaf (domain ∷ san)) h12 in
      let alone = only-ok certificates bad_pem e3 in
      let time = in_time now leaf certificates fullchain cas alone (
        refuse-eq-ok (any (is_out_of_time crypto now) (certificates ++ fullchain ++ cas)) expired
          e10) in
      record {
        leaf = leaf;
        key = key;
        cert_content = cert;
        key_content = key_content;
        cert_read = e1;
        leaf_only = e2 ∙ ap ok alone;
        key_read = e11;
        key_parsed = e12;
        started = time.0;
        not_ended = time.1;
        paired = check_pair-ok leaf key e13;
        covered = check_names-All leaf (domain ∷ san) h13;
      }
