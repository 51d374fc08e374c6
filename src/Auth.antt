-- ===== src/Auth.antt =====
-- internal/api/server.go: `verifyTokenBody` with its checks; pkg/ckauth: `Sign` and `SecureEqual`;
-- internal/store/logs.go: `ConsumeNonce` and `CleanOldNonces`.
pub mod Replay
mod Tests
use cert_keeper.Prelude.{
  ℕ, ◌+◌, ◌*◌, ◌-◌, ◌==◌, nat_eq, text_eq, Text, Bool, true, false, not, ◌&&◌, ◌||◌, leb, ltb,
  Option, none, some, Result, ok, err, ◌>>=◌, ◌>>◌, require, List, [], ◌∷◌, ◌++◌, length, any, all,
  filter, is_empty, if◌then◌else◌, codes, to_lower,
}
use cert_keeper.Prelude.Int.{ℤ, pos, negsuc}
use cert_keeper.Store.Sql.{find}

-- A request after its body is read: of each header the values that it has.
pub record Request : Type 0 where
  pub method : Text
  pub path : Text
  pub raw_query : Text
  pub token_id : List Text
  pub timestamp : List Text
  pub nonce : List Text
  pub body_hash : List Text
  pub signature : List Text
  pub body : Text

pub record Token : Type 0 where
  pub id : Text
  pub secret : Text
  pub enabled : Bool
  pub is_admin : Bool

-- The tables of tokens and of nonces, the latter with their creation in Unix seconds.
pub record Tables : Type 0 where
  pub tokens : List Token
  pub nonces : List (Text × ℕ)

-- `timestamp_window_sec` and `nonce_ttl_sec`, the latter not negative.
pub record Policy : Type 0 where
  pub window : ℤ
  pub nonce_ttl : ℕ

-- HMAC-SHA256 and SHA-256 in hexadecimal, and the decimal digits of a number.
pub record Signing : Type 0 where
  pub hmac_hex : Text → Text → Text
  pub sha256_hex : Text → Text
  pub print : ℕ → Text

pub data AuthError : Type 0 where
  not_authenticated : AuthError

abbrev pub Authenticated {ℓ} : Type ℓ → Type ℓ
Authenticated A = Result AuthError A

unfoldable pub single_header : List Text → Authenticated Text
single_header [] = err not_authenticated
single_header (v ∷ []) = if is_empty v then err not_authenticated else ok v
single_header (v ∷ u ∷ vs) = err not_authenticated

abbrev pub is_digit : ℕ → Bool
is_digit c = leb b'0' c && leb c b'9'

abbrev pub is_token_byte : ℕ → Bool
is_token_byte c =
    (leb b'a' c && leb c b'z')
    || (leb b'A' c && leb c b'Z')
    || is_digit c
    || c == b'-'
    || c == b'_'
    || c == b'.'

unfoldable pub valid_token_id : Text → Bool
valid_token_id id = leb 1 (length id) && leb (length id) 64 && all is_token_byte id

unfoldable pub valid_timestamp_string : Text → Bool
valid_timestamp_string value = leb 1 (length value) && leb (length value) 20 && all is_digit value

abbrev pub is_hex_byte : ℕ → Bool
is_hex_byte c = is_digit c || (leb b'a' c && leb c b'f') || (leb b'A' c && leb c b'F')

unfoldable pub valid_hex : Text → ℕ → Bool
valid_hex value size = length value == size && all is_hex_byte value

abbrev pub empty_body_hash : Text
empty_body_hash = codes "0"

unfoldable pub valid_body_hash : Text → Bool → Bool
valid_body_hash value has_body = if has_body then valid_hex value 64 else value == empty_body_hash

-- The headers that authenticate a request.
pub record Headers : Type 0 where
  pub token_id : Text
  pub timestamp : Text
  pub nonce : Text
  pub body_hash : Text
  pub signature : Text

unfoldable pub check_headers : Request → Authenticated Headers
check_headers r = do
  id ← single_header r.token_id
  timestamp ← single_header r.timestamp
  nonce ← single_header r.nonce
  body_hash ← single_header r.body_hash
  signature ← single_header r.signature
  require
      (valid_token_id id
        && valid_timestamp_string timestamp
        && valid_hex nonce 32
        && valid_body_hash body_hash (not (is_empty r.body))
        && valid_hex signature 64)
      not_authenticated
  ok (record {
    token_id = id;
    timestamp = timestamp;
    nonce = nonce;
    body_hash = body_hash;
    signature = signature;
  })

-- `strconv.ParseInt` of decimal digits, in 64 bits.
abbrev pub digits_value : ℕ → Text → ℕ
digits_value acc [] = acc
digits_value acc (c ∷ s) = digits_value (acc * 10 + (c - b'0')) s

unfoldable pub parse_timestamp : Text → Authenticated ℕ
parse_timestamp s =
    if ltb (digits_value 0 s) 9_223_372_036_854_775_808
    then ok (digits_value 0 s)
    else err not_authenticated

-- `diff < -window || diff > window`, and a window that is negative.
unfoldable pub in_window : ℤ → ℕ → ℕ → Bool
in_window (pos window) now ts = leb ts (now + window) && leb now (ts + window)
in_window (negsuc n) now ts = false

-- `SecureEqual`.
unfoldable pub secure_equal : Text → Text → Bool
secure_equal a b = length a == length b && a == b

unfoldable pub sign : Signing → Text → Text → ℕ → Text → Text → Text → Text
sign signing method path ts nonce body_hash secret =
    signing.hmac_hex (method ++ 10 ∷ path ++ 10 ∷ signing.print ts ++ 10 ∷ nonce ++ 10 ∷ body_hash)
      secret

abbrev pub expected_body_hash : Signing → Text → Text
expected_body_hash signing body = if is_empty body then empty_body_hash else signing.sha256_hex body

abbrev pub signed_path : Request → Text
signed_path r = if is_empty r.raw_query then r.path else r.path ++ b'?' ∷ r.raw_query

abbrev pub enabled_token : Option Token → Authenticated Token
enabled_token none = err not_authenticated
enabled_token (some t) = if t.enabled then ok t else err not_authenticated

unfoldable pub get_token : Tables → Text → Authenticated Token
get_token s id = enabled_token (find (λ (t : Token). t.id == id) s.tokens)

-- From the timestamp to the signature.
unfoldable pub authenticate :
    Signing → Policy → ℕ → Tables → Request → Headers → Authenticated Token
authenticate signing policy now s r h = do
  ts ← parse_timestamp h.timestamp
  require (in_window policy.window now ts) not_authenticated
  require (secure_equal (to_lower h.body_hash) (expected_body_hash signing r.body))
      not_authenticated
  t ← get_token s h.token_id
  require
      (secure_equal (to_lower h.signature) (
        sign signing r.method (signed_path r) ts h.nonce (expected_body_hash signing r.body)
          t.secret))
      not_authenticated
  ok t

-- `DELETE FROM nonces WHERE created_at < ?`.
unfoldable pub clean_old_nonces : ℕ → Tables → Tables
clean_old_nonces before s = record s {
  nonces = filter (λ (n : Text × ℕ). not (ltb n.1 before)) s.nonces;
}

-- Those that `ConsumeNonce` keeps: not `created_at < now - ttl`.
abbrev pub kept_nonces : ℕ → ℕ → List (Text × ℕ) → List (Text × ℕ)
kept_nonces ttl now nonces = filter (λ (n : Text × ℕ). not (ltb (n.1 + ttl) now)) nonces

unfoldable pub consume_nonce : ℕ → ℕ → Text → Tables → Tables × Bool
consume_nonce ttl now nonce s =
    let kept = kept_nonces ttl now s.nonces in
    if any (λ (n : Text × ℕ). n.0 == nonce) kept
    then (record s { nonces = kept }, false)
    else (record s { nonces = kept ++ (nonce, now) ∷ [] }, true)

abbrev pub consumed : Token → Tables × Bool → Tables × Authenticated Token
consumed t (s, true) = (s, ok t)
consumed t (s, false) = (s, err not_authenticated)

abbrev pub verified :
    Policy → ℕ → Tables → Headers → Authenticated Token → Tables × Authenticated Token
verified policy now s h (err e) = (s, err e)
verified policy now s h (ok t) = consumed t (consume_nonce policy.nonce_ttl now h.nonce s)

abbrev pub verify_headers :
    Signing → Policy → ℕ → Tables → Request → Authenticated Headers → Tables × Authenticated Token
verify_headers signing policy now s r (err e) = (s, err e)
verify_headers signing policy now s r (ok h) =
    verified policy now s h (authenticate signing policy now s r h)

-- One reading of the clock, `now`, serves the window and `ConsumeNonce`, which reads it again in the
-- source.
unfoldable pub verify_token_body :
    Signing → Policy → ℕ → Tables → Request → Tables × Authenticated Token
verify_token_body signing policy now s r = verify_headers signing policy now s r (check_headers r)
