-- ===== src/Auth/Tests.antt =====
-- Requests that come twice, and an instance of the theorem.
use cert_keeper.Prelude.{
  ℕ, Text, Bool, true, false, Option, none, some, Result, ok, err, List, [], ◌∷◌, ◌≡◌, refl, codes,
  arith,
}
use cert_keeper.Prelude.Int.{pos}
use cert_keeper.Auth.{
  Request, Token, Tables, Policy, Signing, Headers, not_authenticated, check_headers,
  parse_timestamp, verify_token_body,
}
use cert_keeper.Auth.Replay.{happen_all, requests, cleans, verify-once}

abbrev digest : Text
digest = codes "aaaaaaaaaaaaaaaaaaaaaaaaaaaaaaaaaaaaaaaaaaaaaaaaaaaaaaaaaaaaaaaa"

abbrev signing : Signing
signing = record {
  hmac_hex = λ payload secret. digest;
  sha256_hex = λ body. digest;
  print = λ n. [];
}

-- The defaults of the configuration.
abbrev policy : Policy
policy = record { window = pos 300; nonce_ttl = 300 }

abbrev token : Token
token = record { id = codes "t1"; secret = codes "s"; enabled = true; is_admin = false }

abbrev tables : Tables
tables = record { tokens = token ∷ []; nonces = [] }

abbrev nonce : Text
nonce = codes "00112233445566778899aabbccddeeff"

-- A request with this timestamp.
abbrev request : Text → Request
request timestamp = record {
  method = codes "GET";
  path = codes "/";
  raw_query = [];
  token_id = codes "t1" ∷ [];
  timestamp = timestamp ∷ [];
  nonce = nonce ∷ [];
  body_hash = codes "0" ∷ [];
  signature = digest ∷ [];
  body = [];
}

authentication : Unit {0}
unfolding cert_keeper.Auth.single_header cert_keeper.Auth.valid_token_id
    cert_keeper.Auth.valid_timestamp_string cert_keeper.Auth.valid_hex
    cert_keeper.Auth.valid_body_hash cert_keeper.Auth.check_headers cert_keeper.Auth.parse_timestamp
    cert_keeper.Auth.in_window cert_keeper.Auth.secure_equal cert_keeper.Auth.sign
    cert_keeper.Auth.get_token cert_keeper.Auth.authenticate cert_keeper.Auth.clean_old_nonces
    cert_keeper.Auth.consume_nonce cert_keeper.Auth.verify_token_body cert_keeper.Auth.Replay.happen
    cert_keeper.Auth.Replay.happen_all cert_keeper.Prelude.text_beq cert_keeper.Prelude.to_lower
authentication = tt

abbrev headers : Headers
headers = record {
  token_id = codes "t1";
  timestamp = codes "1000";
  nonce = nonce;
  body_hash = codes "0";
  signature = digest;
}

-- A client's clock that is ahead by the whole window: the nonce is cleaned before the timestamp
-- leaves the window, and the request is accepted once more.
ahead-twice :
    (verify_token_body signing policy 1_301
      (verify_token_body signing policy 1_000 tables (request (codes "1300"))).0
      (request (codes "1300"))).1
    ≡ ok token
unfolding authentication
ahead-twice = refl

verify-once_example :
    (verify_token_body signing policy 1_200
      (happen_all signing policy
        (verify_token_body signing policy 1_000 tables (request (codes "1000"))).0
        ((1_100, cleans 800) ∷ []))
      (request (codes "1000"))).1
    ≡ err not_authenticated
unfolding authentication
verify-once_example =
    verify-once signing policy 1_000 1_200 tables (request (codes "1000")) headers 1_000 token
      ((1_100, cleans 800) ∷ []) refl refl (λ m e. ground arith) refl (omega arith, tt)
