-- ===== src/Auth/Extractor/Examples.antt =====
-- A request with an access token.
use shaperail.Prelude.{
  String, none, some, [], strip_prefix, if◌then◌else◌, ◌==◌, ◌↔◌, ◌≡◌, ◌⊎◌, refl,
}
use shaperail.Prelude.Int.{pos}
use shaperail.Core.Error.{ok, err, unauthorized}
use shaperail.Auth.Extractor.{Claims, Credentials, user_of, extract_auth, insert_key}
use shaperail.Auth.Extractor.Authenticated.{ByToken, ByKey, extract_auth-ByToken_iff}

abbrev claims : String → Claims
claims kind = record {
  sub = "u1";
  role = "admin";
  iat = pos 0;
  exp = pos 60;
  token_type = kind;
  tenant_id = some "t1";
}

-- Tokens are their kinds; there is one API key.
abbrev with_header : String → Credentials
with_header text = record {
  header = λ name.
      if name == "Authorization"
      then some (some text)
      else if name == "X-API-Key"
      then some (some "k")
      else none;
  jwt = some (λ token. some (claims token));
  api_keys = some (insert_key "k" "u2" "viewer" []);
}

extract_auth-ByToken_iff_example :
    (extract_auth (with_header "Bearer access") ≡ ok (user_of (claims "access"))) ↔ (
      ByToken
        (with_header "Bearer access")
        (some (some "Bearer access"))
        (user_of (claims "access"))
      ⊎ ByKey
          (with_header "Bearer access")
          (some (some "Bearer access"))
          (user_of (claims "access")))
extract_auth-ByToken_iff_example =
    extract_auth-ByToken_iff (with_header "Bearer access") (user_of (claims "access"))

-- The API key does not help a refresh token.
refresh_token : extract_auth (with_header "Bearer refresh") ≡ err unauthorized
unfolding extract_auth strip_prefix
refresh_token = refl

basic_credentials :
    extract_auth (with_header "Basic abc")
    ≡ ok (record { sub = "u2"; role = "viewer"; tenant_id = none })
unfolding extract_auth strip_prefix insert_key
basic_credentials = refl
