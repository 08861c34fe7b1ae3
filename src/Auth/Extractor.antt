-- ===== src/Auth/Extractor.antt =====
-- shaperail-runtime/src/auth/jwt.rs (the claims), api_key.rs and extractor.rs: the user of a request, by a
-- token or by an API key. A header is absent, is no text, or is a text.
pub mod Authenticated
mod Examples
use shaperail.Prelude.{
  String, List, Option, none, some, lookup, strip_prefix, insert, if◌then◌else◌, ◌==◌,
}
use shaperail.Prelude.Int.{ℤ}
use shaperail.Core.Error.{Result, ok, err, internal, unauthorized}
use shaperail.Auth.Rbac.{AuthenticatedUser}

pub record Claims : Type 0 where
  pub sub : String
  pub role : String
  pub iat : ℤ
  pub exp : ℤ
  pub token_type : String
  pub tenant_id : Option String

abbrev pub ApiKeyStore : Type 0
ApiKeyStore = List (String × AuthenticatedUser)

-- `ApiKeyStore::insert`.
unfoldable pub insert_key : String → String → String → ApiKeyStore → ApiKeyStore
insert_key key user_id role keys =
    insert key (record { sub = user_id; role = role; tenant_id = none }) keys

-- A request: its headers, and what the server is configured with; the `jsonwebtoken` crate decodes.
pub record Credentials : Type 0 where
  pub header : String → Option (Option String)
  pub jwt : Option (String → Option Claims)
  pub api_keys : Option ApiKeyStore

abbrev pub user_of : Claims → AuthenticatedUser
user_of claims = record { sub = claims.sub; role = claims.role; tenant_id = claims.tenant_id }

abbrev pub claimed : Option Claims → Result AuthenticatedUser
claimed none = err unauthorized
claimed (some claims) =
    if claims.token_type == "access" then ok (user_of claims) else err unauthorized

abbrev pub by_token : Option (String → Option Claims) → String → Result AuthenticatedUser
by_token none token = err (internal "JWT not configured")
by_token (some decode) token = claimed (decode token)

abbrev pub found_key : Option AuthenticatedUser → Result AuthenticatedUser
found_key none = err unauthorized
found_key (some user) = ok user

abbrev pub by_store : Option ApiKeyStore → String → Result AuthenticatedUser
by_store none key = err unauthorized
by_store (some keys) key = found_key (lookup key keys)

abbrev pub by_api_key : Option ApiKeyStore → Option (Option String) → Result AuthenticatedUser
by_api_key keys none = err unauthorized
by_api_key keys (some none) = err unauthorized
by_api_key keys (some (some key)) = by_store keys key

abbrev pub by_bearer : Credentials → Option String → Result AuthenticatedUser
by_bearer r none = by_api_key r.api_keys (r.header "X-API-Key")
by_bearer r (some token) = by_token r.jwt token

abbrev pub by_authorization : Credentials → Option (Option String) → Result AuthenticatedUser
by_authorization r none = by_api_key r.api_keys (r.header "X-API-Key")
by_authorization r (some none) = err unauthorized
by_authorization r (some (some text)) = by_bearer r (strip_prefix "Bearer " text)

unfoldable pub extract_auth : Credentials → Result AuthenticatedUser
extract_auth r = by_authorization r (r.header "Authorization")

abbrev ok_value : Result AuthenticatedUser → Option AuthenticatedUser
ok_value (ok user) = some user
ok_value (err e) = none

unfoldable pub try_extract_auth : Credentials → Option AuthenticatedUser
try_extract_auth r = ok_value (extract_auth r)
