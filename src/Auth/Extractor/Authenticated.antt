-- ===== src/Auth/Extractor/Authenticated.antt =====
-- Which credentials make which user.
use shaperail.Prelude.{
  none_not_some, String, Option, none, some, lookup, strip_prefix, eq_iff, Bool-cases, inl, inr,
  ◌⊎◌, some_injective, ◌↔◌, ◌≡◌, ◌≢◌, refl, ap, sym, subst, ◌∙◌, arith, ◌==◌,
}
use shaperail.Core.Error.{ok}
use shaperail.Auth.Rbac.{AuthenticatedUser}
use shaperail.Auth.Extractor.{
  Claims, ApiKeyStore, Credentials, user_of, claimed, by_token, found_key, by_api_key, by_bearer,
  by_authorization, extract_auth,
}

-- What follows "Bearer " in the header.
abbrev pub bearer_token : Option (Option String) → Option String
bearer_token none = none
bearer_token (some none) = none
bearer_token (some (some text)) = strip_prefix "Bearer " text

-- By an access token that the server reads.
abbrev pub ByToken : Credentials → Option (Option String) → AuthenticatedUser → Type 0
ByToken r h user =
    (token : String) × (bearer_token h ≡ some token)
    × ((decode : String → Option Claims) × (r.jwt ≡ some decode)
        × ((claims : Claims) × (decode token ≡ some claims)
            × (claims.token_type ≡ "access")
            × (user
                ≡ record { sub = claims.sub; role = claims.role; tenant_id = claims.tenant_id })))

-- By an API key, where there is no bearer token and the header for one is a text or absent.
abbrev pub ByKey : Credentials → Option (Option String) → AuthenticatedUser → Type 0
ByKey r h user =
    (bearer_token h ≡ none)
    × (h ≢ some none)
    × ((key : String) × (r.header "X-API-Key" ≡ some (some key))
        × ((keys : ApiKeyStore) × (r.api_keys ≡ some keys) × (lookup key keys ≡ some user)))

claimed-access :
    (o : Option Claims) (user : AuthenticatedUser)
    → (claimed o ≡ ok user) ↔ (
        (claims : Claims) × (o ≡ some claims)
        × (claims.token_type ≡ "access")
        × (user ≡ record { sub = claims.sub; role = claims.role; tenant_id = claims.tenant_id }))
claimed-access none user = (λ e. cc, λ (c, o, t, u). cc)
claimed-access (some claims) user = (
  λ e. elim (Bool-cases (claims.token_type == "access")) [
    | inl q ↦ (claims, refl, (eq_iff claims.token_type "access").0 q, ground (arith, e, q))
    | inr q ↦ absurd (ground (arith, e, q))
  ],
  λ (c, o, t, u).
      rw ((eq_iff claims.token_type "access").1 (ap (λ x. x.token_type) (some_injective o) ∙ t), u)
        (ap (λ x. ok (user_of x)) (some_injective o)),
)

found_key-some :
    (o : Option AuthenticatedUser) (user : AuthenticatedUser)
    → found_key o ≡ ok user
    → o ≡ some user
found_key-some none user e = cc
found_key-some (some u) user e = ground arith

by_api_key-lookup :
    (keys : Option ApiKeyStore) (h : Option (Option String)) (user : AuthenticatedUser)
    → (by_api_key keys h ≡ ok user) ↔ (
        (key : String) × (h ≡ some (some key))
        × ((store : ApiKeyStore) × (keys ≡ some store) × (lookup key store ≡ some user)))
by_api_key-lookup keys none user = (λ e. cc, λ (k, o, rest). cc)
by_api_key-lookup keys (some none) user = (λ e. cc, λ (k, o, rest). cc)
by_api_key-lookup none (some (some key)) user = (λ e. cc, λ (k, o, (s, e, l)). cc)
by_api_key-lookup (some store) (some (some key)) user = (
  λ e. (key, refl, (store, refl, found_key-some (lookup key store) user e)),
  λ (k, o, (s, q, l)). ap found_key (
      ap (λ x. lookup x store) (some_injective (some_injective o))
      ∙ ap (lookup k) (some_injective q)
      ∙ l),
)

by_token-access :
    (jwt : Option (String → Option Claims)) (token : String) (user : AuthenticatedUser)
    → (by_token jwt token ≡ ok user) ↔ (
        (decode : String → Option Claims) × (jwt ≡ some decode)
        × ((claims : Claims) × (decode token ≡ some claims)
            × (claims.token_type ≡ "access")
            × (user
                ≡ record { sub = claims.sub; role = claims.role; tenant_id = claims.tenant_id })))
by_token-access none token user = (λ e. cc, λ (d, o, rest). cc)
by_token-access (some decode) token user = (
  λ e. (decode, refl, (claimed-access (decode token) user).0 e),
  λ (d, o, (c, read, t, u)).
      (claimed-access (decode token) user).1 (c, ap (λ f. f token) (some_injective o) ∙ read, t, u),
)

by_bearer-ByToken_iff :
    (r : Credentials) (user : AuthenticatedUser) (h : Option (Option String)) (o : Option String)
    → bearer_token h ≡ o
    → h ≢ some none
    → (by_bearer r o ≡ ok user) ↔ (ByToken r h user ⊎ ByKey r h user)
by_bearer-ByToken_iff r user h none e text = (
  λ q. inr (e, text, (by_api_key-lookup r.api_keys (r.header "X-API-Key") user).0 q),
  λ s. elim s [
    | inl (token, t, rest) ↦ absurd (none_not_some (sym e ∙ t))
    | inr (n, x, by_key) ↦ (by_api_key-lookup r.api_keys (r.header "X-API-Key") user).1 by_key
  ],
)
by_bearer-ByToken_iff r user h (some token) e text = (
  λ q. inl (token, e, (by_token-access r.jwt token user).0 q),
  λ s. elim s [
    | inl (other, t, rest) ↦
        subst (λ x. by_token r.jwt x ≡ ok user) (some_injective (sym t ∙ e))
          ((by_token-access r.jwt other user).1 rest)
    | inr (n, x, by_key) ↦ absurd (none_not_some (sym n ∙ e))
  ],
)

by_authorization-ByToken_iff :
    (r : Credentials) (user : AuthenticatedUser) (h : Option (Option String))
    → (by_authorization r h ≡ ok user) ↔ (ByToken r h user ⊎ ByKey r h user)
by_authorization-ByToken_iff r user none = by_bearer-ByToken_iff r user none none refl (λ e. cc)
by_authorization-ByToken_iff r user (some none) = (
  λ e. cc,
  λ s. elim s [
    | inl (token, t, rest) ↦ absurd (none_not_some t)
    | inr (n, text, by_key) ↦ absurd (text refl)
  ],
)
by_authorization-ByToken_iff r user (some (some text)) =
    by_bearer-ByToken_iff r user (some (some text)) (strip_prefix "Bearer " text) refl (λ e. cc)

-- A request has a user exactly by a bearer token that the server reads and that is an access token, with the
-- token's subject, role and tenant; or, where there is no bearer token, by an API key that the server
-- knows. A refresh token is none, and an API key does not stand in for a bearer token that is refused.
pub extract_auth-ByToken_iff :
    (r : Credentials) (user : AuthenticatedUser)
    → (extract_auth r ≡ ok user)
      ↔ (ByToken r (r.header "Authorization") user ⊎ ByKey r (r.header "Authorization") user)
unfolding extract_auth
extract_auth-ByToken_iff r user = by_authorization-ByToken_iff r user (r.header "Authorization")
