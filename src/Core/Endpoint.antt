-- ===== src/Core/Endpoint.antt =====
-- shaperail-core/src/endpoint.rs: authentication rules and endpoint specifications.
use shaperail.Prelude.{
  ℕ, String, List, [], ◌∷◌, Option, Bool, true, false, any, contains, map_option, unwrap_or,
  starts_with,
}

pub data HttpMethod : Type 0 where
  get post patch put delete : HttpMethod

pub data AuthRule : Type 0 where
  public owner : AuthRule
  roles : List String → AuthRule

-- "owner" is a rule, or one of the roles.
abbrev pub allows_owner : AuthRule → Bool
allows_owner owner = true
allows_owner (roles rs) = contains rs "owner"
allows_owner public = false

pub data PaginationStyle : Type 0 where
  cursor offset : PaginationStyle

pub record RateLimitSpec : Type 0 where
  pub max_requests : ℕ
  pub window_secs : ℕ

pub record CacheSpec : Type 0 where
  pub ttl : ℕ
  pub invalidate_on : Option (List String)

pub record UploadSpec : Type 0 where
  pub field : String
  pub storage : String
  pub max_size : String
  pub types : Option (List String)

pub data HookList : Type 0 where
  single : String → HookList
  multi : List String → HookList

abbrev pub names : HookList → List String
names (single name) = name ∷ []
names (multi ns) = ns

abbrev pub has_wasm : HookList → Bool
has_wasm h = any (λ n. starts_with n "wasm:") (names h)

pub record ControllerSpec : Type 0 where
  pub before : Option HookList
  pub after : Option HookList

abbrev pub before_names : ControllerSpec → List String
before_names c = unwrap_or (map_option names c.before) []

abbrev pub after_names : ControllerSpec → List String
after_names c = unwrap_or (map_option names c.after) []

pub record SubscriberSpec : Type 0 where
  pub event : String
  pub handler : String

pub record EndpointSpec : Type 0 where
  pub method : Option HttpMethod
  pub path : Option String
  pub auth : Option AuthRule
  pub input : Option (List String)
  pub filters : Option (List String)
  pub search : Option (List String)
  pub pagination : Option PaginationStyle
  pub sort : Option (List String)
  pub cache : Option CacheSpec
  pub controller : Option ControllerSpec
  pub events : Option (List String)
  pub jobs : Option (List String)
  pub subscribers : Option (List SubscriberSpec)
  pub handler : Option String
  pub upload : Option UploadSpec
  pub rate_limit : Option RateLimitSpec
  pub soft_delete : Bool
