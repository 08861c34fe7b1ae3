-- ===== src/Auth/Rbac.antt =====
-- shaperail-runtime/src/auth/rbac.rs: role and ownership checks of an endpoint's `auth` rule.
pub mod Policy
mod Examples
use shaperail.Prelude.{
  String, List, Option, none, some, Bool, true, false, not, ◌&&◌, any, contains, and_then,
  if◌then◌else◌, ◌==◌,
}
use shaperail.Core.Json.{Json, as_str, field}
use shaperail.Core.Error.{Result, ok, err, unauthorized, forbidden}
use shaperail.Core.Endpoint.{AuthRule, public, owner, roles}

-- auth/extractor.rs: the claims of a valid token or API key.
pub record AuthenticatedUser : Type 0 where
  pub sub : String
  pub role : String
  pub tenant_id : Option String

enforce_roles : List String → Option AuthenticatedUser → Result (Unit {0})
enforce_roles rs none = err unauthorized
enforce_roles rs (some u) =
    if contains rs u.role then ok tt else if contains rs "owner" then ok tt else err forbidden

unfoldable pub enforce : Option AuthRule → Option AuthenticatedUser → Result (Unit {0})
unfolding enforce_roles
enforce none user = ok tt
enforce (some public) user = ok tt
enforce (some owner) none = err unauthorized
enforce (some owner) (some u) = ok tt
enforce (some (roles rs)) user = enforce_roles rs user

-- `Some(owner_id) if owner_id == user.sub`
abbrev owned_by : Option String → String → Result (Unit {0})
owned_by none sub = err forbidden
owned_by (some owner_id) sub = if owner_id == sub then ok tt else err forbidden

unfoldable pub check_owner : AuthenticatedUser → Json → Result (Unit {0})
check_owner user record_data = owned_by (and_then (field record_data "created_by") as_str) user.sub

-- Some role of the list other than "owner" is the user's.
abbrev pub has_direct_role : List String → AuthenticatedUser → Bool
has_direct_role rs u = any (λ r. not (r == "owner") && (r == u.role)) rs

abbrev needs_owner_role : List String → Option AuthenticatedUser → Bool
needs_owner_role rs none = false
needs_owner_role rs (some u) = not (has_direct_role rs u)

unfoldable pub needs_owner_check : Option AuthRule → Option AuthenticatedUser → Bool
needs_owner_check none user = false
needs_owner_check (some owner) user = true
needs_owner_check (some (roles rs)) user =
    if not (contains rs "owner") then false else needs_owner_role rs user
needs_owner_check (some public) user = false

-- The ownership step of the handlers: `if needs_owner_check(…) { if let Some(u) = user { check_owner(u, …)? } }`.
abbrev owner_check_of : Option AuthenticatedUser → Json → Result (Unit {0})
owner_check_of none record_data = ok tt
owner_check_of (some u) record_data = check_owner u record_data

unfoldable pub verify_owner : Option AuthRule → Option AuthenticatedUser → Json → Result (Unit {0})
verify_owner rule user record_data =
    if needs_owner_check rule user then owner_check_of user record_data else ok tt
