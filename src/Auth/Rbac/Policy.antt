-- ===== src/Auth/Rbac/Policy.antt =====
-- What an `auth` rule promises, and that the two checks of rbac.rs together decide it.
use shaperail.Prelude.{
  String, List, [], ◌∷◌, Option, none, some, true, false, contains, In, contains→In, In→contains,
  and_then, ◌≡◌, ◌≢◌, refl, ◌↔◌, ◌⊎◌, eq_iff, arith,
}
use shaperail.Core.Json.{Json, as_str, field}
use shaperail.Core.Error.{ok, err, unauthorized, forbidden}
use shaperail.Core.Endpoint.{AuthRule, public, owner, roles}
use shaperail.Auth.Rbac.{
  AuthenticatedUser, enforce, check_owner, needs_owner_check, verify_owner, has_direct_role,
  owned_by,
}

-- The record's `created_by` is the user's `sub`.
abbrev pub Owns : AuthenticatedUser → Json → Type 0
Owns u record_data = and_then (field record_data "created_by") as_str ≡ some u.sub

-- A role of the list admits its holders to every record, "owner" admits only the record's creator.
abbrev pub Permits : Option AuthRule → Option AuthenticatedUser → Json → Type 0
Permits none user record_data = Unit {0}
Permits (some public) user record_data = Unit {0}
Permits (some owner) none record_data = ⊥
Permits (some owner) (some u) record_data = Owns u record_data
Permits (some (roles rs)) none record_data = ⊥
Permits (some (roles rs)) (some u) record_data =
    (In u.role rs × (u.role ≢ "owner")) ⊎ (In "owner" rs × Owns u record_data)

owned_by_iff : (o : Option String) (sub : String) → (owned_by o sub ≡ ok tt) ↔ (o ≡ some sub)
owned_by_iff none sub = ground arith
owned_by_iff (some s) sub = ground (arith, eq_iff s sub)

pub check_owner_iff :
    (u : AuthenticatedUser) (record_data : Json)
    → (check_owner u record_data ≡ ok tt) ↔ Owns u record_data
unfolding check_owner
check_owner_iff u record_data = owned_by_iff _ u.sub

has_direct_role→In :
    (rs : List String) (u : AuthenticatedUser)
    → has_direct_role rs u ≡ true
    → In u.role rs × (u.role ≢ "owner")
has_direct_role→In [] u h = cc
has_direct_role→In (r ∷ rs) u h =
    ground (arith, eq_iff r "owner", eq_iff r u.role, has_direct_role→In rs u)

In→has_direct_role :
    (rs : List String) (u : AuthenticatedUser)
    → In u.role rs
    → u.role ≢ "owner"
    → has_direct_role rs u ≡ true
In→has_direct_role [] u m h = absurd m
In→has_direct_role (r ∷ rs) u m h =
    ground (arith, eq_iff r "owner", eq_iff r u.role, In→has_direct_role rs u)

roles_permit :
    (rs : List String) (u : AuthenticatedUser) (record_data : Json)
    → ((enforce (some (roles rs)) (some u) ≡ ok tt)
        × (verify_owner (some (roles rs)) (some u) record_data ≡ ok tt))
      ↔ Permits (some (roles rs)) (some u) record_data
unfolding enforce verify_owner needs_owner_check
roles_permit rs u record_data = ground (
  arith,
  has_direct_role→In rs u,
  In→has_direct_role rs u,
  check_owner_iff u record_data,
  contains→In rs u.role,
  In→contains rs u.role,
  contains→In rs "owner",
  In→contains rs "owner",
  eq_iff u.role "owner",
)

-- A request passes `enforce` and the ownership step of the handlers exactly when the endpoint's rule
-- permits the user on the record: every rule, every user or none, every record. A super admin is permitted
-- by no more than its role: a list that does not name it refuses it.
pub enforce-Permits :
    (rule : Option AuthRule) (user : Option AuthenticatedUser) (record_data : Json)
    → ((enforce rule user ≡ ok tt) × (verify_owner rule user record_data ≡ ok tt))
      ↔ Permits rule user record_data
unfolding enforce verify_owner needs_owner_check
enforce-Permits none user record_data = ground arith
enforce-Permits (some public) user record_data = ground arith
enforce-Permits (some owner) none record_data = ground arith
enforce-Permits (some owner) (some u) record_data = ground (arith, check_owner_iff u record_data)
enforce-Permits (some (roles rs)) none record_data = ground arith
enforce-Permits (some (roles rs)) (some u) record_data = roles_permit rs u record_data

-- Under a rule the request is refused without a user with 401 exactly when the rule is not public, and
-- with a user with 403 exactly when the rule is a list with neither "owner" nor the
-- user's role.
pub enforce_errors :
    (rule : AuthRule) (u : AuthenticatedUser)
    → ((enforce (some rule) none ≡ err unauthorized) ↔ (rule ≢ public))
      × ((enforce (some rule) (some u) ≡ err forbidden) ↔ (
          (rs : List String) × (rule ≡ roles rs)
          × (contains rs u.role ≡ false)
          × (contains rs "owner" ≡ false)))
unfolding enforce
enforce_errors public u = ((λ e. cc, λ n. absurd (n refl)), (λ e. cc, λ (rs, e, _, _). cc))
enforce_errors owner u = ((λ _ e. cc, λ _. refl), (λ e. cc, λ (rs, e, _, _). cc))
enforce_errors (roles rs) u = (
  (λ _ e. cc, λ _. refl),
  (λ e. (rs, refl, ground arith, ground arith), λ (rs', same, h, k). refused rs' same h k),
)
  where
    refused :
        (rs' : List String)
        → roles rs ≡ roles rs'
        → contains rs' u.role ≡ false
        → contains rs' "owner" ≡ false
        → enforce (some (roles rs)) (some u) ≡ err forbidden
    refused rs' same h k = ground arith
