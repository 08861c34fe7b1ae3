-- ===== src/Handlers/Tenant.antt =====
-- shaperail-runtime/src/handlers/crud.rs, tenant isolation: the filters, checks and inputs that hold a
-- request to the tenant of its user.
pub mod Isolation
mod Examples
use shaperail.Prelude.{
  String, Option, none, some, Bool, not, ◌==◌, is_some_and, and_then, unwrap_or, insert,
  contains_key, if◌then◌else◌,
}
use shaperail.Core.Json.{Json, Map, str, as_str, field}
use shaperail.Core.Error.{Result, ok, err, forbidden, not_found}
use shaperail.Core.Resource.{ResourceDefinition}
use shaperail.Auth.Rbac.{AuthenticatedUser}
use shaperail.Db.Filter.{FilterSet, add}

abbrev pub tenant_of : Option AuthenticatedUser → Option String
tenant_of user = and_then user (λ u. u.tenant_id)

unfoldable pub resolve_tenant_id : ResourceDefinition → Option AuthenticatedUser → Option String
resolve_tenant_id resource user = and_then resource.tenant_key (λ _. tenant_of user)

abbrev pub is_super_admin : Option AuthenticatedUser → Bool
is_super_admin user = is_some_and user (λ u. u.role == "super_admin")

abbrev same_tenant : String → Option String → Json → Result (Unit {0})
same_tenant tenant_key none record_data = err forbidden
same_tenant tenant_key (some tenant) record_data =
    if unwrap_or (and_then (field record_data tenant_key) as_str) "" == tenant
    then ok tt
    else err not_found

verify_key : Option String → Option AuthenticatedUser → Json → Result (Unit {0})
verify_key none user record_data = ok tt
verify_key (some tenant_key) user record_data =
    if is_super_admin user then ok tt else same_tenant tenant_key (tenant_of user) record_data

unfoldable pub verify_tenant :
    ResourceDefinition → Option AuthenticatedUser → Json → Result (Unit {0})
unfolding verify_key
verify_tenant resource user record_data = verify_key resource.tenant_key user record_data

abbrev filtered_by : String → Option String → FilterSet → Result FilterSet
filtered_by tenant_key none filters = err forbidden
filtered_by tenant_key (some tenant) filters = ok (add filters tenant_key tenant)

filter_key : Option String → Option AuthenticatedUser → FilterSet → Result FilterSet
filter_key none user filters = ok filters
filter_key (some tenant_key) user filters =
    if is_super_admin user then ok filters else filtered_by tenant_key (tenant_of user) filters

unfoldable pub inject_tenant_filter :
    ResourceDefinition → Option AuthenticatedUser → FilterSet → Result FilterSet
unfolding filter_key
inject_tenant_filter resource user filters = filter_key resource.tenant_key user filters

abbrev with_tenant : String → Option String → Map → Map
with_tenant tenant_key none input = input
with_tenant tenant_key (some tenant) input =
    if not (contains_key tenant_key input) then insert tenant_key (str tenant) input else input

input_key : Option String → Option AuthenticatedUser → Map → Map
input_key none user input = input
input_key (some tenant_key) user input = with_tenant tenant_key (tenant_of user) input

unfoldable pub inject_tenant_into_input : ResourceDefinition → Option AuthenticatedUser → Map → Map
unfolding input_key
inject_tenant_into_input resource user input = input_key resource.tenant_key user input

abbrev pub tenant_id_for_key : Option AuthenticatedUser → String
tenant_id_for_key user = unwrap_or (tenant_of user) "_"
