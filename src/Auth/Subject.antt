-- ===== src/Auth/Subject.antt =====
-- shaperail-runtime/src/auth/subject.rs: the caller and the tenant that its queries are held to.
pub mod Isolation
mod Examples
use shaperail.Prelude.{
  String, List, [], ◌∷◌, ◌++◌, Option, none, some, Bool, true, false, not, if◌then◌else◌, ◌==◌,
}
use shaperail.Core.Error.{Result, ok, err, unauthorized, forbidden, ◌>>=◌}
use shaperail.Auth.Rbac.{AuthenticatedUser}

pub record Subject : Type 0 where
  pub sub : String
  pub role : String
  pub tenant_id : Option String

abbrev of_user : AuthenticatedUser → Subject
of_user u = record { sub = u.sub; role = u.role; tenant_id = u.tenant_id }

-- `from_request`, on what `try_extract_auth` finds.
unfoldable pub from_request : Option AuthenticatedUser → Result Subject
from_request none = err unauthorized
from_request (some u) = ok (of_user u)

abbrev pub is_super_admin : Subject → Bool
is_super_admin s = s.role == "super_admin"

claimed : Option String → Result (Option String)
claimed none = err unauthorized
claimed (some t) = if not (t == "") then ok (some t) else err unauthorized

unfoldable pub tenant_filter : Subject → Result (Option String)
unfolding claimed
tenant_filter s = if is_super_admin s then ok none else claimed s.tenant_id

matches_tenant : Option String → String → Result (Unit {0})
matches_tenant none record_tenant = ok tt
matches_tenant (some t) record_tenant = if t == record_tenant then ok tt else err forbidden

unfoldable pub assert_tenant_match : Subject → String → Result (Unit {0})
unfolding matches_tenant
assert_tenant_match s record_tenant = do
  filter ← tenant_filter s
  matches_tenant filter record_tenant

-- The calls that are made on a `sqlx::QueryBuilder`, in order.
pub data Piece : Type 0 where
  push push_bind : String → Piece

scoped : Option String → List Piece → String → List Piece
scoped none builder column = builder
scoped (some tenant) builder column =
    builder ++ (push " AND " ∷ push column ∷ push " = " ∷ push_bind tenant ∷ [])

unfoldable pub scope_to_tenant : Subject → List Piece → String → Result (List Piece)
unfolding scoped
scope_to_tenant s builder column = do filter ← tenant_filter s; ok (scoped filter builder column)
