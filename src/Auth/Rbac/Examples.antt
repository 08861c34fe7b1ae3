-- ===== src/Auth/Rbac/Examples.antt =====
-- rbac.rs and subject.rs at concrete users and records.
use shaperail.Prelude.{[], ◌∷◌, Option, some, ◌≡◌, ◌↔◌}
use shaperail.Core.Json.{Json, obj, object, str}
use shaperail.Core.Error.{ok}
use shaperail.Core.Endpoint.{AuthRule, roles}
use shaperail.Auth.Rbac.{AuthenticatedUser, enforce, verify_owner}
use shaperail.Auth.Rbac.Policy.{Permits, enforce-Permits}

abbrev ann : AuthenticatedUser
ann = record { sub = "ann"; role = "member"; tenant_id = some "t1" }

abbrev her_post : Json
her_post = obj (object (("created_by", str "ann") ∷ []))

abbrev editors_or_owner : Option AuthRule
editors_or_owner = some (roles ("editor" ∷ "owner" ∷ []))

enforce-Permits_example :
    ((enforce editors_or_owner (some ann) ≡ ok tt)
      × (verify_owner editors_or_owner (some ann) her_post ≡ ok tt))
    ↔ Permits editors_or_owner (some ann) her_post
enforce-Permits_example = enforce-Permits editors_or_owner (some ann) her_post
