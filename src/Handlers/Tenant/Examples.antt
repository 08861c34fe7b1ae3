-- ===== src/Handlers/Tenant/Examples.antt =====
-- The tenant steps of crud.rs at concrete users and records.
use shaperail.Prelude.{String, [], some, none, ◌≡◌, ◌⊎◌, refl, true, inl, inr, arith, eq_iff}
use shaperail.Core.Error.{err, not_found}
use shaperail.Auth.Rbac.{AuthenticatedUser}
use shaperail.Db.Filter.{add}
use shaperail.Handlers.Samples.{posts, ann, her_post}
use shaperail.Handlers.Tenant.{tenant_of, is_super_admin, verify_tenant, inject_tenant_filter}
use shaperail.Handlers.Tenant.Isolation.{Sees, verify_tenant-Sees, inject_tenant_filter_lem}

abbrev outsider : AuthenticatedUser
outsider = record { sub = "eve"; role = "member"; tenant_id = some "t2" }

unseen : ¬ Sees posts (some outsider) her_post
unseen (inl h) = ground arith
unseen (inr h) = ground (arith, eq_iff "t2" "t1")

verify_tenant-Sees_example : verify_tenant posts (some outsider) her_post ≡ err not_found
verify_tenant-Sees_example =
    ((verify_tenant-Sees posts (some outsider) her_post).1 "org" refl refl).1 "t2" refl unseen

inject_tenant_filter_lem_example :
    ((posts.tenant_key ≡ none) ⊎ (is_super_admin (some ann) ≡ true)) × (add [] "org" "t1" ≡ [])
    ⊎ ((k : String) × (t : String) × (posts.tenant_key ≡ some k)
        × (tenant_of (some ann) ≡ some t)
        × (add [] "org" "t1" ≡ add [] k t))
unfolding inject_tenant_filter
inject_tenant_filter_lem_example =
    inject_tenant_filter_lem posts (some ann) [] (add [] "org" "t1") refl
