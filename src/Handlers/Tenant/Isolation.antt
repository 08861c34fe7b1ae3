-- ===== src/Handlers/Tenant/Isolation.antt =====
-- What the tenant steps of crud.rs let a user see, filter and write.
use shaperail.Prelude.{
  is_some, not, ◌&&◌, String, Option, none, some, true, false, and_then, unwrap_or, lookup,
  contains_key, ◌≡◌, ◌≢◌, ◌↔◌, ◌⊎◌, ◌==◌, if◌then◌else◌, eq_refl, Option-cases, ap, refl, inl, inr,
  eq_iff, arith, Bool-cases, lookup-insert,
}
use shaperail.Core.Json.{Json, Map, str, as_str, field}
use shaperail.Core.Error.{ok, err, forbidden, not_found}
use shaperail.Core.Resource.{ResourceDefinition}
use shaperail.Auth.Rbac.{AuthenticatedUser}
use shaperail.Db.Filter.{FilterSet, add}
use shaperail.Handlers.Tenant.{
  tenant_of, is_super_admin, same_tenant, verify_key, verify_tenant, filtered_by, filter_key,
  inject_tenant_filter, with_tenant, input_key, inject_tenant_into_input,
}

-- The record's tenant as the code reads it: the empty text if it is not there or not a text.
abbrev pub record_tenant : String → Json → String
record_tenant tenant_key v = unwrap_or (and_then (field v tenant_key) as_str) ""

-- A user sees a record of a resource with a tenant key if it is a super admin, or its tenant claim
-- is the record's.
abbrev pub SeesKey : Option String → Option AuthenticatedUser → Json → Type 0
SeesKey none user v = Unit {0}
SeesKey (some key) user v =
    (is_super_admin user ≡ true) ⊎ (tenant_of user ≡ some (record_tenant key v))

abbrev pub Sees : ResourceDefinition → Option AuthenticatedUser → Json → Type 0
Sees resource user v = SeesKey resource.tenant_key user v

-- Where the tenant guard of the handlers is off, every record is seen.
pub unguarded-Sees :
    (resource : ResourceDefinition) (user : Option AuthenticatedUser) (v : Json)
    → is_some resource.tenant_key && not (is_super_admin user) ≡ false
    → Sees resource user v
unguarded-Sees resource user v e = at resource.tenant_key e
  where
    at :
        (key : Option String)
        → is_some key && not (is_super_admin user) ≡ false
        → SeesKey key user v
    at none h = tt
    at (some k) h = inl (ground arith)

same_tenant_iff :
    (key : String) (o : Option String) (v : Json)
    → (same_tenant key o v ≡ ok tt) ↔ (o ≡ some (record_tenant key v))
same_tenant_iff key none v = ground arith
same_tenant_iff key (some t) v = ground (arith, eq_iff (record_tenant key v) t)

verify_key-SeesKey :
    (key : Option String) (user : Option AuthenticatedUser) (v : Json)
    → (verify_key key user v ≡ ok tt) ↔ SeesKey key user v
unfolding verify_key
verify_key-SeesKey none user v = ground arith
verify_key-SeesKey (some key) user v = ground (arith, same_tenant_iff key (tenant_of user) v)

unseen_error :
    (key : String) (o : Option String) (v : Json) (t : String)
    → o ≡ some t
    → o ≢ some (record_tenant key v)
    → same_tenant key o v ≡ err not_found
unseen_error key none v t e h = cc
unseen_error key (some u) v t e h = ground (arith, eq_iff (record_tenant key v) u)

-- The tenant check of a fetched record passes exactly when the user sees the record. On a resource
-- with a tenant key, a user that is no super admin is refused with 403, not with 401, for want of a tenant claim,
-- and with 404 if its claim is another tenant than the record's.
pub verify_tenant-Sees :
    (resource : ResourceDefinition) (user : Option AuthenticatedUser) (v : Json)
    → ((verify_tenant resource user v ≡ ok tt) ↔ Sees resource user v)
      × ((key : String)
          → resource.tenant_key ≡ some key
          → is_super_admin user ≡ false
          → (tenant_of user ≡ none → verify_tenant resource user v ≡ err forbidden)
            × ((t : String)
                → tenant_of user ≡ some t
                → ¬ Sees resource user v
                → verify_tenant resource user v ≡ err not_found))
unfolding verify_tenant verify_key
verify_tenant-Sees resource user v = (verify_key-SeesKey resource.tenant_key user v, refused)
  where
    refused :
        (key : String)
        → resource.tenant_key ≡ some key
        → is_super_admin user ≡ false
        → (tenant_of user ≡ none → verify_key resource.tenant_key user v ≡ err forbidden)
          × ((t : String)
              → tenant_of user ≡ some t
              → ¬ SeesKey resource.tenant_key user v
              → verify_key resource.tenant_key user v ≡ err not_found)
    refused key k s = rw (k) (
        rw s
          (λ e. rw e refl, λ t e h. unseen_error key (tenant_of user) v t e (λ same. h (inr same))))

filter_key_lem :
    (key : Option String) (user : Option AuthenticatedUser) (filters got : FilterSet)
    → filter_key key user filters ≡ ok got
    → ((key ≡ none) ⊎ (is_super_admin user ≡ true)) × (got ≡ filters)
      ⊎ ((k : String) × (t : String) × (key ≡ some k)
          × (tenant_of user ≡ some t)
          × (got ≡ add filters k t))
unfolding filter_key
filter_key_lem none user filters got e = inl (inl refl, ground arith)
filter_key_lem (some k) user filters got e = elim (Bool-cases (is_super_admin user)) [
  | inl b ↦ inl (inr b, ground arith)
  | inr b ↦ inr (claimed (tenant_of user) refl (ground arith))
]
  where
    claimed :
        (o : Option String)
        → tenant_of user ≡ o
        → filtered_by k o filters ≡ ok got
        → (k' : String) × (t : String) × (some k ≡ some k')
          × (tenant_of user ≡ some t)
          × (got ≡ add filters k' t)
    claimed none h q = cc
    claimed (some t) h q = (k, t, refl, h, cc)

-- A list goes on either with the client's filters as they are, on a resource without a tenant key or
-- for a super admin, or with exactly one more, the tenant key equal to the tenant of the user's
-- claim.
pub inject_tenant_filter_lem :
    (resource : ResourceDefinition) (user : Option AuthenticatedUser) (filters got : FilterSet)
    → inject_tenant_filter resource user filters ≡ ok got
    → ((resource.tenant_key ≡ none) ⊎ (is_super_admin user ≡ true)) × (got ≡ filters)
      ⊎ ((k : String) × (t : String) × (resource.tenant_key ≡ some k)
          × (tenant_of user ≡ some t)
          × (got ≡ add filters k t))
unfolding inject_tenant_filter
inject_tenant_filter_lem resource user filters got e =
    filter_key_lem resource.tenant_key user filters got e

with_tenant_lem :
    (key t : String) (input : Map) (k : String)
    → lookup k (with_tenant key (some t) input) ≡ (
        if contains_key key input
        then lookup k input
        else if key == k
        then some (str t)
        else lookup k input)
with_tenant_lem key t input k = ground (arith, lookup-insert key k (str t) input)

with_tenant_same :
    (key t : String) (input : Map) (k : String)
    → (lookup k input ≢ none) ⊎ (some key ≢ some k)
    → lookup k (with_tenant key (some t) input) ≡ lookup k input
with_tenant_same key t input k (inl present) = elim (Bool-cases (key == k)) [
  | inl e ↦
      rw (with_tenant_lem key t input k, (eq_iff key k).0 e)
        (elim (Option-cases (lookup k input)) [
          | inl n ↦ absurd (present n)
          | inr (v, h) ↦ ground arith
        ])
  | inr e ↦ rw (with_tenant_lem key t input k) (ground arith)
]
with_tenant_same key t input k (inr other) = elim (Bool-cases (key == k)) [
  | inl e ↦ absurd (other (ap some ((eq_iff key k).0 e)))
  | inr e ↦ rw (with_tenant_lem key t input k) (ground arith)
]

input_key_same :
    (key : Option String) (user : Option AuthenticatedUser) (input : Map) (k : String)
    → (lookup k input ≢ none) ⊎ (key ≢ some k)
    → lookup k (input_key key user input) ≡ lookup k input
unfolding input_key
input_key_same none user input k h = refl
input_key_same (some key) user input k h = elim (Option-cases (tenant_of user)) [
  | inl e ↦ rw e refl
  | inr (t, e) ↦ rw e (with_tenant_same key t input k h)
]

-- A write gets the tenant of the user's claim under the resource's tenant key where the client sent
-- no value there; every other key, and a tenant that the client sent itself, is as it was sent.
pub inject_tenant_into_input_lem :
    (resource : ResourceDefinition) (user : Option AuthenticatedUser) (input : Map) (k : String)
    → ((lookup k input ≢ none) ⊎ (resource.tenant_key ≢ some k)
        → lookup k (inject_tenant_into_input resource user input) ≡ lookup k input)
      × ((t : String)
          → resource.tenant_key ≡ some k
          → tenant_of user ≡ some t
          → lookup k input ≡ none
          → lookup k (inject_tenant_into_input resource user input) ≡ some (str t))
unfolding inject_tenant_into_input input_key
inject_tenant_into_input_lem resource user input k = (
  input_key_same resource.tenant_key user input k,
  λ t h e n. rw h (rw e (rw (with_tenant_lem k t input k) (ground (arith, eq_refl k)))),
)
