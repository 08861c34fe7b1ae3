-- ===== src/Validator/Accepted.antt =====
-- What an accepted resource is like.
use shaperail.Prelude.{
  eq_iff, subst, ℕ, suc, ◌+◌, ◌<◌, String, List, [], ◌∷◌, Option, none, some, true, false, not,
  ◌&&◌, ◌==◌, All, All-map, contains, contains_key, lookup, is_some, is_none, is_empty, ltb, length,
  ◌⊎◌, ◌≡◌, ◌≢◌, refl, arith,
}
use shaperail.Core.Schema.{uuid, is_type, is_type_iff, FieldSchema}
use shaperail.Core.Endpoint.{EndpointSpec}
use shaperail.Core.Resource.{
  ResourceDefinition, RelationType, RelationSpec, belongs_to, has_many, has_one, IndexSpec,
}
use shaperail.Validator.{when_some, field_errors}
use shaperail.Validator.Endpoints.{endpoint_errors}
use shaperail.Validator.Whole.{
  marked, inputs_of, endpoints_of, primary_errors, unreachable_error, tenant_field_errors,
  validate_resource, is_belongs_to, key_error, order_error, relation_errors, indexes_errors,
  index_errors, index_field_error,
}
use shaperail.Validator.Sound.{
  split, report-nil, each-nil, each_of-nil, AllOf, IsSoundField, field_errors-IsSoundField,
}
use shaperail.Validator.SoundEndpoints.{
  Schema, IsField, IsSoundEndpoint, endpoint_errors-IsSoundEndpoint,
}

-- A relation is over a key of its own, a known field where it belongs to another resource.
abbrev pub IsSoundRelation : Schema → String × RelationSpec → Type 0
IsSoundRelation schema (name, rel) =
    (rel.relation_type ≡ belongs_to → (key : String) × (rel.key ≡ some key) × IsField schema key)
    × (rel.relation_type ≢ belongs_to → is_some rel.foreign_key ≡ true)

abbrev pub IsSoundIndex : Schema → IndexSpec → Type 0
IsSoundIndex schema idx =
    (is_empty idx.fields ≡ false)
    × All (IsField schema) idx.fields
    × ((order : String) → idx.order ≡ some order → (order ≡ "asc") ⊎ (order ≡ "desc"))

module _ (res : String) (schema : Schema) where
  relation_errors-IsSoundRelation :
      (r : String × RelationSpec) → relation_errors res schema r ≡ [] → IsSoundRelation schema r
  relation_errors-IsSoundRelation (name, rel) e =
      let (a, e1) = split _ _ e in
      let (b, k) = split _ _ e1 in
      let no_key = report-nil _ _ a in
      let no_foreign = report-nil _ _ b in
      (
        λ h. belongs rel.relation_type rel.key h no_key k,
        λ h. foreign rel.relation_type rel.foreign_key h no_foreign,
      )
    where
      belongs :
          (t : RelationType) (key : Option String)
          → t ≡ belongs_to
          → (is_belongs_to t && is_none key) ≡ false
          → when_some (key_error res schema name) key ≡ []
          → (k : String) × (key ≡ some k) × IsField schema k
      belongs t none h no_key e = ground arith
      belongs t (some key) h no_key e = (key, refl, ground (arith, report-nil _ _ e))

      foreign :
          (t : RelationType) (o : Option String)
          → t ≢ belongs_to
          → (not (is_belongs_to t) && is_none o) ≡ false
          → is_some o ≡ true
      foreign belongs_to o h e = absurd (h refl)
      foreign has_many o h e = ground arith
      foreign has_one o h e = ground arith

  order_error_lem :
      (i : ℕ) (o : Option String)
      → when_some (order_error res schema i) o ≡ []
      → (order : String) → o ≡ some order
      → (order ≡ "asc") ⊎ (order ≡ "desc")
  order_error_lem i none e order h = cc
  order_error_lem i (some o) e order h = ground (
    arith,
    report-nil (not (o == "asc") && not (o == "desc")) _ e,
    eq_iff order "asc",
    eq_iff order "desc",
  )

  index_errors-IsSoundIndex :
      (i : ℕ) (idx : IndexSpec) → index_errors res schema i idx ≡ [] → IsSoundIndex schema idx
  index_errors-IsSoundIndex i idx e =
      let (a, e1) = split _ _ e in
      let (b, c) = split _ _ e1 in
      (
        report-nil (is_empty idx.fields) _ a,
        All-map (λ name. index_field_error res schema i name ≡ []) (IsField schema) idx.fields
            (λ name h. ground (arith, report-nil (not (contains_key name schema)) _ h))
            (each-nil (index_field_error res schema i) idx.fields b),
        order_error_lem i idx.order c,
      )

  indexes_errors-IsSoundIndex :
      (i : ℕ) (l : List IndexSpec)
      → indexes_errors res schema i l ≡ []
      → All (IsSoundIndex schema) l
  unfolding indexes_errors
  indexes_errors-IsSoundIndex i [] e = tt
  indexes_errors-IsSoundIndex i (idx ∷ l) e =
      let (a, b) = split _ _ e in
      (index_errors-IsSoundIndex i idx a, indexes_errors-IsSoundIndex (i + 1) l b)

  indexes_of :
      (o : Option (List IndexSpec))
      → when_some (indexes_errors res schema 0) o ≡ []
      → AllOf (IsSoundIndex schema) o
  indexes_of none e = tt
  indexes_of (some l) e = indexes_errors-IsSoundIndex 0 l e

-- Exactly one field is the primary key.
one_key :
    (res : String) (names : List String)
    → primary_errors res (length names) ≡ []
    → (key : String) × (names ≡ key ∷ [])
one_key res [] e = cc
one_key res (key ∷ []) e = (key, refl)
one_key res (key ∷ other ∷ names) e =
    let more = report-nil (ltb 0 (suc (length names))) _ e in absurd (ground arith)

abbrev pub IsTenantField : Schema → String → Type 0
IsTenantField schema key =
    (field : FieldSchema) × (lookup key schema ≡ some field) × (field.field_type ≡ uuid)

tenant_field_errors_lem :
    (res key : String) (found : Option FieldSchema)
    → tenant_field_errors res key found ≡ []
    → (field : FieldSchema) × (found ≡ some field) × (field.field_type ≡ uuid)
tenant_field_errors_lem res key none e = cc
tenant_field_errors_lem res key (some field) e =
    let is_uuid = report-nil (not (is_type field.field_type uuid)) _ e in
    (field, refl, ground (arith, is_type_iff field.field_type uuid))

reached :
    (res : String) (inputs : List String) (name : String)
    → unreachable_error res inputs name ≡ []
    → contains inputs name ≡ true
reached res inputs name e = ground (arith, report-nil (not (contains inputs name)) _ e)

-- What the checks promise of a resource.
abbrev pub IsSound : ResourceDefinition → Type 0
IsSound rd =
    (rd.resource ≢ "")
    × (0 < rd.version)
    × ((key : String) × (marked (λ f. f.primary) rd.schema ≡ key ∷ []))
    × All (λ (entry : String × FieldSchema). IsSoundField entry.1) rd.schema
    × All (λ (name : String). contains (inputs_of (endpoints_of rd.endpoints)) name ≡ true)
        (marked (λ f. f.transient) rd.schema)
    × ((key : String) → rd.tenant_key ≡ some key → IsTenantField rd.schema key)
    × AllOf (IsSoundEndpoint rd.schema) rd.endpoints
    × AllOf (IsSoundRelation rd.schema) rd.relations
    × AllOf (IsSoundIndex rd.schema) rd.indexes

tenant_of :
    (res : String) (schema : Schema) (o : Option String)
    → when_some (λ key. tenant_field_errors res key (lookup key schema)) o ≡ []
    → (key : String) → o ≡ some key
    → IsTenantField schema key
tenant_of res schema none e key h = cc
tenant_of res schema (some k) e key h =
    subst (IsTenantField schema) (some_inj h) (tenant_field_errors_lem res k (lookup k schema) e)
  where
    some_inj : {a b : String} → some a ≡ some b → a ≡ b
    some_inj p = cc

-- A resource for which the validator reports no error has a name, a version, exactly one primary key,
-- and only fields that agree with their own type, references and marks; each transient field is an
-- input of some endpoint; the tenant key is a uuid field; each endpoint has a method and a path, no
-- handler under a convention's name, only known fields as inputs, filters, searches and sorts, a
-- `deleted_at` field if it deletes softly, and uploads to a file field among its inputs; and relations
-- and indexes are over known fields, as far as they name fields of this resource.
pub validate_resource-IsSound : (rd : ResourceDefinition) → validate_resource rd ≡ [] → IsSound rd
unfolding validate_resource
validate_resource-IsSound rd e =
    let (named, e1) = split _ _ e in
    let (versioned, e2) = split _ _ e1 in
    let (fielded, e3) = split _ _ e2 in
    let some_field = report-nil (is_empty rd.schema) _ fielded in
    let name = report-nil _ _ named in
    let version = report-nil _ _ versioned in
    let (key, e4) = split _ _ e3 in
    let (fields, e5) = split _ _ e4 in
    let (reachable, e6) = split _ _ e5 in
    let (tenant, e7) = split _ _ e6 in
    let (endpoints, e8) = split _ _ e7 in
    let (relations, indexes) = split _ _ e8 in
    (
      λ h. ground (arith, eq_iff rd.resource ""),
      ground arith,
      one_key rd.resource (marked (λ f. f.primary) rd.schema) key,
      All-map (λ (entry : String × FieldSchema). field_errors rd.resource entry.0 entry.1 ≡ [])
          (λ (entry : String × FieldSchema). IsSoundField entry.1) rd.schema
          (λ entry h. field_errors-IsSoundField rd.resource entry.0 entry.1 h)
          (each-nil (λ (entry : String × FieldSchema). field_errors rd.resource entry.0 entry.1)
            rd.schema fields),
      All-map
          (λ name. unreachable_error rd.resource (inputs_of (endpoints_of rd.endpoints)) name ≡ [])
          (λ (name : String). contains (inputs_of (endpoints_of rd.endpoints)) name ≡ true)
          (marked (λ f. f.transient) rd.schema)
          (reached rd.resource (inputs_of (endpoints_of rd.endpoints)))
          (each-nil (unreachable_error rd.resource (inputs_of (endpoints_of rd.endpoints)))
            (marked (λ f. f.transient) rd.schema) reachable),
      tenant_of rd.resource rd.schema rd.tenant_key tenant,
      each_of-nil
          (λ (entry : String × EndpointSpec). endpoint_errors rd.resource rd.schema entry.0 entry.1)
          (IsSoundEndpoint rd.schema) rd.endpoints
          (λ entry h. endpoint_errors-IsSoundEndpoint rd.resource rd.schema entry.0 entry.1 h)
          endpoints,
      each_of-nil (relation_errors rd.resource rd.schema) (IsSoundRelation rd.schema) rd.relations
          (relation_errors-IsSoundRelation rd.resource rd.schema) relations,
      indexes_of rd.resource rd.schema rd.indexes indexes,
    )
