-- ===== src/Handlers/Validate/Transient.antt =====
-- Transient fields never reach the store.
use shaperail.Prelude.{
  String, List, [], ◌∷◌, none, Bool, false, ◌&&◌, ◌||◌, lookup, remove, lookup-remove, ◌≡◌, refl,
  arith, if◌then◌else◌, ◌==◌,
}
use shaperail.Core.Json.{Map}
use shaperail.Core.Schema.{FieldSchema}
use shaperail.Core.Resource.{ResourceDefinition}
use shaperail.Handlers.Validate.{strip_fields, strip_transient_fields}

-- The schema declares a transient field of that name.
abbrev pub is_transient : String → List (String × FieldSchema) → Bool
is_transient k [] = false
is_transient k ((name, f) ∷ schema) = (f.transient && (name == k)) || is_transient k schema

strip_fields_lem :
    (k : String) (input : Map) (schema : List (String × FieldSchema))
    → lookup k (strip_fields input schema)
      ≡ (if is_transient k schema then none else lookup k input)
unfolding strip_fields
strip_fields_lem k input [] = refl
strip_fields_lem k input ((name, f) ∷ schema) = ground (
  arith,
  strip_fields_lem k input schema,
  strip_fields_lem k (remove name input) schema,
  lookup-remove name k input,
)

-- After the removal the input holds no transient field of the resource, and every other key as before.
pub lookup-strip_transient_fields :
    (k : String) (input : Map) (resource : ResourceDefinition)
    → lookup k (strip_transient_fields input resource)
      ≡ (if is_transient k resource.schema then none else lookup k input)
unfolding strip_transient_fields
lookup-strip_transient_fields k input resource = strip_fields_lem k input resource.schema
