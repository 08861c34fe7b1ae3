-- ===== src/Validator/Whole.antt =====
-- shaperail-codegen/src/validator.rs: the checks of a whole resource.
use shaperail.Prelude.{
  ℕ, zero, suc, ◌+◌, String, List, [], ◌∷◌, ◌++◌, Option, none, some, Bool, true, false, not, ◌&&◌,
  ◌==◌, if◌then◌else◌, contains, contains_key, lookup, length, eqb, ltb, decimal, format, is_empty,
  is_none,
}
use shaperail.Core.Schema.{uuid, is_type, FieldSchema}
use shaperail.Core.Endpoint.{EndpointSpec}
use shaperail.Core.Resource.{
  ResourceDefinition, RelationSpec, RelationType, belongs_to, has_many, has_one, IndexSpec,
}
use shaperail.Validator.{report, each, each_of, when_some, field_errors}
use shaperail.Validator.Endpoints.{type_text, endpoint_errors}

-- The fields with a mark, by their names.
abbrev pub marked : (FieldSchema → Bool) → List (String × FieldSchema) → List String
marked p [] = []
marked p ((name, field) ∷ schema) =
    let rest = marked p schema in if p field then name ∷ rest else rest

abbrev pub input_names : Option (List String) → List String
input_names none = []
input_names (some names) = names

abbrev pub inputs_of : List (String × EndpointSpec) → List String
inputs_of [] = []
inputs_of ((action, ep) ∷ endpoints) = input_names ep.input ++ inputs_of endpoints

abbrev pub endpoints_of : {A : Type 0} → Option (List A) → List A
endpoints_of none = []
endpoints_of (some endpoints) = endpoints

abbrev pub relation_text : RelationType → String
relation_text belongs_to = "belongs_to"
relation_text has_many = "has_many"
relation_text has_one = "has_one"

abbrev pub is_belongs_to : RelationType → Bool
is_belongs_to belongs_to = true
is_belongs_to has_many = false
is_belongs_to has_one = false

module _ (res : String) where
  abbrev of_resource : List String → List String
  of_resource rest = "resource '" ∷ res ∷ "': " ∷ rest

  -- The number of primary keys.
  abbrev pub primary_errors : ℕ → List String
  primary_errors zero = format (of_resource ("schema must have a primary key field" ∷ [])) ∷ []
  primary_errors (suc n) =
      report (ltb 0 n)
        (of_resource ("schema must have exactly one primary key, found " ∷ decimal (suc n) ∷ []))

  abbrev pub unreachable_error : List String → String → List String
  unreachable_error referenced name = report (not (contains referenced name)) (
      of_resource (
        "transient field '" ∷ name
        ∷ "' is not declared in any endpoint's input: list (the field would be unreachable)" ∷ []))

  abbrev pub tenant_field_errors : String → Option FieldSchema → List String
  tenant_field_errors tenant_key none =
      format (of_resource ("tenant_key '" ∷ tenant_key ∷ "' not found in schema" ∷ [])) ∷ []
  tenant_field_errors tenant_key (some field) = report (not (is_type field.field_type uuid)) (
      of_resource (
        "tenant_key '"
        ∷ tenant_key
        ∷ "' must reference a uuid field, found "
        ∷ type_text field.field_type
        ∷ []))

  module _ (schema : List (String × FieldSchema)) where
    abbrev pub key_error : String → String → List String
    key_error name key =
        report (not (contains_key key schema))
          (of_resource ("relation '" ∷ name ∷ "' key '" ∷ key ∷ "' not found in schema" ∷ []))

    abbrev pub relation_errors : String × RelationSpec → List String
    relation_errors (name, rel) =
        report (is_belongs_to rel.relation_type && is_none rel.key)
          (of_resource ("relation '" ∷ name ∷ "' is belongs_to but has no key" ∷ []))
        ++ (report (not (is_belongs_to rel.relation_type) && is_none rel.foreign_key) (
              of_resource (
                "relation '"
                ∷ name
                ∷ "' is "
                ∷ relation_text rel.relation_type
                ∷ " but has no foreign_key"
                ∷ []))
            ++ when_some (key_error name) rel.key)

    abbrev pub index_field_error : ℕ → String → List String
    index_field_error i name =
        report (not (contains_key name schema)) (
          of_resource
            ("index " ∷ decimal i ∷ " references field '" ∷ name ∷ "' not in schema" ∷ []))

    abbrev pub order_error : ℕ → String → List String
    order_error i order = report (not (order == "asc") && not (order == "desc")) (
        of_resource (
          "index "
          ∷ decimal i
          ∷ " has invalid order '"
          ∷ order
          ∷ "', must be 'asc' or 'desc'"
          ∷ []))

    abbrev pub index_errors : ℕ → IndexSpec → List String
    index_errors i idx =
        report (is_empty idx.fields) (of_resource ("index " ∷ decimal i ∷ " has no fields" ∷ []))
        ++ (each (index_field_error i) idx.fields ++ when_some (order_error i) idx.order)

    -- `indexes.iter().enumerate()`.
    unfoldable pub indexes_errors : ℕ → List IndexSpec → List String
    indexes_errors i [] = []
    indexes_errors i (idx ∷ indexes) = index_errors i idx ++ indexes_errors (i + 1) indexes

unfoldable pub validate_resource : ResourceDefinition → List String
unfolding field_errors endpoint_errors indexes_errors
validate_resource rd =
    report (rd.resource == "") ("resource name must not be empty" ∷ [])
    ++ (report (eqb rd.version 0) (of_resource rd.resource ("version must be >= 1" ∷ []))
        ++ (report (is_empty rd.schema)
              (of_resource rd.resource ("schema must have at least one field" ∷ []))
            ++ (primary_errors rd.resource (length (marked (λ f. f.primary) rd.schema))
                ++ (each (λ (name, field). field_errors rd.resource name field) rd.schema
                    ++ (each (unreachable_error rd.resource (inputs_of (endpoints_of rd.endpoints)))
                          (marked (λ f. f.transient) rd.schema)
                        ++ (when_some
                              (λ tenant_key.
                                tenant_field_errors rd.resource tenant_key
                                  (lookup tenant_key rd.schema))
                              rd.tenant_key
                            ++ (each_of
                                  (λ (action, ep). endpoint_errors rd.resource rd.schema action ep)
                                  rd.endpoints
                                ++ (each_of (relation_errors rd.resource rd.schema) rd.relations
                                    ++ when_some (indexes_errors rd.resource rd.schema 0)
                                        rd.indexes))))))))
