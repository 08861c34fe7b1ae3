-- ===== src/Validator.antt =====
-- shaperail-codegen/src/validator.rs: the semantic checks of a resource definition. An error is its message;
-- the fields' checks stand here, those of endpoints, relations and indexes in the children.
pub mod Endpoints
pub mod Whole
pub mod Sound
pub mod SoundEndpoints
pub mod Accepted
mod Examples
use shaperail.Prelude.{
  ℕ, zero, suc, String, List, [], ◌∷◌, ◌++◌, Option, none, some, Bool, true, false, not, ◌&&◌, ◌||◌,
  if◌then◌else◌, contains_char, format, is_some, is_none,
}
use shaperail.Core.Schema.{FieldType, uuid, string, enum, array, is_type, ItemsSpec, FieldSchema}

-- One error under a condition.
unfoldable pub report : Bool → List String → List String
report b message = if b then format message ∷ [] else []

-- The errors of each element in turn.
abbrev pub each {ℓ} : {A : Type ℓ} → (A → List String) → List A → List String
each check [] = []
each check (x ∷ xs) = check x ++ each check xs

abbrev pub each_of {ℓ} : {A : Type ℓ} → (A → List String) → Option (List A) → List String
each_of check none = []
each_of check (some xs) = each check xs

abbrev pub when_some {ℓ} : {A : Type ℓ} → (A → List String) → Option A → List String
when_some check none = []
when_some check (some x) = check x

module _ (res name : String) where
  -- A message about a field.
  abbrev pub of_field : List String → List String
  of_field rest = "resource '" ∷ res ∷ "': field '" ∷ name ∷ "'" ∷ rest

  abbrev pub reference_errors : String → String → List String
  reference_errors what reference =
      report (not (contains_char b'.' reference))
        (of_field (what ∷ " must be in 'resource.field' format, got '" ∷ reference ∷ "'" ∷ []))

  unfoldable pub items_errors : ItemsSpec → List String
  items_errors spec =
      report (is_type spec.field_type array)
        (of_field (" has nested array items; use type: json for nested arrays" ∷ []))
      ++ (report (is_type spec.field_type enum && is_none spec.values)
            (of_field (" has enum items but no values; add `values: [...]` to items" ∷ []))
          ++ (report (is_some spec.format && not (is_type spec.field_type string))
                (of_field (" has items.format but items.type is not string" ∷ []))
              ++ (report (is_some spec.reference && not (is_type spec.field_type uuid))
                    (of_field (" has items.ref but items.type is not uuid" ∷ []))
                  ++ when_some (reference_errors " items.ref") spec.reference)))

  unfoldable pub type_errors : FieldSchema → List String
  type_errors field =
      report (is_type field.field_type enum && is_none field.values)
        (of_field (" is type enum but has no values" ∷ []))
      ++ (report (not (is_type field.field_type enum) && is_some field.values)
            (of_field (" has values but is not type enum" ∷ []))
          ++ (report (is_some field.reference && not (is_type field.field_type uuid))
                (of_field (" has ref but is not type uuid" ∷ []))
              ++ (when_some (reference_errors " ref") field.reference
                  ++ report (is_type field.field_type array && is_none field.items)
                      (of_field (" is type array but has no items" ∷ [])))))

  abbrev cannot_be : Bool → String → List String
  cannot_be clash what = report clash (of_field (" cannot be both transient and " ∷ what ∷ []))

  unfoldable pub transient_errors : FieldSchema → List String
  transient_errors field =
      cannot_be field.primary "primary"
      ++ (cannot_be field.generated "generated"
          ++ (cannot_be (is_some field.reference) "have a ref (foreign keys imply persistence)"
              ++ (cannot_be field.unique "unique (unique constraints require persistence)"
                  ++ cannot_be (is_some field.default)
                      "have a default (defaults apply to stored columns)")))

  unfoldable pub field_errors : FieldSchema → List String
  unfolding items_errors type_errors transient_errors
  field_errors field =
      type_errors field
      ++ (when_some items_errors field.items
          ++ (report (is_some field.format && not (is_type field.field_type string))
                (of_field (" has format but is not type string" ∷ []))
              ++ (report (field.primary && (not field.generated && not field.required)) (
                    "resource '" ∷ res ∷ "': primary key field '" ∷ name
                    ∷ "' must be generated or required" ∷ [])
                  ++ (if field.transient then transient_errors field else []))))
