-- ===== src/Handlers/Validate.antt =====
-- shaperail-runtime/src/handlers/validate.rs: the two validation phases of a write and the removal of
-- transient fields. Each rule is a function to the errors that it pushes, in the order of the source.
pub mod Rules
pub mod Phases
pub mod Transient
mod Examples
use shaperail.Prelude.{
  String, List, [], ◌∷◌, ◌++◌, Option, none, some, Bool, true, false, not, ◌&&◌, ◌||◌, contains,
  lookup, remove, keys, is_none, format, if◌then◌else◌,
}
use shaperail.Core.Json.{Json, Map, Platform, is_null}
use shaperail.Core.Error.{FieldError, Result, finalize, ◌>>◌}
use shaperail.Core.Schema.{FieldSchema}
use shaperail.Core.Resource.{ResourceDefinition}
use Rules.{check_field_rules, error_at}

-- `data.get(name)`, if it is there and not null.
abbrev pub present : Option Json → Option Json
present none = none
present (some v) = if is_null v then none else some v

abbrev is_managed : FieldSchema → Bool
is_managed f = f.generated || f.primary

-- `field.required && field.default.is_none() && data.get(name).is_none_or(|v| v.is_null())`
abbrev is_missing : FieldSchema → Option Json → Bool
is_missing f v = f.required && (is_none f.default && is_none v)

abbrev pub required_error : String → FieldError
required_error name = error_at name (format (name ∷ " is required" ∷ [])) "required"

module _ (p : Platform) where
  abbrev rule_errors : String → FieldSchema → Option Json → List FieldError
  rule_errors name f none = []
  rule_errors name f (some v) = check_field_rules p name f v

  -- The loop of `validate_input_shape`.
  shape_errors : Map → List (String × FieldSchema) → List FieldError
  shape_errors input [] = []
  shape_errors input ((name, f) ∷ schema) =
      (if is_managed f then [] else rule_errors name f (present (lookup name input)))
      ++ shape_errors input schema

  unfoldable pub validate_input_shape : Map → ResourceDefinition → Result (Unit {0})
  unfolding shape_errors
  validate_input_shape input resource = finalize (shape_errors input resource.schema)

  abbrev field_required_errors : Map → List String → String → FieldSchema → List FieldError
  field_required_errors input pre_controller_keys name f =
      let v = present (lookup name input) in
      if is_managed f
      then []
      else if is_missing f v
      then required_error name ∷ []
      else if not (contains pre_controller_keys name)
      then rule_errors name f v
      else []

  -- The loop of `validate_required_present`.
  required_errors : Map → List String → List (String × FieldSchema) → List FieldError
  required_errors input pre_controller_keys [] = []
  required_errors input pre_controller_keys ((name, f) ∷ schema) =
      field_required_errors input pre_controller_keys name f
      ++ required_errors input pre_controller_keys schema

  unfoldable pub validate_required_present :
      Map → ResourceDefinition → List String → Result (Unit {0})
  unfolding required_errors
  validate_required_present input resource pre_controller_keys =
      finalize (required_errors input pre_controller_keys resource.schema)

  unfoldable pub validate_input : Map → ResourceDefinition → Result (Unit {0})
  validate_input input resource = do
    validate_input_shape input resource
    validate_required_present input resource (keys input)

-- The loop of `strip_transient_fields`.
strip_fields : Map → List (String × FieldSchema) → Map
strip_fields input [] = input
strip_fields input ((name, f) ∷ schema) =
    strip_fields (if f.transient then remove name input else input) schema

unfoldable pub strip_transient_fields : Map → ResourceDefinition → Map
unfolding strip_fields
strip_transient_fields input resource = strip_fields input resource.schema
