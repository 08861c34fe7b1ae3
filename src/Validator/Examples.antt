-- ===== src/Validator/Examples.antt =====
-- A resource of notes, and one with mistakes.
use shaperail.Prelude.{[], ◌∷◌, some, none, true, false, ◌≡◌, refl, contains_char}
use shaperail.Core.Schema.{FieldType, uuid, string, FieldSchema}
use shaperail.Core.Endpoint.{EndpointSpec, post}
use shaperail.Core.Resource.{ResourceDefinition}
use shaperail.Validator.{report}
use shaperail.Validator.Whole.{validate_resource}
use shaperail.Validator.Accepted.{IsSound, validate_resource-IsSound}

abbrev field_of : FieldType → FieldSchema
field_of type = record {
  field_type = type;
  primary = false;
  generated = false;
  required = false;
  unique = false;
  nullable = false;
  reference = none;
  min = none;
  max = none;
  format = none;
  values = none;
  default = none;
  sensitive = false;
  search = false;
  items = none;
  transient = false;
}

abbrev create : EndpointSpec
create = record {
  method = some post;
  path = some "/notes";
  auth = none;
  input = some ("title" ∷ []);
  filters = none;
  search = none;
  pagination = none;
  sort = none;
  cache = none;
  controller = none;
  events = none;
  jobs = none;
  subscribers = none;
  handler = none;
  upload = none;
  rate_limit = none;
  soft_delete = false;
}

abbrev id_field : FieldSchema
id_field = record (field_of uuid) { primary = true; generated = true }

abbrev notes : ResourceDefinition
notes = record {
  resource = "notes";
  version = 1;
  db = none;
  tenant_key = some "org";
  schema = ("id", id_field) ∷ ("org", field_of uuid) ∷ ("title", field_of string) ∷ [];
  endpoints = some (("create", create) ∷ []);
  relations = none;
  indexes = some (record { fields = "title" ∷ []; unique = false; order = some "asc" } ∷ []);
}

validate_resource-IsSound_example : IsSound notes
unfolding validate_resource report contains_char
validate_resource-IsSound_example = validate_resource-IsSound notes refl

-- A tenant key that is no uuid field, and an input that is no field.
mistakes :
    validate_resource (record notes {
      tenant_key = some "title";
      schema = ("id", id_field) ∷ ("title", field_of string) ∷ [];
      endpoints = some (("create", record create { input = some ("name" ∷ []) }) ∷ []);
    })
    ≡ "resource 'notes': tenant_key 'title' must reference a uuid field, found string"
      ∷ "resource 'notes': endpoint 'create' input field 'name' not found in schema" ∷ []
unfolding validate_resource report contains_char
mistakes = refl
