-- ===== src/Handlers/References.antt =====
-- handlers/validate.rs, `validate_item_references`: the elements of an array field with `items.ref`
-- exist in the table that it names. The distinct ids are walked in the order of their first mention.
use shaperail.Prelude.{
  ℕ, String, List, [], ◌∷◌, ◌++◌, Option, none, some, not, contains, keep, lookup, and_then,
  is_empty, length, format, join, split_once, ltb, if◌then◌else◌,
}
use shaperail.Core.Json.{Json, Map, as_str, as_array, Platform}
use shaperail.Core.Error.{FieldError, Result, ok, finalize, ◌>>=◌}
use shaperail.Core.Schema.{FieldSchema, ItemsSpec, uuid, is_type}
use shaperail.Core.Resource.{ResourceDefinition}

abbrev take_five : List String → List String
take_five (a ∷ b ∷ c ∷ d ∷ e ∷ rest) = a ∷ b ∷ c ∷ d ∷ e ∷ []
take_five short = short

abbrev distinct_from : List String → List String → List String
distinct_from seen [] = []
distinct_from seen (u ∷ us) =
    if contains seen u then distinct_from seen us else u ∷ distinct_from (u ∷ seen) us

-- `items.reference` of an array of UUIDs, with the table and the column that it names.
abbrev split_reference : String → Option (String × String) → Option (String × String × String)
split_reference reference none = none
split_reference reference (some (table, column)) = some (reference, table, column)

abbrev target_of : Option ItemsSpec → Option (String × String × String)
target_of none = none
target_of (some items) =
    and_then items.reference
      (λ r. if is_type items.field_type uuid then split_reference r (split_once b'.' r) else none)

abbrev listed : Option String → List String
listed none = []
listed (some u) = u ∷ []

unfoldable pub parse_uuids : Platform → List Json → List String
parse_uuids p [] = []
parse_uuids p (v ∷ vs) = listed (and_then (as_str v) p.parse_uuid) ++ parse_uuids p vs

abbrev pub distinct : List String → List String
distinct = distinct_from []

missing_error : (name reference : String) → List String → FieldError
missing_error name reference missing = record {
  field = name;
  message = format (
      name
      ∷ " contains references that do not exist in "
      ∷ reference
      ∷ ": "
      ∷ join ", " missing
      ∷ []);
  code = "invalid_reference";
}

-- The two queries on the referenced table.
module _ {Db : Type 0} (p : Platform)
    (count_references : (table column : String) → List String → Db → Result ℕ)
    (select_references : (table column : String) → List String → Db → Result (List String)) where
  missing : (name reference : String) → (distinct_uuids existing : List String) → List FieldError
  missing name reference distinct_uuids existing =
      missing_error name reference
        (take_five (keep (λ u. not (contains existing u)) distinct_uuids))
      ∷ []

  absent : (name reference table column : String) → List String → Db → Result (List FieldError)
  unfolding missing missing_error
  absent name reference table column uuids db = do
    found ← count_references table column uuids db
    let ids = distinct uuids
    if ltb found (length ids)
        then (select_references table column uuids db >>= λ existing.
            ok (missing name reference ids existing))
        else ok []

  -- The elements of the field, if it is an array of which some are UUIDs.
  check_uuids :
      (name : String) → String × String × String → List String → Db → Result (List FieldError)
  unfolding absent
  check_uuids name (reference, table, column) uuids db =
      if is_empty uuids then ok [] else absent name reference table column uuids db

  check_elements :
      (name : String)
      → Option (String × String × String)
      → Option (List Json)
      → Db
      → Result (List FieldError)
  unfolding check_uuids
  check_elements name none elements db = ok []
  check_elements name (some target) none db = ok []
  check_elements name (some target) (some elements) db =
      check_uuids name target (parse_uuids p elements) db

  reference_errors : Map → List (String × FieldSchema) → Db → Result (List FieldError)
  unfolding check_elements
  reference_errors input [] db = ok []
  reference_errors input ((name, f) ∷ schema) db = do
    errors ← check_elements name (target_of f.items) (and_then (lookup name input) as_array) db
    rest ← reference_errors input schema db
    ok (errors ++ rest)

  unfoldable pub validate_item_references : Map → ResourceDefinition → Db → Result (Unit {0})
  unfolding reference_errors
  validate_item_references input resource db = do
    errors ← reference_errors input resource.schema db
    finalize errors
