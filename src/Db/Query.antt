-- ===== src/Db/Query.antt =====
-- shaperail-runtime/src/db/query.rs: `ResourceQuery`, which builds the SQL of a resource's operations with
-- their bound values and runs it; its children build the reads, the writes and the table. A UUID, a
-- timestamp and a date are their canonical texts, as `to_string` and `to_rfc3339` write them.
pub mod Cursor
pub mod Read
pub mod Write
pub mod Inserted
pub mod Updated
pub mod Clauses
pub mod Selected
pub mod Pages
pub mod Create
pub mod Columns
mod Examples
use shaperail.Prelude.{
  ℕ, ◌-◌, ◌^◌, String, List, [], ◌∷◌, Option, none, some, Bool, true, false, format, join, map, any,
  lookup, keys, map_option, unwrap_or, and_then, if◌then◌else◌, ◌==◌, eqb, ◌&&◌,
}
use Prim.Native.String as Str
use Prim.Native.Char.{code}
use shaperail.Prelude.Int.{ℤ, pos, negsuc, in_range, parse_i64}
use shaperail.Core.Json.{
  Json, Map, Number, as_str, as_number, null, num, str, bool, pos_int, neg_int, float, object, obj,
}
use shaperail.Core.Error.{Result, ok, err, ShaperailError, internal, ◌>>=◌}
use shaperail.Core.Schema.{
  FieldSchema, FieldType, uuid, string, integer, number, boolean, timestamp, date, enum, json,
  array, file,
}
use shaperail.Core.Endpoint.{EndpointSpec}
use shaperail.Core.Resource.{ResourceDefinition}

pub data BindValue : Type 0 where
  text_value : String → BindValue
  bigint_value : ℤ → BindValue
  float_value : ℕ → BindValue
  bool_value : Bool → BindValue
  uuid_value : String → BindValue
  timestamp_value : String → BindValue
  date_value : String → BindValue
  json_value : Json → BindValue
  null_value : BindValue

-- What `Option<T>::try_get` gives for a column.
pub data Got (A : Type 0) : Type 0 where
  failed : String → Got A
  got : Option A → Got A

-- sqlx's `PgRow`: `try_get` of a column at each type.
pub record PgRow : Type 0 where
  pub get_text : String → Got String
  pub get_i64 : String → Got ℤ
  pub get_f64 : String → Got ℕ
  pub get_bool : String → Got Bool
  pub get_uuid : String → Got String
  pub get_timestamp : String → Got String
  pub get_date : String → Got String
  pub get_json : String → Got Json

-- What the libraries give: parsers, `Value::to_string`, `f64` of a number and back, UTF-8, and the clock
-- and the generator of UUIDs at the call made for a placeholder.
pub record Libraries : Type 0 where
  pub parse_uuid : String → Option String
  pub parse_timestamp : String → Option String
  pub parse_date : String → Option String
  pub parse_f64 : String → Option ℕ
  pub to_f64 : Number → ℕ
  pub is_finite : ℕ → Bool
  pub to_text : Json → String
  pub to_uppercase : String → String
  pub as_bytes : String → List ℕ
  pub from_utf8 : List ℕ → Option String
  pub new_v4 : ℕ → String
  pub now : ℕ → String
  pub today : ℕ → String

-- The connection pool: the rows of a statement and the number of a count, with the errors that sqlx's
-- become. A statement that only reads leaves the database as it is.
pub record Pool (Db : Type 0) : Type 0 where
  pub fetch_all : String → List BindValue → Db → Result (List PgRow) × Db
  pub fetch_optional : String → List BindValue → Db → Result (Option PgRow)
  pub fetch_one : String → List BindValue → Db → Result ℤ

pub record Statement : Type 0 where
  pub sql : String
  pub binds : List BindValue

abbrev pub quoted : String → String
quoted c = format ("\"" ∷ c ∷ "\"" ∷ [])

abbrev pub columns : ResourceDefinition → List String
columns r = keys r.schema

abbrev pub primary_from : List (String × FieldSchema) → String
primary_from [] = "id"
primary_from ((name, fs) ∷ schema) = if fs.primary then name else primary_from schema

abbrev pub primary_key : ResourceDefinition → String
primary_key r = primary_from r.schema

unfoldable pub select_columns : ResourceDefinition → String
select_columns r = join ", " (map quoted (columns r))

abbrev soft_deletes : String × EndpointSpec → Bool
soft_deletes (name, ep) = ep.soft_delete

unfoldable pub has_soft_delete : ResourceDefinition → Bool
has_soft_delete r = unwrap_or (map_option (any soft_deletes) r.endpoints) false

-- `Value::as_i64` and `as_bool`.
abbrev number_i64 : Number → Option ℤ
number_i64 (pos_int n) = map_option pos (in_range (2 ^ 63 - 1) n)
number_i64 (neg_int n) = some (negsuc n)
number_i64 (float b) = none

abbrev pub as_i64 : Json → Option ℤ
as_i64 v = and_then (as_number v) number_i64

abbrev pub as_bool : Json → Option Bool
as_bool (bool b) = some b
as_bool _ = none

-- `str::parse::<bool>`.
abbrev parse_bool : String → Option Bool
parse_bool s = if s == "true" then some true else if s == "false" then some false else none

abbrev pub integer_json : ℤ → Json
integer_json (pos n) = num (pos_int n)
integer_json (negsuc n) = num (neg_int n)

-- `trim_matches('"')`.
trim_start_quotes : String → String
trim_start_quotes Str.[] = ""
trim_start_quotes (Str.◌∷◌ c s) = if eqb (code c) b'"' then trim_start_quotes s else Str.◌∷◌ c s

quotes_only : String → Bool
quotes_only Str.[] = true
quotes_only (Str.◌∷◌ c s) = eqb (code c) b'"' && quotes_only s

trim_end_quotes : String → String
unfolding quotes_only
trim_end_quotes Str.[] = ""
trim_end_quotes (Str.◌∷◌ c s) =
    if quotes_only (Str.◌∷◌ c s) then "" else Str.◌∷◌ c (trim_end_quotes s)

unfoldable pub trim_quotes : String → String
unfolding trim_start_quotes trim_end_quotes
trim_quotes s = trim_end_quotes (trim_start_quotes s)

module _ (lib : Libraries) where
  abbrev coerced : FieldType → String → Option BindValue
  coerced uuid value = map_option uuid_value (lib.parse_uuid value)
  coerced integer value = map_option bigint_value (parse_i64 value)
  coerced number value = map_option float_value (lib.parse_f64 value)
  coerced boolean value = map_option bool_value (parse_bool value)
  coerced _ value = none

  abbrev coerced_field : Option FieldSchema → String → Option BindValue
  coerced_field none value = none
  coerced_field (some field) value = coerced field.field_type value

  unfoldable pub coerce_filter_value : ResourceDefinition → String → String → BindValue
  coerce_filter_value r field_name value =
      unwrap_or (coerced_field (lookup field_name r.schema) value) (text_value value)

  -- The binding of a value that is not null, at placeholder `n`.
  abbrev typed_bind : Json → FieldType → ℕ → BindValue
  typed_bind value uuid n =
      unwrap_or (map_option uuid_value (and_then (as_str value) lib.parse_uuid))
        (text_value (trim_quotes (lib.to_text value)))
  typed_bind value string n = text_value (unwrap_or (as_str value) (lib.to_text value))
  typed_bind value enum n = text_value (unwrap_or (as_str value) (lib.to_text value))
  typed_bind value file n = text_value (unwrap_or (as_str value) (lib.to_text value))
  typed_bind value integer n = bigint_value (unwrap_or (as_i64 value) (pos 0))
  typed_bind value number n =
      float_value (unwrap_or (map_option lib.to_f64 (as_number value)) (lib.to_f64 (pos_int 0)))
  typed_bind value boolean n = bool_value (unwrap_or (as_bool value) false)
  typed_bind value timestamp n =
      timestamp_value (unwrap_or (and_then (as_str value) lib.parse_timestamp) (lib.now n))
  typed_bind value date n =
      date_value (unwrap_or (and_then (as_str value) lib.parse_date) (lib.today n))
  typed_bind value json n = json_value value
  typed_bind value array n = json_value value

  unfoldable pub json_to_bind : Json → FieldSchema → ℕ → BindValue
  json_to_bind null field n = null_value
  json_to_bind value field n = typed_bind value field.field_type n

  -- `v.map(f).unwrap_or(Value::Null)` after `map_err`.
  abbrev shown : {A : Type 0} → String → (A → Json) → Got A → Result Json
  shown name f (failed e) = err (internal (format ("Column '" ∷ name ∷ "' error: " ∷ e ∷ [])))
  shown name f (got v) = ok (unwrap_or (map_option f v) null)

  -- `Number::from_f64` has no number for an infinity or a NaN.
  abbrev float_json : ℕ → Json
  float_json b = if lib.is_finite b then num (float b) else null

  abbrev column_value : PgRow → String → FieldType → Result Json
  column_value row name uuid = shown name str (row.get_uuid name)
  column_value row name string = shown name str (row.get_text name)
  column_value row name enum = shown name str (row.get_text name)
  column_value row name file = shown name str (row.get_text name)
  column_value row name integer = shown name integer_json (row.get_i64 name)
  column_value row name number = shown name float_json (row.get_f64 name)
  column_value row name boolean = shown name bool (row.get_bool name)
  column_value row name timestamp = shown name str (row.get_timestamp name)
  column_value row name date = shown name str (row.get_date name)
  column_value row name json = shown name (λ v. v) (row.get_json name)
  column_value row name array = shown name (λ v. v) (row.get_json name)

  unfoldable pub extract_column_value : PgRow → String → FieldSchema → Result Json
  extract_column_value row name field = column_value row name field.field_type

  abbrev row_members : PgRow → List (String × FieldSchema) → Result Map
  row_members row [] = ok []
  row_members row ((name, field) ∷ schema) =
      let rest = row_members row schema in
      if field.transient
      then rest
      else extract_column_value row name field >>= λ value.
          rest >>= λ others. ok ((name, value) ∷ others)

  unfoldable pub row_to_json : ResourceDefinition → PgRow → Result Json
  row_to_json r row = row_members row r.schema >>= λ members. ok (obj (object members))

  abbrev pub rows_to_json : ResourceDefinition → List PgRow → Result (List Json)
  rows_to_json r [] = ok []
  rows_to_json r (row ∷ rows) =
      row_to_json r row >>= λ value. rows_to_json r rows >>= λ values. ok (value ∷ values)

  -- Running a statement.
  module _ {Db : Type 0} (pool : Pool Db) where
    abbrev fetched : ResourceDefinition → Result (List PgRow) × Db → Result (List Json) × Db
    fetched r (rows, db) = (rows >>= rows_to_json r, db)

    unfoldable pub execute_query : ResourceDefinition → Statement → Db → Result (List Json) × Db
    execute_query r s db = fetched r (pool.fetch_all s.sql s.binds db)

unfoldable pub execute_count : {Db : Type 0} → Pool Db → Statement → Db → Result ℤ
execute_count pool s db = pool.fetch_one s.sql s.binds db

-- `rows.into_iter().next().ok_or(e)`.
abbrev pub first_row : {Db : Type 0} → ShaperailError → Result (List Json) × Db → Result Json × Db
first_row e (err f, db) = (err f, db)
first_row e (ok [], db) = (err e, db)
first_row e (ok (row ∷ rows), db) = (ok row, db)
