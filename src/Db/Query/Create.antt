-- ===== src/Db/Query/Create.antt =====
-- query.rs: `CREATE TABLE` for the engines. The three functions of the source differ in the parts that
-- `Dialect` names.
use shaperail.Prelude.{
  ℕ, ◌+◌, String, List, [], ◌∷◌, ◌++◌, Option, none, some, Bool, not, format, join, map, decimal,
  contains_key, split_once, map_option, unwrap_or, and_then, if◌then◌else◌, ◌&&◌,
}
use shaperail.Core.Json.{Json, null, bool, num, str, arr, obj, as_u64}
use shaperail.Core.Schema.{
  FieldSchema, FieldType, ItemsSpec, uuid, string, integer, number, boolean, timestamp, date, enum,
  json, array, file, is_type,
}
use shaperail.Core.Resource.{ResourceDefinition, IndexSpec}
use shaperail.Db.Query.{Libraries, quoted, has_soft_delete}

abbrev sized : Option Json → String
sized max =
    unwrap_or (map_option (λ n. format ("VARCHAR(" ∷ decimal n ∷ ")" ∷ [])) (and_then max as_u64))
      "TEXT"

abbrev item_sql : FieldType → String
item_sql integer = "BIGINT"
item_sql number = "DOUBLE PRECISION"
item_sql boolean = "BOOLEAN"
item_sql timestamp = "TIMESTAMPTZ"
item_sql date = "DATE"
item_sql uuid = "UUID"
item_sql _ = "TEXT"

abbrev array_sql : Option ItemsSpec → String
array_sql none = "TEXT[]"
array_sql (some items) = format (item_sql items.field_type ∷ "[]" ∷ [])

abbrev typed_sql : FieldType → FieldSchema → String
typed_sql uuid field = "UUID"
typed_sql string field = sized field.max
typed_sql integer field = "BIGINT"
typed_sql number field = "NUMERIC"
typed_sql boolean field = "BOOLEAN"
typed_sql timestamp field = "TIMESTAMPTZ"
typed_sql date field = "DATE"
typed_sql enum field = "TEXT"
typed_sql json field = "JSONB"
typed_sql array field = array_sql field.items
typed_sql file field = "TEXT"

unfoldable pub field_type_to_sql : FieldSchema → String
field_type_to_sql field = typed_sql field.field_type field

abbrev typed_sql_mysql : FieldType → FieldSchema → String
typed_sql_mysql uuid field = "CHAR(36)"
typed_sql_mysql string field = sized field.max
typed_sql_mysql integer field = "BIGINT"
typed_sql_mysql number field = "DECIMAL(65,30)"
typed_sql_mysql boolean field = "BOOLEAN"
typed_sql_mysql timestamp field = "DATETIME(6)"
typed_sql_mysql date field = "DATE"
typed_sql_mysql enum field = "VARCHAR(255)"
typed_sql_mysql json field = "JSON"
typed_sql_mysql array field = "JSON"
typed_sql_mysql file field = "TEXT"

unfoldable pub field_type_to_sql_mysql : FieldSchema → String
field_type_to_sql_mysql field = typed_sql_mysql field.field_type field

abbrev typed_sql_sqlite : FieldType → FieldSchema → String
typed_sql_sqlite string field = sized field.max
typed_sql_sqlite integer field = "INTEGER"
typed_sql_sqlite number field = "REAL"
typed_sql_sqlite boolean field = "INTEGER"
typed_sql_sqlite _ field = "TEXT"

unfoldable pub field_type_to_sql_sqlite : FieldSchema → String
field_type_to_sql_sqlite field = typed_sql_sqlite field.field_type field

pub record Dialect : Type 0 where
  pub quote : String → String
  pub quote_constraint : String → String
  pub field_type : FieldSchema → String
  pub uuid_default : String
  pub timestamp_default : String
  pub date_default : String
  pub deleted_at : String
  pub create_index : String

abbrev backticked : String → String
backticked s = format ("`" ∷ s ∷ "`" ∷ [])

abbrev pub postgres : Dialect
postgres = record {
  quote = quoted;
  quote_constraint = quoted;
  field_type = field_type_to_sql;
  uuid_default = " DEFAULT gen_random_uuid()";
  timestamp_default = " DEFAULT NOW()";
  date_default = " DEFAULT CURRENT_DATE";
  deleted_at = "TIMESTAMPTZ";
  create_index = "INDEX IF NOT EXISTS ";
}

abbrev pub mysql : Dialect
mysql = record {
  quote = backticked;
  quote_constraint = λ s. s;
  field_type = field_type_to_sql_mysql;
  uuid_default = " DEFAULT (UUID())";
  timestamp_default = " DEFAULT (CURRENT_TIMESTAMP)";
  date_default = " DEFAULT (CURDATE())";
  deleted_at = "DATETIME";
  create_index = "INDEX ";
}

abbrev pub sqlite : Dialect
sqlite = record {
  quote = quoted;
  quote_constraint = λ s. s;
  field_type = field_type_to_sql_sqlite;
  uuid_default =
      " DEFAULT (lower(hex(randomblob(4))) || '-' || lower(hex(randomblob(2))) || '-4' || substr(lower(hex(randomblob(2))),2) || '-' || substr('89ab',abs(random()) % 4 + 1, 1) || lower(hex(randomblob(2))) || '-' || lower(hex(randomblob(6))))";
  timestamp_default = " DEFAULT (datetime('now'))";
  date_default = " DEFAULT (date('now'))";
  deleted_at = "TEXT";
  create_index = "INDEX IF NOT EXISTS ";
}

pub data DatabaseEngine : Type 0 where
  postgres_engine mysql_engine sqlite_engine mongodb_engine : DatabaseEngine

abbrev single_quoted : String → String
single_quoted s = format ("'" ∷ s ∷ "'" ∷ [])

module _ (lib : Libraries) where
  unfoldable pub sql_default_value : Json → String
  sql_default_value (str s) = single_quoted s
  sql_default_value (num n) = lib.to_text (num n)
  sql_default_value (bool b) = if b then "TRUE" else "FALSE"
  sql_default_value null = "NULL"
  sql_default_value (arr vs) = single_quoted (lib.to_text (arr vs))
  sql_default_value (obj ms) = single_quoted (lib.to_text (obj ms))

  module _ (d : Dialect) where
    abbrev put : Bool → String → String
    put b text = if b then text else ""

    -- What follows a column's name.
    unfoldable pub column_rest : FieldSchema → String
    column_rest field = format (
        " "
        ∷ d.field_type field
        ∷ put field.primary " PRIMARY KEY"
        ∷ put (field.required && not field.primary && not field.nullable) " NOT NULL"
        ∷ put (field.unique && not field.primary) " UNIQUE"
        ∷ unwrap_or
            (map_option (λ v. format (" DEFAULT " ∷ sql_default_value v ∷ [])) field.default) ""
        ∷ put (is_type field.field_type uuid && field.generated) d.uuid_default
        ∷ put (is_type field.field_type timestamp && field.generated) d.timestamp_default
        ∷ put (is_type field.field_type date && field.generated) d.date_default
        ∷ [])

    -- The columns that are pushed, each with what follows its name.
    unfoldable pub field_columns : List (String × FieldSchema) → List (String × String)
    field_columns [] = []
    field_columns ((name, field) ∷ schema) =
        let rest = field_columns schema in
        if field.transient then rest else (name, column_rest field) ∷ rest

    unfoldable pub table_columns : ResourceDefinition → List (String × String)
    table_columns r =
        field_columns r.schema
        ++ (if has_soft_delete r && not (contains_key "deleted_at" r.schema)
            then ("deleted_at", format (" " ∷ d.deleted_at ∷ [])) ∷ []
            else [])

    abbrev column_text : String × String → String
    column_text (name, rest) = format (d.quote name ∷ rest ∷ [])

    abbrev constraint_name : String → String → String → String
    constraint_name kind table name = d.quote_constraint (format (kind ∷ table ∷ "_" ∷ name ∷ []))

    abbrev check_values : String → String → Option (List String) → List String
    check_values table name none = []
    check_values table name (some values) =
        format (
          "CONSTRAINT "
          ∷ constraint_name "chk_" table name
          ∷ " CHECK ("
          ∷ d.quote name
          ∷ " IN ("
          ∷ join ", " (map single_quoted values)
          ∷ "))"
          ∷ [])
        ∷ []

    abbrev foreign_key : String → String → Option (String × String) → List String
    foreign_key table name none = []
    foreign_key table name (some (ref_table, ref_col)) =
        format (
          "CONSTRAINT "
          ∷ constraint_name "fk_" table name
          ∷ " FOREIGN KEY ("
          ∷ d.quote name
          ∷ ") REFERENCES "
          ∷ d.quote ref_table
          ∷ "("
          ∷ d.quote ref_col
          ∷ ")"
          ∷ [])
        ∷ []

    unfoldable pub constraints : String → List (String × FieldSchema) → List String
    constraints table [] = []
    constraints table ((name, field) ∷ schema) =
        let rest = constraints table schema in
        if field.transient
        then rest
        else (if is_type field.field_type enum then check_values table name field.values else [])
          ++ foreign_key table name (and_then field.reference (split_once b'.'))
          ++ rest

    unfoldable pub index_texts : String → List IndexSpec → ℕ → String
    index_texts table [] i = ""
    index_texts table (idx ∷ indexes) i = format (
        ";\nCREATE "
        ∷ put idx.unique "UNIQUE "
        ∷ d.create_index
        ∷ d.quote_constraint (format ("idx_" ∷ table ∷ "_" ∷ decimal i ∷ []))
        ∷ " ON "
        ∷ d.quote table
        ∷ " ("
        ∷ join ", " (map d.quote idx.fields)
        ∷ unwrap_or (map_option (λ o. format (" " ∷ lib.to_uppercase o ∷ [])) idx.order) ""
        ∷ ")"
        ∷ index_texts table indexes (i + 1)
        ∷ [])

    abbrev constraint_text : List String → String
    constraint_text [] = ""
    constraint_text (c ∷ cs) = format (",\n  " ∷ join ",\n  " (c ∷ cs) ∷ [])

    unfoldable pub build_create_table : ResourceDefinition → String
    build_create_table r = format (
        "CREATE TABLE IF NOT EXISTS "
        ∷ d.quote r.resource
        ∷ " (\n  "
        ∷ join ",\n  " (map column_text (table_columns r))
        ∷ constraint_text (constraints r.resource r.schema)
        ∷ "\n)"
        ∷ index_texts r.resource (unwrap_or r.indexes []) 0
        ∷ [])

  unfoldable pub build_create_table_sql_postgres : ResourceDefinition → String
  build_create_table_sql_postgres r = build_create_table postgres r

  unfoldable pub build_create_table_sql_mysql : ResourceDefinition → String
  build_create_table_sql_mysql r = build_create_table mysql r

  unfoldable pub build_create_table_sql_sqlite : ResourceDefinition → String
  build_create_table_sql_sqlite r = build_create_table sqlite r

  unfoldable pub build_create_table_sql_for_engine : DatabaseEngine → ResourceDefinition → String
  build_create_table_sql_for_engine postgres_engine r = build_create_table_sql_postgres r
  build_create_table_sql_for_engine mysql_engine r = build_create_table_sql_mysql r
  build_create_table_sql_for_engine sqlite_engine r = build_create_table_sql_sqlite r
  build_create_table_sql_for_engine mongodb_engine r = ""

  unfoldable pub build_create_table_sql : ResourceDefinition → String
  build_create_table_sql r = build_create_table_sql_postgres r
