-- ===== src/Db/Query/Examples.antt =====
-- query.rs at a small resource: posts with a generated id and time stamps, a title and a transient note.
use shaperail.Prelude.{
  ℕ, ◌+◌, String, List, [], ◌∷◌, ◌++◌, Option, none, some, true, false, format, map, keys, length,
  decimal, byte_char, ◌≡◌, ◌≢◌, ◌⊎◌, ◌↔◌, All, refl, ap, arith,
}
use shaperail.Prelude.Int.{pos, suc_ℤ, show_ℤ}
use shaperail.Core.Json.{Json, Map, null, str, obj, object}
use shaperail.Core.Error.{ok}
use shaperail.Core.Schema.{FieldSchema, FieldType, string, uuid, timestamp}
use shaperail.Core.Resource.{ResourceDefinition}
use shaperail.Db.Base64.{codes}
use shaperail.Db.Base64.Laws.{IsAscii}
use shaperail.Db.Filter.{FilterSet}
use shaperail.Db.Search.{SearchParam}
use shaperail.Db.Sort as Sort
use shaperail.Db.Pagination.{cursor_page}
use shaperail.Db.Query.{
  row_to_json, extract_column_value, Statement, Libraries, Pool, PgRow, failed, got, quoted,
  select_columns, execute_query, has_soft_delete,
}
use shaperail.Db.Query.Cursor.{text_of, encode_cursor}
use shaperail.Db.Query.Read.{
  find_statement, cursor_meta, cursor_result, select_from, cursor_order, cursor_statement,
  count_statement, offset_statement, after_id, find_all,
}
use shaperail.Db.Query.Write.{
  is_stamped, insert_columns, insert_value, insert_statement, update_statement, empty_update,
}
use shaperail.Db.Query.Create.{
  build_create_table_sql, build_create_table_sql_postgres, build_create_table, field_columns,
  column_rest, field_type_to_sql, constraints, index_texts, postgres, table_columns,
}
use shaperail.Db.Query.Inserted.{written, IsInsertOf, insert_statement-written}
use shaperail.Db.Query.Updated.{assigned, settable_members, IsUpdateOf, update_statement-assigned}
use shaperail.Db.Query.Selected.{
  conditions, bound_values, after_conditions, after_binds, Narrows, limited,
  list_statements-conditions,
}
use shaperail.Db.Query.Pages.{IsPageOf, after_id-encode_cursor, find_all-IsPageOf}
use shaperail.Db.Query.Columns.{
  IsPersisted, Reads, tested, ◌⊆◌, insert_columns-table_columns, select_columns-IsPersisted_iff,
}

-- Libraries in which a text has its characters as bytes and each text is a UUID.
abbrev libraries : Libraries
libraries = record {
  parse_uuid = λ s. some s;
  parse_timestamp = λ s. some s;
  parse_date = λ s. some s;
  parse_f64 = λ s. none;
  to_f64 = λ n. 0;
  is_finite = λ b. true;
  to_text = λ v. "value";
  to_uppercase = λ s. s;
  as_bytes = codes;
  from_utf8 = λ bs. some (text_of bs);
  new_v4 = λ n. "fresh";
  now = λ n. "now";
  today = λ n. "today";
}

abbrev plain : FieldType → FieldSchema
plain t = record {
  field_type = t;
  primary = false;
  generated = false;
  required = false;
  unique = false;
  nullable = false;
  reference = none;
  min = none;
  max = none;
  format = none;
  values = none;
  default = none;
  sensitive = false;
  search = false;
  items = none;
  transient = false;
}

abbrev articles : ResourceDefinition
articles = record {
  resource = "articles";
  version = 1;
  db = none;
  tenant_key = none;
  schema =
      ("id", record (plain uuid) { primary = true; generated = true })
      ∷ ("title", plain string)
      ∷ ("note", record (plain string) { transient = true })
      ∷ ("updated_at", record (plain timestamp) { generated = true })
      ∷ [];
  endpoints = none;
  relations = none;
  indexes = none;
}

abbrev posted : Map
posted = ("title", str "x") ∷ ("id", str "mine") ∷ []

insert_text :
    (insert_statement libraries articles posted).sql
    ≡ "INSERT INTO \"articles\" (\"id\", \"title\", \"updated_at\") VALUES ($1, $2, $3) RETURNING \"id\", \"title\", \"note\", \"updated_at\""
unfolding insert_statement insert_columns insert_value select_columns decimal
insert_text = refl

insert_statement-written_example :
    IsInsertOf libraries posted articles
      (written (keys posted) articles.schema)
      (insert_statement libraries articles posted)
insert_statement-written_example = insert_statement-written libraries posted articles

update_statement-assigned_example :
    ((assigned articles (keys posted) ≡ [])
      × (update_statement libraries articles "a1" posted ≡ empty_update))
    ⊎ ((assigned articles (keys posted) ≢ [])
        × ((s : Statement) × (update_statement libraries articles "a1" posted ≡ ok s)
            × IsUpdateOf libraries articles "a1"
                (assigned articles (keys posted))
                (settable_members articles posted)
                s))
update_statement-assigned_example = update_statement-assigned libraries articles "a1" posted

-- The id that is sent is not set.
only_title : assigned articles (keys posted) ≡ "title" ∷ "updated_at" ∷ []
unfolding is_stamped
only_title = refl

abbrev by_title : FilterSet
by_title = record { field = "title"; value = "x" } ∷ []

abbrev for_words : Option SearchParam
for_words = some (record { term = "words"; fields = "title" ∷ [] })

list_statements-conditions_example :
    Narrows
      (select_from articles)
      (conditions libraries articles by_title for_words
        ++ after_conditions
            (some "a1")
            (1 + length (bound_values libraries articles by_title for_words)))
      (bound_values libraries articles by_title for_words ++ after_binds (some "a1"))
      (cursor_statement libraries articles by_title for_words [] (some "a1") (pos 2))
      (λ text. limited (suc_ℤ (pos 2)) (cursor_order [] text))
    × Narrows
        (format ("SELECT COUNT(*) FROM " ∷ quoted articles.resource ∷ []))
        (conditions libraries articles by_title for_words)
        (bound_values libraries articles by_title for_words)
        (count_statement libraries articles by_title for_words)
        (λ text. text)
    × Narrows
        (select_from articles)
        (conditions libraries articles by_title for_words)
        (bound_values libraries articles by_title for_words)
        (offset_statement libraries articles by_title for_words [] (pos 0) (pos 2))
        (λ text. format (
          Sort.apply_to_sql [] text
          ∷ " LIMIT "
          ∷ show_ℤ (pos 2)
          ∷ " OFFSET "
          ∷ show_ℤ (pos 0)
          ∷ []))
list_statements-conditions_example =
    list_statements-conditions libraries articles by_title for_words [] (some "a1") (pos 0) (pos 2)

insert_columns-table_columns_example :
    (insert_columns libraries posted articles.schema 1).columns
    ⊆ map quoted (keys (table_columns libraries postgres articles))
insert_columns-table_columns_example =
    insert_columns-table_columns libraries postgres articles posted

-- The transient note has no column.
select_columns-IsPersisted_iff_example :
    Reads libraries postgres articles (find_statement articles "a1").sql
    × (((keys articles.schema ++ tested libraries postgres articles)
          ⊆ keys (table_columns libraries postgres articles))
        ↔ All IsPersisted articles.schema)
select_columns-IsPersisted_iff_example =
    select_columns-IsPersisted_iff libraries postgres articles "a1"
      (refl, (refl, (refl, (refl, tt))))

-- A row whose texts are its columns' names.
abbrev row : String → PgRow
row id = record {
  get_text = λ c. got (some c);
  get_i64 = λ c. failed "not a number";
  get_f64 = λ c. failed "not a number";
  get_bool = λ c. failed "not a boolean";
  get_uuid = λ c. got (some id);
  get_timestamp = λ c. got none;
  get_date = λ c. got none;
  get_json = λ c. got none;
}

-- A database whose every statement gives two rows.
abbrev two_rows : Pool Unit
two_rows = record {
  fetch_all = λ sql binds db. (ok (row "a1" ∷ row "a2" ∷ []), db);
  fetch_optional = λ sql binds db. ok (some (row "a1"));
  fetch_one = λ sql binds db. ok (pos 2);
}

abbrev article : String → Json
article id = obj (object (("id", str id) ∷ ("title", str "title") ∷ ("updated_at", null) ∷ []))

first_page :
    find_all libraries articles two_rows [] none [] (cursor_page none (pos 1)) tt
    ≡ ok (article "a1" ∷ [], cursor_meta (some (encode_cursor libraries "a1")) true)
unfolding find_all after_id execute_query row_to_json extract_column_value cursor_result
first_page = refl

find_all-IsPageOf_example :
    (id : Option String) × (after_id libraries articles none ≡ ok id)
    × ((read : List Json) × ((execute_query libraries two_rows articles
            (cursor_statement libraries articles [] none [] id (pos 1))
            tt).0
          ≡ ok read)
        × IsPageOf libraries articles read 1
            (article "a1" ∷ [])
            (cursor_meta (some (encode_cursor libraries "a1")) true))
find_all-IsPageOf_example =
    find_all-IsPageOf libraries articles two_rows [] none [] none 1 tt (article "a1" ∷ [])
      (cursor_meta (some (encode_cursor libraries "a1")) true) first_page

codes-text_of : (bs : List ℕ) → All IsAscii bs → codes (text_of bs) ≡ bs
unfolding byte_char
codes-text_of [] h = refl
codes-text_of (b ∷ bs) (p, h) = rw (codes-text_of bs h) (ap (λ c. c ∷ bs) (omega arith))

after_id-encode_cursor_example :
    after_id libraries articles (some (encode_cursor libraries "a1")) ≡ ok (some "a1")
unfolding byte_char
after_id-encode_cursor_example =
    after_id-encode_cursor libraries articles "a1" (omega arith, refl, refl, codes-text_of)

table_text :
    build_create_table_sql libraries articles
    ≡ "CREATE TABLE IF NOT EXISTS \"articles\" (\n  \"id\" UUID PRIMARY KEY DEFAULT gen_random_uuid(),\n  \"title\" TEXT,\n  \"updated_at\" TIMESTAMPTZ DEFAULT NOW()\n)"
unfolding build_create_table_sql build_create_table_sql_postgres build_create_table table_columns
    field_columns column_rest field_type_to_sql constraints index_texts has_soft_delete
table_text = refl
