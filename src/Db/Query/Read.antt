-- ===== src/Db/Query/Read.antt =====
-- query.rs: `find_by_id` and `find_all`. A statement is apart from its run.
use shaperail.Prelude.{
  ℕ, String, List, [], ◌∷◌, ◌++◌, Option, none, some, Bool, true, false, format, map, decimal,
  length, and_then, map_option, if◌then◌else◌, not, unwrap_or, last, take,
}
use shaperail.Prelude.Int.{ℤ, pos, negsuc, leb_ℤ, suc_ℤ, show_ℤ}
use shaperail.Core.Json.{Json, null, str, bool, obj, object, field, as_str}
use shaperail.Core.Error.{Result, ok, err, invalid, not_found, ◌>>=◌}
use shaperail.Core.Resource.{ResourceDefinition}
use shaperail.Db.Filter as Filter
use shaperail.Db.Filter.{FilterParam, FilterSet}
use shaperail.Db.Search as Search
use shaperail.Db.Search.{SearchParam}
use shaperail.Db.Sort as Sort
use shaperail.Db.Sort.{SortParam}
use shaperail.Db.Pagination.{PageRequest, cursor_page, offset_page}
use shaperail.Db.Query.{
  BindValue, text_value, uuid_value, Libraries, Pool, Statement, PgRow, quoted, primary_key,
  select_columns, has_soft_delete, coerce_filter_value, execute_query, execute_count, row_to_json,
  integer_json,
}
use shaperail.Db.Query.Cursor.{decode_cursor, encode_cursor}

abbrev pub and_live : ResourceDefinition → String
and_live r = if has_soft_delete r then " AND \"deleted_at\" IS NULL" else ""

unfoldable pub find_statement : ResourceDefinition → String → Statement
find_statement r id = record {
  sql = format (
      "SELECT "
      ∷ select_columns r
      ∷ " FROM "
      ∷ quoted r.resource
      ∷ " WHERE "
      ∷ quoted (primary_key r)
      ∷ " = $1"
      ∷ and_live r
      ∷ []);
  binds = uuid_value id ∷ [];
}

-- A statement that grows: its text, whether it has a WHERE, the next placeholder and the bindings.
pub record Growing : Type 0 where
  pub sql : String
  pub has_where : Bool
  pub next : ℕ
  pub binds : List BindValue

abbrev pub exclude_deleted : ResourceDefinition → String → Growing
exclude_deleted r sql =
    if has_soft_delete r
    then record {
      sql = format (sql ∷ " WHERE \"deleted_at\" IS NULL" ∷ []);
      has_where = true;
      next = 1;
      binds = [];
    }
    else record { sql = sql; has_where = false; next = 1; binds = [] }

-- `take(limit as usize)`: a negative limit becomes more than there are rows.
abbrev pub take_limit : ℤ → List Json → List Json
take_limit (pos n) rows = take n rows
take_limit (negsuc n) rows = rows

abbrev pub rows_exceed : ℤ → List Json → Bool
rows_exceed limit rows = not (leb_ℤ (pos (length rows)) limit)

abbrev pub cursor_meta : Option String → Bool → Json
cursor_meta cursor has_more =
    obj (
      object
        (("cursor", unwrap_or (map_option str cursor) null) ∷ ("has_more", bool has_more) ∷ []))

abbrev offset_meta : (skipped limit total : ℤ) → Json
offset_meta skipped limit total = obj (
    object (
      ("offset", integer_json skipped)
      ∷ ("limit", integer_json limit)
      ∷ ("total", integer_json total)
      ∷ []))

abbrev pub select_from : ResourceDefinition → String
select_from r = format ("SELECT " ∷ select_columns r ∷ " FROM " ∷ quoted r.resource ∷ [])

abbrev pub cursor_order : SortParam → String → String
cursor_order [] sql = format (sql ∷ " ORDER BY \"id\" ASC" ∷ [])
cursor_order (sf ∷ sort) sql = Sort.apply_to_sql (sf ∷ sort) sql

module _ (lib : Libraries) (r : ResourceDefinition) where
  abbrev pub filter_bind : FilterParam → BindValue
  filter_bind f = coerce_filter_value lib r f.field f.value

  abbrev pub add_filters : FilterSet → Growing → Growing
  add_filters [] s = s
  add_filters (f ∷ fs) s =
      let (sql, next) = Filter.apply_to_sql (f ∷ fs) s.sql s.has_where s.next in
      record {
        sql = sql;
        has_where = true;
        next = next;
        binds = s.binds ++ map filter_bind (f ∷ fs);
      }

  abbrev pub add_search : Option SearchParam → Growing → Growing
  add_search none s = s
  add_search (some sp) s =
      let (sql, next) = Search.apply_to_sql sp s.sql s.has_where s.next in
      record {
        sql = sql;
        has_where = true;
        next = next;
        binds = s.binds ++ (text_value sp.term ∷ []);
      }

  abbrev pub add_after : Option String → Growing → Growing
  add_after none s = s
  add_after (some id) s = record {
    sql =
        format (
          s.sql
          ∷ (if s.has_where then " AND " else " WHERE ")
          ∷ "\"id\" > $"
          ∷ decimal s.next
          ∷ []);
    has_where = s.has_where;
    next = s.next;
    binds = s.binds ++ (uuid_value id ∷ []);
  }

  -- What both kinds of page, and the count, put after the table.
  unfoldable pub narrowed : FilterSet → Option SearchParam → String → Growing
  narrowed filters search sql = add_search search (add_filters filters (exclude_deleted r sql))

  unfoldable pub cursor_statement :
      FilterSet → Option SearchParam → SortParam → Option String → ℤ → Statement
  cursor_statement filters search sort after limit =
      let s = add_after after (narrowed filters search (select_from r)) in
      record {
        sql = format (cursor_order sort s.sql ∷ " LIMIT " ∷ show_ℤ (suc_ℤ limit) ∷ []);
        binds = s.binds;
      }

  unfoldable pub count_statement : FilterSet → Option SearchParam → Statement
  count_statement filters search =
      let s = narrowed filters search (format ("SELECT COUNT(*) FROM " ∷ quoted r.resource ∷ [])) in
      record { sql = s.sql; binds = s.binds }

  unfoldable pub offset_statement :
      FilterSet → Option SearchParam → SortParam → (skipped limit : ℤ) → Statement
  offset_statement filters search sort skipped limit =
      let s = narrowed filters search (select_from r) in
      record {
        sql = format (
            Sort.apply_to_sql sort s.sql
            ∷ " LIMIT "
            ∷ show_ℤ limit
            ∷ " OFFSET "
            ∷ show_ℤ skipped
            ∷ []);
        binds = s.binds;
      }

  abbrev parsed_cursor : Option String → Result (Option String)
  parsed_cursor none = err (invalid "cursor" "Invalid cursor value" "invalid_cursor")
  parsed_cursor (some id) = ok (some id)

  unfoldable pub after_id : Option String → Result (Option String)
  after_id none = ok none
  after_id (some cursor) = decode_cursor lib cursor >>= λ text. parsed_cursor (lib.parse_uuid text)

  abbrev pub next_cursor : Bool → List Json → Option String
  next_cursor has_more rows =
      if has_more
      then map_option (encode_cursor lib)
          (and_then (and_then (last rows) (λ v. field v "id")) as_str)
      else none

  unfoldable pub cursor_result : ℤ → List Json → List Json × Json
  cursor_result limit rows =
      let has_more = rows_exceed limit rows in
      let result_rows = take_limit limit rows in
      (result_rows, cursor_meta (next_cursor has_more result_rows) has_more)

  module _ {Db : Type 0} (pool : Pool Db) where
    abbrev found : Option PgRow → Result Json
    found none = err not_found
    found (some row) = row_to_json lib r row

    unfoldable pub find_by_id : String → Db → Result Json
    find_by_id id db = let s = find_statement r id in pool.fetch_optional s.sql s.binds db >>= found

    abbrev selected : Statement → Db → Result (List Json)
    selected s db = (execute_query lib pool r s db).0

    unfoldable pub find_all :
        FilterSet → Option SearchParam → SortParam → PageRequest → Db → Result (List Json × Json)
    find_all filters search sort (cursor_page after limit) db = after_id after >>= λ id.
        selected (cursor_statement filters search sort id limit) db >>= λ rows.
        ok (cursor_result limit rows)
    find_all filters search sort (offset_page skipped limit) db =
        execute_count pool (count_statement filters search) db >>= λ total.
        selected (offset_statement filters search sort skipped limit) db >>= λ rows.
        ok (rows, offset_meta skipped limit total)
