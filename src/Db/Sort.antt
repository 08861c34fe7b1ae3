-- ===== src/Db/Sort.antt =====
-- shaperail-runtime/src/db/sort.rs: `?sort=-created_at,name` and the ORDER BY clause.
use shaperail.Prelude.{
  String, List, [], ◌∷◌, ◌++◌, Option, none, some, contains, format, join, map, split_on,
  strip_prefix, trim, if◌then◌else◌, ◌==◌,
}

pub data SortDirection : Type 0 where
  asc desc : SortDirection

abbrev pub show_direction : SortDirection → String
show_direction asc = "ASC"
show_direction desc = "DESC"

pub record SortField : Type 0 where
  pub field : String
  pub direction : SortDirection

abbrev pub SortParam : Type 0
SortParam = List SortField

abbrev allowed_field : List String → String → SortDirection → SortParam
allowed_field allowed_fields name dir =
    if contains allowed_fields name then record { field = name; direction = dir } ∷ [] else []

-- A part with its `-` stripped, or with none.
abbrev signed : List String → String → Option String → SortParam
signed allowed_fields part none = allowed_field allowed_fields part asc
signed allowed_fields part (some name) = allowed_field allowed_fields name desc

sort_part : List String → String → SortParam
sort_part allowed_fields part =
    if part == "" then [] else signed allowed_fields part (strip_prefix "-" part)

parse_parts : List String → List String → SortParam
parse_parts allowed_fields [] = []
parse_parts allowed_fields (part ∷ parts) =
    sort_part allowed_fields (trim part) ++ parse_parts allowed_fields parts

unfoldable pub parse : String → List String → SortParam
unfolding parse_parts sort_part
parse raw allowed_fields = parse_parts allowed_fields (split_on b',' raw)

abbrev ordering : SortField → String
ordering sf = format ("\"" ∷ sf.field ∷ "\" " ∷ show_direction sf.direction ∷ [])

-- The parts are pushed with `", "` before each but the first.
unfoldable pub apply_to_sql : SortParam → String → String
apply_to_sql [] sql = sql
apply_to_sql (sf ∷ fields) sql =
    format (sql ∷ " ORDER BY " ∷ join ", " (map ordering (sf ∷ fields)) ∷ [])
