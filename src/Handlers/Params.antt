-- ===== src/Handlers/Params.antt =====
-- shaperail-runtime/src/handlers/params.rs: the parameters of list and item requests, from the decoded
-- query map (its entries in the order in which the map is walked).
pub mod Query
pub mod Accepted
mod Examples
use shaperail.Prelude.{
  String, List, [], ◌∷◌, ◌++◌, Option, none, some, not, ◌==◌, contains, keep, map, keys, lookup,
  and_then, map_option, unwrap_or, is_empty, format, join, split_on, trim, if◌then◌else◌,
}
use shaperail.Prelude.Int.{ℤ, pos, max_ℤ, parse_i64}
use shaperail.Core.Error.{FieldError, Result, finalize}
use shaperail.Core.Endpoint.{EndpointSpec, PaginationStyle, cursor, offset}
use shaperail.Db.Filter
use shaperail.Db.Filter.{FilterSet, bracketed}
use shaperail.Db.Search
use shaperail.Db.Search.{SearchParam}
use shaperail.Db.Sort
use shaperail.Db.Sort.{SortParam}
use shaperail.Db.Pagination.{PageRequest, cursor_page, offset_page, clamped_limit}

abbrev pub QueryMap : Type 0
QueryMap = List (String × String)

pub record ListParams : Type 0 where
  pub filters : FilterSet
  pub search : Option SearchParam
  pub sort : SortParam
  pub page : PageRequest
  pub fields : List String
  pub include : List String

pub record ItemParams : Type 0 where
  pub fields : List String
  pub include : List String

csv_parts : String → List String
csv_parts v = keep (λ s. not (s == "")) (map trim (split_on b',' v))

unfoldable pub parse_csv_param : QueryMap → String → List String
unfolding csv_parts
parse_csv_param params key = unwrap_or (map_option csv_parts (lookup key params)) []

abbrev limit_param : QueryMap → ℤ
limit_param params = clamped_limit (and_then (lookup "limit" params) parse_i64)

parse_page : QueryMap → PaginationStyle → PageRequest
parse_page params cursor = cursor_page (lookup "after" params) (limit_param params)
parse_page params offset =
    offset_page (max_ℤ (unwrap_or (and_then (lookup "offset" params) parse_i64) (pos 0)) (pos 0))
      (limit_param params)

unfoldable pub parse_list_params : QueryMap → EndpointSpec → ListParams
unfolding parse_page
parse_list_params params endpoint = record {
  filters = Filter.from_query_params params (unwrap_or endpoint.filters []);
  search =
      and_then (lookup "search" params) (λ term. Search.new term (unwrap_or endpoint.search []));
  sort =
      unwrap_or
        (map_option (λ raw. Sort.parse raw (unwrap_or endpoint.sort [])) (lookup "sort" params)) [];
  page = parse_page params (unwrap_or endpoint.pagination cursor);
  fields = parse_csv_param params "fields";
  include = parse_csv_param params "include";
}

unfoldable pub parse_item_params : QueryMap → ItemParams
parse_item_params params = record {
  fields = parse_csv_param params "fields";
  include = parse_csv_param params "include";
}

abbrev invalid_form : String → FieldError
invalid_form key = record {
  field = key;
  message =
      format ("filter params use bracket notation; did you mean `?filter[" ∷ key ∷ "]=...`?" ∷ []);
  code = "INVALID_FILTER_FORM";
}

abbrev undeclared : List String → String → FieldError
undeclared allowed field = record {
  field = format ("filter[" ∷ field ∷ "]" ∷ []);
  message =
      if is_empty allowed
      then format ("this endpoint declares no filters; '" ∷ field ∷ "' is not accepted" ∷ [])
      else format (
          "'"
          ∷ field
          ∷ "' is not a declared filter on this endpoint; available filters: "
          ∷ join ", " allowed
          ∷ []);
  code = "UNDECLARED_FILTER";
}

bracket_errors : List String → Option String → List FieldError
bracket_errors allowed none = []
bracket_errors allowed (some field) =
    if not (contains allowed field) then undeclared allowed field ∷ [] else []

key_errors : List String → String → List FieldError
key_errors allowed key =
    if contains allowed key then invalid_form key ∷ [] else bracket_errors allowed (bracketed key)

form_errors : List String → List String → List FieldError
form_errors allowed [] = []
form_errors allowed (key ∷ rest) = key_errors allowed key ++ form_errors allowed rest

unfoldable pub validate_filter_param_form : QueryMap → EndpointSpec → Result (Unit {0})
unfolding form_errors key_errors bracket_errors
validate_filter_param_form params endpoint =
    finalize (form_errors (unwrap_or endpoint.filters []) (keys params))
