-- ===== src/Db/Filter.antt =====
-- shaperail-runtime/src/db/filter.rs: filters from `?filter[field]=value`, and their WHERE clause.
pub mod Clauses
use shaperail.Prelude.{
  ℕ, ◌+◌, String, List, [], ◌∷◌, ◌++◌, Option, none, some, Bool, true, contains, and_then, format,
  decimal, strip_prefix, strip_last, if◌then◌else◌,
}

pub record FilterParam : Type 0 where
  pub field : String
  pub value : String

abbrev pub FilterSet : Type 0
FilterSet = List FilterParam

-- `key.strip_prefix("filter[").and_then(|s| s.strip_suffix(']'))`
abbrev pub bracketed : String → Option String
bracketed key = and_then (strip_prefix "filter[" key) (strip_last b']')

abbrev pub filter_of : List String → String → Option String → FilterSet
filter_of allowed_fields value none = []
filter_of allowed_fields value (some field) =
    if contains allowed_fields field then record { field = field; value = value } ∷ [] else []

-- The map's entries in the order in which it is walked.
unfoldable pub from_query_params : List (String × String) → List String → FilterSet
from_query_params [] allowed_fields = []
from_query_params ((key, value) ∷ params) allowed_fields =
    filter_of allowed_fields value (bracketed key) ++ from_query_params params allowed_fields

unfoldable pub add : FilterSet → String → String → FilterSet
add filters field value = filters ++ (record { field = field; value = value } ∷ [])

-- One round of the loop of `apply_to_sql`, at index `i`.
clause : FilterParam → ℕ → String
clause f offset = format ("\"" ∷ f.field ∷ "\" = $" ∷ decimal offset ∷ [])

-- The texts pushed, and the next parameter index.
apply_from : FilterSet → Bool → ℕ → String × ℕ
apply_from [] has_where offset = ("", offset)
apply_from (f ∷ fs) has_where offset =
    let (rest, next) = apply_from fs true (offset + 1) in
    (format ((if has_where then " AND " else " WHERE ") ∷ clause f offset ∷ rest ∷ []), next)

unfoldable pub apply_to_sql : FilterSet → String → Bool → ℕ → String × ℕ
unfolding apply_from clause
apply_to_sql filters sql has_where param_offset =
    let (pushed, next) = apply_from filters has_where param_offset in
    (format (sql ∷ pushed ∷ []), next)
