-- ===== src/Db/Search.antt =====
-- shaperail-runtime/src/db/search.rs: the full-text search parameter.
use shaperail.Prelude.{
  ℕ, ◌+◌, String, List, [], ◌∷◌, Option, none, some, Bool, ◌||◌, is_empty, format, decimal, trim,
  if◌then◌else◌, ◌==◌, map, join,
}

pub record SearchParam : Type 0 where
  pub term : String
  pub fields : List String

unfoldable pub new : String → List String → Option SearchParam
new term fields =
    if trim term == "" || is_empty fields
    then none
    else some (record { term = trim term; fields = fields })

abbrev pub coalesced : String → String
coalesced f = format ("COALESCE(\"" ∷ f ∷ "\", '')" ∷ [])

-- `COALESCE("a", '') || ' ' || COALESCE("b", '')`
unfoldable pub apply_to_sql : SearchParam → String → Bool → ℕ → String × ℕ
apply_to_sql search sql has_where param_offset = (
  format (
      sql
      ∷ (if has_where then " AND " else " WHERE ")
      ∷ "to_tsvector('english', "
      ∷ join " || ' ' || " (map coalesced search.fields)
      ∷ ") @@ plainto_tsquery('english', $"
      ∷ decimal param_offset
      ∷ ")"
      ∷ []),
  param_offset + 1,
)
