-- ===== src/Db/Pagination.antt =====
-- shaperail-runtime/src/db/pagination.rs: page requests and their SQL.
use shaperail.Prelude.{
  ℕ, ◌+◌, String, [], ◌∷◌, Option, none, some, Bool, format, decimal, unwrap_or, if◌then◌else◌,
}
use shaperail.Prelude.Int.{ℤ, pos, clamp, suc_ℤ, show_ℤ}

pub data PageRequest : Type 0 where
  cursor_page : (after : Option String) (limit : ℤ) → PageRequest
  offset_page : (skipped limit : ℤ) → PageRequest

abbrev pub default_limit : ℤ
default_limit = pos 25

abbrev pub max_limit : ℤ
max_limit = pos 100

unfoldable pub clamped_limit : Option ℤ → ℤ
clamped_limit limit = clamp (unwrap_or limit default_limit) (pos 1) max_limit

abbrev after_clause : Bool → Option String → ℕ → String × ℕ
after_clause has_where none offset = ("", offset)
after_clause has_where (some cursor) offset = (
  format ((if has_where then " AND " else " WHERE ") ∷ "\"id\" > $" ∷ decimal offset ∷ []),
  offset + 1,
)

unfoldable pub apply_cursor_to_sql : PageRequest → String → Bool → ℕ → String × ℕ
apply_cursor_to_sql (cursor_page after limit) sql has_where param_offset =
    let (test, offset) = after_clause has_where after param_offset in
    (format (sql ∷ test ∷ " ORDER BY \"id\" ASC" ∷ " LIMIT " ∷ show_ℤ (suc_ℤ limit) ∷ []), offset)
apply_cursor_to_sql (offset_page skipped limit) sql has_where param_offset =
    (format (sql ∷ " LIMIT " ∷ show_ℤ limit ∷ " OFFSET " ∷ show_ℤ skipped ∷ []), param_offset)
