-- ===== src/Db/Filter/Clauses.antt =====
-- The WHERE clause that filters add.
use Prim.Native.String
use text.Mathlib.TextLemmas.{append-nil}
use shaperail.Prelude.{
  ℕ, ◌+◌, String, List, [], ◌∷◌, ◌++◌, Option, none, some, Bool, true, In, contains, contains→In,
  format, join, decimal, length, if◌then◌else◌, Bool-cases, inl, inr, ◌≡◌, ◌↔◌, ◌⊎◌, refl, subst,
  ap, sym, ◌∙◌, arith,
}
use shaperail.Db.Filter.{
  FilterParam, FilterSet, bracketed, filter_of, from_query_params, clause, apply_from, apply_to_sql,
}

-- The tests of the filters, numbered from an index.
abbrev pub tests : FilterSet → ℕ → List String
tests [] n = []
tests (f ∷ fs) n = format ("\"" ∷ f.field ∷ "\" = $" ∷ decimal n ∷ []) ∷ tests fs (n + 1)

abbrev pub lead : Bool → String
lead has_where = if has_where then " AND " else " WHERE "

apply_from_lem :
    (f : FilterParam) (fs : FilterSet) (has_where : Bool) (n : ℕ)
    → ((apply_from (f ∷ fs) has_where n).0
        ≡ String.◌++◌ (lead has_where) (join " AND " (tests (f ∷ fs) n)))
      × ((apply_from (f ∷ fs) has_where n).1 ≡ n + length (f ∷ fs))
unfolding apply_from clause
apply_from_lem f [] has_where n = (rw (append-nil (clause f n)) refl, omega arith)
apply_from_lem f (g ∷ fs) has_where n =
    let (text, next) = apply_from_lem g fs true (n + 1) in
    (
      rw (text, append-nil (String.◌++◌ " AND " (join " AND " (tests (g ∷ fs) (n + 1))))) refl,
      next ∙ omega arith,
    )

-- The clause is absent without filters; else it is WHERE, or AND after other tests, and the tests of all
-- the filters in order, joined by AND, each against the next placeholder. The index that is returned
-- is the first one that is free.
pub apply_to_sql-tests :
    (filters : FilterSet) (sql : String) (has_where : Bool) (n : ℕ)
    → ((apply_to_sql filters sql has_where n).1 ≡ n + length filters)
      × (((filters ≡ []) × ((apply_to_sql filters sql has_where n).0 ≡ sql))
          ⊎ ((apply_to_sql filters sql has_where n).0
              ≡ String.◌++◌ sql (String.◌++◌ (lead has_where) (join " AND " (tests filters n)))))
unfolding apply_to_sql apply_from
apply_to_sql-tests [] sql has_where n = (omega arith, inl (refl, append-nil sql))
apply_to_sql-tests (f ∷ fs) sql has_where n =
    let (text, next) = apply_from_lem f fs has_where n in
    (
      next,
      inr (
          rw (text, append-nil (String.◌++◌ (lead has_where) (join " AND " (tests (f ∷ fs) n))))
            refl),
    )

In-append : (f : FilterParam) (xs ys : FilterSet) → In f (xs ++ ys) ↔ (In f xs ⊎ In f ys)
In-append f [] ys = ground arith
In-append f (x ∷ xs) ys = ground (arith, In-append f xs ys)

filter_of_lem :
    (allowed : List String) (value : String) (o : Option String) (f : FilterParam)
    → In f (filter_of allowed value o)
    → In f.field allowed × (o ≡ some f.field) × (f.value ≡ value)
filter_of_lem allowed value none f h = absurd h
filter_of_lem allowed value (some k) f h = elim (Bool-cases (contains allowed k)) [
  | inl b ↦
      kept (subst (λ t. In f (if t then record { field = k; value = value } ∷ [] else [])) b h) b
  | inr b ↦
      absurd (subst (λ t. In f (if t then record { field = k; value = value } ∷ [] else [])) b h)
]
  where
    kept :
        (f ≡ record { field = k; value = value }) ⊎ ⊥
        → contains allowed k ≡ true
        → In f.field allowed × (some k ≡ some f.field) × (f.value ≡ value)
    kept (inl e) b =
        let name = ap (λ x. x.field) e in
        (
          subst (λ t. In t allowed) (sym name) (contains→In allowed k b),
          ap some (sym name),
          ap (λ x. x.value) e,
        )
    kept (inr e) b = absurd e

-- Every filter of a query is on an allowed field, and is the value of the parameter of that name in
-- brackets.
pub from_query_params-In :
    (params : List (String × String)) (allowed : List String) (f : FilterParam)
    → In f (from_query_params params allowed)
    → In f.field allowed
      × ((key : String) × In (key, f.value) params × (bracketed key ≡ some f.field))
unfolding from_query_params
from_query_params-In [] allowed f h = absurd h
from_query_params-In ((key, value) ∷ params) allowed f h =
    elim ((In-append f (filter_of allowed value (bracketed key))
        (from_query_params params allowed)).0
      h) [
        | inl here ↦
            let (a, b, c) = filter_of_lem allowed value (bracketed key) f here in
            (a, (key, inl (ap (λ v. (key, v)) c), b))
        | inr there ↦
            let (a, (k, i, b)) = from_query_params-In params allowed f there in (a, (k, inr i, b))
      ]
