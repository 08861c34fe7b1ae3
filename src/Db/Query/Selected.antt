-- ===== src/Db/Query/Selected.antt =====
-- The statements of `find_all`.
use Prim.Native.String as Str
use text.Mathlib.TextLemmas.{append-nil, append_assoc}
use mathlib.Core.List as L
use shaperail.Prelude.{
  ℕ, ◌+◌, String, List, [], ◌∷◌, ◌++◌, Option, none, some, Bool, true, not, format, join, map,
  decimal, is_empty, length, length-append, length-map, if◌then◌else◌, Bool-cases, inl, inr, ◌≡◌,
  refl, ap, sym, ◌∙◌, arith,
}
use shaperail.Prelude.Int.{ℤ, suc_ℤ, show_ℤ}
use shaperail.Core.Resource.{ResourceDefinition}
use shaperail.Db.Filter.{FilterParam, FilterSet}
use shaperail.Db.Filter.Clauses.{tests, lead, apply_to_sql-tests}
use shaperail.Db.Search as Search
use shaperail.Db.Search.{SearchParam, coalesced}
use shaperail.Db.Sort as Sort
use shaperail.Db.Sort.{SortParam}
use shaperail.Db.Query.{
  BindValue, Statement, text_value, uuid_value, Libraries, quoted, has_soft_delete,
}
use shaperail.Db.Query.Read.{
  Growing, filter_bind, exclude_deleted, add_filters, add_search, add_after, narrowed, select_from,
  cursor_order, cursor_statement, count_statement, offset_statement,
}
use shaperail.Db.Query.Clauses.{where_clause, where_clause-append}

abbrev numbered_test : FilterParam → ℕ → String
numbered_test f n = format ("\"" ∷ f.field ∷ "\" = $" ∷ decimal n ∷ [])

abbrev pub search_test : SearchParam → ℕ → String
search_test sp n = format (
    "to_tsvector('english', "
    ∷ join " || ' ' || " (map coalesced sp.fields)
    ∷ ") @@ plainto_tsquery('english', $"
    ∷ decimal n
    ∷ ")"
    ∷ [])

abbrev pub after_test : ℕ → String
after_test n = format ("\"id\" > $" ∷ decimal n ∷ [])

-- The conditions of a list request, each against the next placeholder: that a row is not deleted, the
-- filters, the search, and the place after which the page starts.
abbrev pub live_conditions : ResourceDefinition → List String
live_conditions r = if has_soft_delete r then "\"deleted_at\" IS NULL" ∷ [] else []

abbrev pub search_conditions : Option SearchParam → ℕ → List String
search_conditions none n = []
search_conditions (some sp) n = search_test sp n ∷ []

abbrev pub after_conditions : Option String → ℕ → List String
after_conditions none n = []
after_conditions (some id) n = after_test n ∷ []

abbrev pub search_binds : Option SearchParam → List BindValue
search_binds none = []
search_binds (some sp) = text_value sp.term ∷ []

abbrev pub after_binds : Option String → List BindValue
after_binds none = []
after_binds (some id) = uuid_value id ∷ []

-- A statement that grew from a text by conditions and bindings.
abbrev IsGrown : String → List String → List BindValue → Growing → Type 0
IsGrown base cs bs s =
    (s.sql ≡ Str.◌++◌ base (where_clause cs))
    × (s.has_where ≡ not (is_empty cs))
    × (s.next ≡ 1 + length bs)
    × (s.binds ≡ bs)

grown_text :
    (base text : String) (has_where : Bool) (cs : List String) (d : String) (ds : List String)
    → text ≡ Str.◌++◌ base (where_clause cs)
    → has_where ≡ not (is_empty cs)
    → Str.◌++◌ text (Str.◌++◌ (lead has_where) (join " AND " (d ∷ ds)))
      ≡ Str.◌++◌ base (where_clause (cs ++ (d ∷ ds)))
grown_text base text has_where cs d ds e w =
    rw (e, w, append_assoc, where_clause-append cs d ds) refl

never_empty :
    (cs : List String) (d : String) (ds : List String) → true ≡ not (is_empty (cs ++ (d ∷ ds)))
never_empty [] d ds = refl
never_empty (c ∷ cs) d ds = refl

-- A statement that selects from the table by conditions, with those values bound.
abbrev pub Narrows : String → List String → List BindValue → Statement → (String → String) → Type 0
Narrows head cs bs s ending = (s.sql ≡ ending (Str.◌++◌ head (where_clause cs))) × (s.binds ≡ bs)

abbrev pub limited : ℤ → String → String
limited limit text = format (text ∷ " LIMIT " ∷ show_ℤ limit ∷ [])

module _ (lib : Libraries) (r : ResourceDefinition) where
  exclude_deleted-IsGrown :
      (base : String) → IsGrown base (live_conditions r) [] (exclude_deleted r base)
  exclude_deleted-IsGrown base = elim (Bool-cases (has_soft_delete r)) [
    | inl e ↦ rw e (refl, refl, refl, refl)
    | inr e ↦ rw e (sym (append-nil base), refl, refl, refl)
  ]

  add_filters-IsGrown :
      (filters : FilterSet) (base : String) (cs : List String) (bs : List BindValue) (s : Growing)
      → IsGrown base cs bs s
      → IsGrown base
          (cs ++ tests filters (1 + length bs))
          (bs ++ map (filter_bind lib r) filters)
          (add_filters lib r filters s)
  add_filters-IsGrown [] base cs bs s h = rw (L.append-nil cs, L.append-nil bs) h
  add_filters-IsGrown (f ∷ fs) base cs bs s (sql, has, at, binds) =
      let (next, text) = apply_to_sql-tests (f ∷ fs) s.sql s.has_where s.next in
      elim text [
        | inl (e, _) ↦ cc
        | inr e ↦ (
          e
              ∙ grown_text base s.sql s.has_where cs (numbered_test f s.next)
                  (tests fs (s.next + 1)) sql has
              ∙ ap (λ n. Str.◌++◌ base (where_clause (cs ++ tests (f ∷ fs) n))) at,
          never_empty cs (numbered_test f (1 + length bs)) (tests fs (1 + length bs + 1)),
          next
              ∙ omega (
                arith,
                at,
                length-append bs (map (filter_bind lib r) (f ∷ fs)),
                length-map (filter_bind lib r) fs,
              ),
          ap (λ l. l ++ map (filter_bind lib r) (f ∷ fs)) binds,
        )
      ]

  add_search-IsGrown :
      (search : Option SearchParam) (base : String) (cs : List String) (bs : List BindValue)
      (s : Growing)
      → IsGrown base cs bs s
      → IsGrown base
          (cs ++ search_conditions search (1 + length bs))
          (bs ++ search_binds search)
          (add_search lib r search s)
  unfolding Search.apply_to_sql
  add_search-IsGrown none base cs bs s h = rw (L.append-nil cs, L.append-nil bs) h
  add_search-IsGrown (some sp) base cs bs s (sql, has, at, binds) = (
    grown_text base s.sql s.has_where cs (search_test sp s.next) [] sql has
        ∙ ap (λ n. Str.◌++◌ base (where_clause (cs ++ (search_test sp n ∷ [])))) at,
    never_empty cs (search_test sp (1 + length bs)) [],
    omega (arith, at, length-append bs (text_value sp.term ∷ [])),
    ap (λ l. l ++ (text_value sp.term ∷ [])) binds,
  )

  add_after-IsGrown :
      (after : Option String) (base : String) (cs : List String) (bs : List BindValue) (s : Growing)
      → IsGrown base cs bs s
      → ((add_after lib r after s).sql
          ≡ Str.◌++◌ base (where_clause (cs ++ after_conditions after (1 + length bs))))
        × ((add_after lib r after s).binds ≡ bs ++ after_binds after)
  add_after-IsGrown none base cs bs s (sql, has, at, binds) =
      rw (L.append-nil cs, L.append-nil bs) (sql, binds)
  add_after-IsGrown (some id) base cs bs s (sql, has, at, binds) = (
    grown_text base s.sql s.has_where cs (after_test s.next) [] sql has
        ∙ ap (λ n. Str.◌++◌ base (where_clause (cs ++ (after_test n ∷ [])))) at,
    ap (λ l. l ++ (uuid_value id ∷ [])) binds,
  )

  -- The conditions of a request, and the values bound to their placeholders.
  abbrev pub conditions : FilterSet → Option SearchParam → List String
  conditions filters search =
      (live_conditions r ++ tests filters 1) ++ search_conditions search (1 + length filters)

  abbrev pub bound_values : FilterSet → Option SearchParam → List BindValue
  bound_values filters search = map (filter_bind lib r) filters ++ search_binds search

  narrowed-IsGrown :
      (filters : FilterSet) (search : Option SearchParam) (base : String)
      → IsGrown base
          (conditions filters search)
          (bound_values filters search)
          (narrowed lib r filters search base)
  unfolding narrowed
  narrowed-IsGrown filters search base = rw (sym (length-map (filter_bind lib r) filters)) (
      add_search-IsGrown search base (live_conditions r ++ tests filters 1)
        (map (filter_bind lib r) filters) (add_filters lib r filters (exclude_deleted r base))
        (add_filters-IsGrown filters base (live_conditions r) [] (exclude_deleted r base)
          (exclude_deleted-IsGrown base)))

  -- The statements of a list request have one WHERE clause, which joins the conditions of the request by
  -- AND, and the values bound are those of the filters, of the search and of the cursor, in the order of
  -- their placeholders. A page of offsets and the count of its total have the same conditions and values; a page
  -- after a cursor has one condition more, and asks for one row more than its limit.
  pub list_statements-conditions :
      (filters : FilterSet) (search : Option SearchParam) (sort : SortParam) (after : Option String)
      (skipped limit : ℤ)
      → Narrows
          (select_from r)
          (conditions filters search
            ++ after_conditions after (1 + length (bound_values filters search)))
          (bound_values filters search ++ after_binds after)
          (cursor_statement lib r filters search sort after limit)
          (λ text. limited (suc_ℤ limit) (cursor_order sort text))
        × Narrows
            (format ("SELECT COUNT(*) FROM " ∷ quoted r.resource ∷ []))
            (conditions filters search)
            (bound_values filters search)
            (count_statement lib r filters search)
            (λ text. text)
        × Narrows
            (select_from r)
            (conditions filters search)
            (bound_values filters search)
            (offset_statement lib r filters search sort skipped limit)
            (λ text. format (
              Sort.apply_to_sql sort text
              ∷ " LIMIT "
              ∷ show_ℤ limit
              ∷ " OFFSET "
              ∷ show_ℤ skipped
              ∷ []))
  unfolding cursor_statement count_statement offset_statement
  list_statements-conditions filters search sort after skipped limit =
      let grown = narrowed-IsGrown filters search in
      let selected = grown (select_from r) in
      let paged =
        add_after-IsGrown after (select_from r) (conditions filters search)
          (bound_values filters search) (narrowed lib r filters search (select_from r)) selected in
      let counted = grown (format ("SELECT COUNT(*) FROM " ∷ quoted r.resource ∷ [])) in
      (
        (ap (λ t. limited (suc_ℤ limit) (cursor_order sort t)) paged.0, paged.1),
        (counted.0, counted.3),
        (
          ap
              (λ t. format (
                Sort.apply_to_sql sort t
                ∷ " LIMIT "
                ∷ show_ℤ limit
                ∷ " OFFSET "
                ∷ show_ℤ skipped
                ∷ []))
              selected.0,
          selected.3,
        ),
      )
