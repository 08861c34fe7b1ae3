-- ===== src/Db/Query/Columns.antt =====
-- The columns that the statements name, against those of the table.
use shaperail.Prelude.{
  format, join, String, List, [], ◌∷◌, ◌++◌, Bool, true, false, not, ◌&&◌, map, keys, contains,
  contains_key, contains-keys, In→contains, contains→In, All, In, if◌then◌else◌, Bool-cases, inl,
  inr, ◌⊎◌, ◌↔◌, ◌≡◌, refl, ap, sym, subst, ◌∙◌, arith,
}
use shaperail.Core.Json.{Map}
use shaperail.Core.Schema.{FieldSchema}
use shaperail.Core.Resource.{ResourceDefinition}
use shaperail.Db.Query.{Libraries, quoted, columns, select_columns, primary_key, has_soft_delete}
use shaperail.Db.Query.Read.{find_statement}
use shaperail.Db.Query.Write.{insert_columns}
use shaperail.Db.Query.Create.{Dialect, field_columns, table_columns}
use shaperail.Db.Query.Inserted.{written, insert_columns-written}

abbrev pub AreDistinct : List String → Type 0
AreDistinct [] = Unit
AreDistinct (x ∷ xs) = (contains xs x ≡ false) × AreDistinct xs

infix 4 ◌⊆◌
abbrev pub ◌⊆◌ : List String → List String → Type 0
xs ⊆ ys = (s : String) → In s xs → In s ys

abbrev pub IsPersisted : String × FieldSchema → Type 0
IsPersisted (name, field) = field.transient ≡ false

In-left : (s : String) (xs ys : List String) → In s xs → In s (xs ++ ys)
In-left s [] ys h = absurd h
In-left s (x ∷ xs) ys h = ground (arith, In-left s xs ys)

In-map : (f : String → String) (s : String) (xs : List String) → In s xs → In (f s) (map f xs)
In-map f s [] h = absurd h
In-map f s (x ∷ xs) (inl e) = inl (ap f e)
In-map f s (x ∷ xs) (inr h) = inr (In-map f s xs h)

map-subset : (f : String → String) (xs ys : List String) → xs ⊆ ys → map f xs ⊆ map f ys
map-subset f [] ys h s i = absurd i
map-subset f (x ∷ xs) ys h s (inl e) =
    subst (λ t. In t (map f ys)) (sym e) (In-map f x ys (h x (inl refl)))
map-subset f (x ∷ xs) ys h s (inr i) = map-subset f xs ys (λ t j. h t (inr j)) s i

In-right : (s : String) (xs ys : List String) → In s ys → In s (xs ++ ys)
In-right s [] ys h = h
In-right s (x ∷ xs) ys h = inr (In-right s xs ys h)

In-append : (s : String) (xs ys : List String) → In s (xs ++ ys) → In s xs ⊎ In s ys
In-append s [] ys h = inr h
In-append s (x ∷ xs) ys h = ground (arith, In-append s xs ys)

keys-append : (xs ys : List (String × String)) → keys (xs ++ ys) ≡ keys xs ++ keys ys
keys-append [] ys = refl
keys-append ((k, v) ∷ xs) ys = ap (◌∷◌ k) (keys-append xs ys)

module _ (lib : Libraries) (d : Dialect) where
  abbrev column_names : List (String × FieldSchema) → List String
  column_names schema = keys (field_columns lib d schema)

  column_names-contains :
      (schema : List (String × FieldSchema)) (s : String)
      → contains (keys schema) s ≡ false
      → contains (column_names schema) s ≡ false
  unfolding field_columns
  column_names-contains [] s h = refl
  column_names-contains ((name, field) ∷ schema) s h =
      ground (arith, column_names-contains schema s)

  written-In :
      (sent : List String) (schema : List (String × FieldSchema)) (s : String)
      → In s (keys (written sent schema))
      → In s (column_names schema)
  unfolding field_columns
  written-In sent [] s h = absurd h
  written-In sent ((name, field) ∷ schema) s h = ground (arith, written-In sent schema s)

  column_names_persisted :
      (schema : List (String × FieldSchema))
      → All IsPersisted schema
      → column_names schema ≡ keys schema
  unfolding field_columns
  column_names_persisted [] h = refl
  column_names_persisted ((name, field) ∷ schema) (p, h) =
      rw p (ap (◌∷◌ name) (column_names_persisted schema h))

  -- A member of the columns, by whether the first field is transient.
  named_column :
      (name : String) (field : FieldSchema) (schema : List (String × FieldSchema)) (s : String)
      {b : Bool}
      → field.transient ≡ b
      → In s (column_names ((name, field) ∷ schema))
      → In s (if b then column_names schema else name ∷ column_names schema)
  unfolding field_columns
  named_column name field schema s {b = true} e h = ground arith
  named_column name field schema s {b = false} e h = ground arith

  -- Without two fields of one name, a transient one is in no column.
  column_names_all :
      (schema : List (String × FieldSchema))
      → AreDistinct (keys schema)
      → keys schema ⊆ column_names schema
      → All IsPersisted schema
  unfolding field_columns
  column_names_all [] h f = tt
  column_names_all ((name, field) ∷ schema) (new, h) f = elim (Bool-cases field.transient) [
    | inl e ↦ absurd (
        ground (
          arith,
          In→contains (column_names schema) name
              (named_column name field schema name e (f name (inl refl))),
          column_names-contains schema name new,
        ))
    | inr e ↦ (
      e,
      column_names_all schema h
          (λ s i. rest s i (named_column name field schema s e (f s (inr i)))),
    )
  ]
    where
      rest :
          (s : String)
          → In s (keys schema)
          → (s ≡ name) ⊎ In s (column_names schema)
          → In s (column_names schema)
      rest s i (inl same) =
          absurd
            (ground (arith, In→contains (keys schema) s i, new, ap (contains (keys schema)) same))
      rest s i (inr j) = j

  -- The column that soft deletion adds.
  abbrev later_columns : ResourceDefinition → List String
  later_columns r =
      if has_soft_delete r && not (contains_key "deleted_at" r.schema)
      then "deleted_at" ∷ []
      else []

  table_columns-deleted_at :
      (r : ResourceDefinition)
      → keys (table_columns lib d r) ≡ column_names r.schema ++ later_columns r
  unfolding table_columns
  table_columns-deleted_at r =
      elim (Bool-cases (has_soft_delete r && not (contains_key "deleted_at" r.schema))) [
        | inl e ↦ rw e (keys-append (field_columns lib d r.schema) (("deleted_at", _) ∷ []))
        | inr e ↦ rw e (keys-append (field_columns lib d r.schema) [])
      ]

  -- Whatever the body and the engine, each column that an insert writes is a column of the table that is created.
  pub insert_columns-table_columns :
      (r : ResourceDefinition) (body : Map)
      → (insert_columns lib body r.schema 1).columns ⊆ map quoted (keys (table_columns lib d r))
  insert_columns-table_columns r body s h =
      subst (λ l. In s l) (ap (map quoted) (sym (table_columns-deleted_at r)))
        (map-subset quoted (keys (written (keys body) r.schema))
          (column_names r.schema ++ later_columns r)
          (λ t i.
            In-left t (column_names r.schema) (later_columns r)
              (written-In (keys body) r.schema t i))
          s (subst (In s) (insert_columns-written lib body r.schema 1).0 h))

  new_column : (r : ResourceDefinition) (s : String) → In s (columns r) → In s (later_columns r) → ⊥
  new_column r s i j =
      elim (Bool-cases (has_soft_delete r && not (contains_key "deleted_at" r.schema))) [
        | inl e ↦
            let same =
              only_deleted s (subst (λ b. In s (if b then "deleted_at" ∷ [] else [])) e j) in
            ground (
              arith,
              e,
              ap (contains (columns r)) same,
              In→contains (columns r) s i,
              contains-keys "deleted_at" r.schema,
            )
        | inr e ↦ subst (λ b. In s (if b then "deleted_at" ∷ [] else [])) e j
      ]
    where
      only_deleted : (s : String) → (s ≡ "deleted_at") ⊎ ⊥ → s ≡ "deleted_at"
      only_deleted s (inl e) = e
      only_deleted s (inr e) = absurd e

  own_column :
      (r : ResourceDefinition) (s : String)
      → In s (columns r)
      → In s (column_names r.schema) ⊎ In s (later_columns r)
      → In s (column_names r.schema)
  own_column r s i (inl j) = j
  own_column r s i (inr j) = absurd (new_column r s i j)

  deleted_column :
      (r : ResourceDefinition)
      → has_soft_delete r ≡ true
      → In "deleted_at" (columns r ++ later_columns r)
  deleted_column r live = elim (Bool-cases (contains_key "deleted_at" r.schema)) [
    | inl e ↦
        In-left "deleted_at" (columns r) (later_columns r)
          (contains→In (columns r) "deleted_at" (contains-keys "deleted_at" r.schema ∙ e))
    | inr e ↦ In-right "deleted_at" (columns r) (later_columns r) (rw (live, e) (inl refl))
  ]

  -- The text that reads a row by its id: it selects the fields, and tests that a row is not deleted where
  -- the resource soft deletes.
  abbrev pub Reads : ResourceDefinition → String → Type 0
  Reads r sql =
      sql
      ≡ format (
          "SELECT "
          ∷ join ", " (map quoted (keys r.schema))
          ∷ " FROM "
          ∷ quoted r.resource
          ∷ " WHERE "
          ∷ quoted (primary_key r)
          ∷ " = $1"
          ∷ (if has_soft_delete r then " AND \"deleted_at\" IS NULL" else "")
          ∷ [])

  abbrev pub tested : ResourceDefinition → List String
  tested r = if has_soft_delete r then "deleted_at" ∷ [] else []

  tested_column :
      (r : ResourceDefinition) (s : String) → In s (tested r) → In s (columns r ++ later_columns r)
  tested_column r s i = elim (Bool-cases (has_soft_delete r)) [
    | inl e ↦ at e (subst (λ b. In s (if b then "deleted_at" ∷ [] else [])) e i)
    | inr e ↦ absurd (subst (λ b. In s (if b then "deleted_at" ∷ [] else [])) e i)
  ]
    where
      at : has_soft_delete r ≡ true → (s ≡ "deleted_at") ⊎ ⊥ → In s (columns r ++ later_columns r)
      at e (inl same) =
          subst (λ t. In t (columns r ++ later_columns r)) (sym same) (deleted_column r e)
      at e (inr j) = absurd j

  -- The statement that reads a row by its id selects the columns of the fields, and tests `deleted_at`
  -- where the resource soft deletes. These are all columns of the table that is created exactly where no
  -- field is transient; on the condition that no two fields have one name. (Nothing is said of the
  -- column of the primary key that it compares.)
  pub select_columns-IsPersisted_iff :
      (r : ResourceDefinition) (id : String)
      → AreDistinct (keys r.schema)
      → Reads r (find_statement r id).sql
        × (((keys r.schema ++ tested r) ⊆ keys (table_columns lib d r)) ↔ All IsPersisted r.schema)
  unfolding find_statement select_columns
  select_columns-IsPersisted_iff r id h = (
    refl,
    (
      λ all. column_names_all r.schema h (λ s i. own_column r s i (
          In-append s (column_names r.schema) (later_columns r) (
            subst (In s) (table_columns-deleted_at r)
              (all s (In-left s (columns r) (tested r) i))))),
      λ persisted.
          rw (table_columns-deleted_at r, column_names_persisted r.schema persisted)
            (λ s i. elim (In-append s (columns r) (tested r) i) [
              | inl j ↦ In-left s (columns r) (later_columns r) j
              | inr j ↦ tested_column r s j
            ]),
    ),
  )
