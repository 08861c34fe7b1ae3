-- ===== src/Db/Query/Inserted.antt =====
-- The statement of `insert`.
use shaperail.Prelude.{
  ℕ, zero, suc, ◌+◌, String, List, [], ◌∷◌, Option, none, some, Bool, true, false, not, ◌&&◌, ◌||◌,
  format, join, map, lookup, keys, keep, contains, contains-keys, length, is_some, if◌then◌else◌,
  Option-cases, Bool-cases, inl, inr, ◌⊎◌, ◌≡◌, refl, ap, sym, arith,
}
use shaperail.Core.Json.{Json, Map}
use shaperail.Core.Schema.{FieldSchema, uuid, timestamp, is_type}
use shaperail.Core.Resource.{ResourceDefinition}
use shaperail.Db.Query.{
  BindValue, Statement, uuid_value, timestamp_value, Libraries, quoted, select_columns,
  json_to_bind,
}
use shaperail.Db.Query.Write.{
  push_column, placeholder, supplied_value, insert_value, insert_columns, insert_statement,
}

-- What `insert` writes: no transient field, of the generated ones the UUIDs and timestamps, and of the
-- others those that the body has or that have a default.
abbrev pub is_written : List String → String × FieldSchema → Bool
is_written sent (name, field) =
    not field.transient
    && (if field.generated
        then is_type field.field_type uuid || is_type field.field_type timestamp
        else contains sent name || is_some field.default)

abbrev pub written : List String → List (String × FieldSchema) → List (String × FieldSchema)
written sent schema = keep (is_written sent) schema

-- So many placeholders from a number on.
abbrev pub numbered : ℕ → ℕ → List String
numbered n zero = []
numbered n (suc k) = placeholder n ∷ numbered (n + 1) k

abbrev pub sent_or_default : Option Json → Option Json → Option Json
sent_or_default none default = default
sent_or_default (some v) default = some v

module _ (lib : Libraries) (body : Map) where
  -- A field's value at a placeholder: where it is generated a new UUID or the time, by its type, else the one
  -- sent, else the default.
  abbrev pub IsValueOf : String × FieldSchema → ℕ → BindValue → Type 0
  IsValueOf (name, field) n b =
      ((field.generated ≡ true)
        × (((field.field_type ≡ uuid) × (b ≡ uuid_value (lib.new_v4 n)))
            ⊎ ((field.field_type ≡ timestamp) × (b ≡ timestamp_value (lib.now n)))))
      ⊎ ((field.generated ≡ false)
          × ((v : Json) × (sent_or_default (lookup name body) field.default ≡ some v)
              × (b ≡ json_to_bind lib v field n)))

  abbrev pub AreValuesOf : List (String × FieldSchema) → ℕ → List BindValue → Type 0
  AreValuesOf [] n bs = bs ≡ []
  AreValuesOf (f ∷ fs) n [] = ⊥
  AreValuesOf (f ∷ fs) n (b ∷ bs) = IsValueOf f n b × AreValuesOf fs (n + 1) bs

  insert_value-is_written :
      (name : String) (field : FieldSchema) (n : ℕ)
      → is_some (insert_value lib body name field n) ≡ is_written (keys body) (name, field)
  unfolding insert_value
  insert_value-is_written name field n = ground (arith, contains-keys name body)

  supplied_value-sent_or_default :
      (sent : Option Json) (field : FieldSchema) (n : ℕ) (b : BindValue)
      → supplied_value lib sent field n ≡ some b
      → (v : Json) × (sent_or_default sent field.default ≡ some v)
        × (b ≡ json_to_bind lib v field n)
  supplied_value-sent_or_default (some v) field n b h = (v, refl, ground arith)
  supplied_value-sent_or_default none field n b h = elim (Option-cases field.default) [
    | inl e ↦ ground (arith, e)
    | inr (v, e) ↦ (v, e, ground (arith, e))
  ]

  insert_value-IsValueOf :
      (name : String) (field : FieldSchema) (n : ℕ) (b : BindValue)
      → insert_value lib body name field n ≡ some b
      → IsValueOf (name, field) n b
  unfolding insert_value
  insert_value-IsValueOf name field n b h = elim (Bool-cases field.generated) [
    | inl e ↦ inl (e, ground arith)
    | inr e ↦ inr (e, supplied_value-sent_or_default (lookup name body) field n b (ground arith))
  ]

  -- One round of the loop, by whether it binds a value.
  round :
      (name : String) (field : FieldSchema) (schema : List (String × FieldSchema)) (n : ℕ)
      {o : Option BindValue}
      → insert_value lib body name field n ≡ o
      → insert_columns lib body ((name, field) ∷ schema) n ≡ (elim o [
        | none ↦ insert_columns lib body schema n
        | some b ↦ push_column name n b (insert_columns lib body schema (n + 1))
      ])
  unfolding insert_columns
  round name field schema n = ap (λ o. elim o [
    | none ↦ insert_columns lib body schema n
    | some b ↦ push_column name n b (insert_columns lib body schema (n + 1))
  ])

  pub insert_columns-written :
      (schema : List (String × FieldSchema)) (n : ℕ)
      → ((insert_columns lib body schema n).columns
          ≡ map quoted (keys (written (keys body) schema)))
        × ((insert_columns lib body schema n).placeholders
            ≡ numbered n (length (written (keys body) schema)))
        × AreValuesOf (written (keys body) schema) n (insert_columns lib body schema n).binds
  unfolding insert_columns
  insert_columns-written [] n = (refl, refl, refl)
  insert_columns-written ((name, field) ∷ schema) n =
      elim (Option-cases (insert_value lib body name field n)) [
        | inl e ↦
            rw (round name field schema n e, sym (insert_value-is_written name field n), e)
              (insert_columns-written schema n)
        | inr (b, e) ↦
            let (c, p, v) = insert_columns-written schema (n + 1) in
            rw (round name field schema n e, sym (insert_value-is_written name field n), e)
              (
                ap (◌∷◌ (quoted name)) c,
                ap (◌∷◌ (placeholder n)) p,
                (insert_value-IsValueOf name field n b e, v),
              )
      ]

  -- The text of an insert of those fields, with as many placeholders from 1 on, and their values bound.
  abbrev pub IsInsertOf : ResourceDefinition → List (String × FieldSchema) → Statement → Type 0
  IsInsertOf r fields s =
      (s.sql
        ≡ format (
            "INSERT INTO "
            ∷ quoted r.resource
            ∷ " ("
            ∷ join ", " (map quoted (keys fields))
            ∷ ") VALUES ("
            ∷ join ", " (numbered 1 (length fields))
            ∷ ") RETURNING "
            ∷ select_columns r
            ∷ []))
      × AreValuesOf fields 1 s.binds

  -- The columns of an insert are those of the fields that `written` gives for the names that the body has;
  -- its text holds no value of the body; the placeholders are as many as the columns and count from 1; and
  -- what is bound to each is its field's value: where the server generates it, a new UUID for a UUID and the
  -- time for a timestamp, else the one sent, else the default.
  pub insert_statement-written :
      (r : ResourceDefinition)
      → IsInsertOf r (written (keys body) r.schema) (insert_statement lib r body)
  unfolding insert_statement
  insert_statement-written r =
      let (c, p, v) = insert_columns-written r.schema 1 in (rw (c, p) refl, v)
