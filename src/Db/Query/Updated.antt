-- ===== src/Db/Query/Updated.antt =====
-- The statement of `update_by_id`.
use shaperail.Prelude.{
  ◌&&◌, ℕ, ◌+◌, String, List, [], ◌∷◌, ◌++◌, Option, none, some, Bool, true, false, not, ◌||◌,
  format, join, lookup, keys, keep, is_empty, is_some, if◌then◌else◌, length, Option-cases, inl,
  inr, ◌⊎◌, ◌≢◌, ◌≡◌, refl, ap, sym, ◌∙◌, arith,
}
use shaperail.Core.Json.{Json, Map}
use shaperail.Core.Error.{ok}
use shaperail.Core.Schema.{FieldSchema, timestamp, is_type}
use shaperail.Core.Resource.{ResourceDefinition}
use shaperail.Db.Query.{
  BindValue, Statement, uuid_value, timestamp_value, Libraries, quoted, primary_key, select_columns,
  json_to_bind,
}
use shaperail.Db.Query.Read.{and_live}
use shaperail.Db.Query.Write.{
  push_assignment, assignment, placeholder, update_value, is_stamped, stamps, stamp, assignments,
  empty_update, update_statement,
}

-- The fields that a client can set: those of the schema that are neither the primary key nor generated.
abbrev settable_field : Option FieldSchema → Bool
settable_field none = false
settable_field (some field) = not (field.primary || field.generated)

abbrev pub is_settable : ResourceDefinition → String → Bool
is_settable r name = settable_field (lookup name r.schema)

-- The resource has a time stamp: its field `updated_at` is generated and a timestamp.
abbrev pub is_time : Option FieldSchema → Bool
is_time none = false
is_time (some field) = field.generated && is_type field.field_type timestamp

is_stamped-is_time :
    (r : ResourceDefinition) → is_stamped r ≡ is_time (lookup "updated_at" r.schema)
unfolding is_stamped
is_stamped-is_time r = at (lookup "updated_at" r.schema)
  where
    at : (o : Option FieldSchema) → stamps o ≡ is_time o
    at none = refl
    at (some field) = refl

-- The columns that `update_by_id` sets for the names of a body, in the order of the assignments.
abbrev pub assigned : ResourceDefinition → List String → List String
assigned r sent =
    keep (is_settable r) sent
    ++ (if is_time (lookup "updated_at" r.schema) then "updated_at" ∷ [] else [])

abbrev settable_member : ResourceDefinition → String × Json → Bool
settable_member r (name, v) = is_settable r name

abbrev pub settable_members : ResourceDefinition → Map → Map
settable_members r body = keep (settable_member r) body

abbrev pub assignments_from : ℕ → List String → List String
assignments_from n [] = []
assignments_from n (name ∷ names) = assignment name n ∷ assignments_from (n + 1) names

module _ (lib : Libraries) (r : ResourceDefinition) where
  -- The bindings of members: each against its field, then the time stamp.
  abbrev pub AreSet : Map → ℕ → List BindValue → Type 0
  AreSet [] n bs =
      bs ≡ (if is_time (lookup "updated_at" r.schema) then timestamp_value (lib.now n) ∷ [] else [])
  AreSet ((name, v) ∷ ms) n [] = ⊥
  AreSet ((name, v) ∷ ms) n (b ∷ bs) =
      ((field : FieldSchema) × (lookup name r.schema ≡ some field)
        × (b ≡ json_to_bind lib v field n))
      × AreSet ms (n + 1) bs

  update_value-settable_field :
      (o : Option FieldSchema) (v : Json) (n : ℕ)
      → is_some (update_value lib o v n) ≡ settable_field o
  unfolding update_value
  update_value-settable_field o v n = ground arith

  update_value-json_to_bind :
      (o : Option FieldSchema) (v : Json) (n : ℕ) (b : BindValue)
      → update_value lib o v n ≡ some b
      → (field : FieldSchema) × (o ≡ some field) × (b ≡ json_to_bind lib v field n)
  unfolding update_value
  update_value-json_to_bind none v n b h = cc
  update_value-json_to_bind (some field) v n b h = (field, refl, ground arith)

  -- One round of the loop, by whether it binds a value.
  round :
      (name : String) (v : Json) (body : Map) (n : ℕ) {o : Option BindValue}
      → update_value lib (lookup name r.schema) v n ≡ o
      → assignments lib r ((name, v) ∷ body) n ≡ (elim o [
        | none ↦ assignments lib r body n
        | some b ↦ push_assignment name n b (assignments lib r body (n + 1))
      ])
  unfolding assignments
  round name v body n = ap (λ o. elim o [
    | none ↦ assignments lib r body n
    | some b ↦ push_assignment name n b (assignments lib r body (n + 1))
  ])

  assignments-assigned :
      (body : Map) (n : ℕ)
      → ((assignments lib r body n).set_clauses ≡ assignments_from n (assigned r (keys body)))
        × ((assignments lib r body n).next ≡ n + length (assigned r (keys body)))
        × AreSet (settable_members r body) n (assignments lib r body n).binds
  unfolding assignments stamp
  assignments-assigned [] n = ground (arith, is_stamped-is_time r)
  assignments-assigned ((name, v) ∷ body) n =
      elim (Option-cases (update_value lib (lookup name r.schema) v n)) [
        | inl e ↦
            rw
              (
                round name v body n e,
                sym (update_value-settable_field (lookup name r.schema) v n),
                e,
              )
              (assignments-assigned body n)
        | inr (b, e) ↦
            let (c, next, values) = assignments-assigned body (n + 1) in
            rw
              (
                round name v body n e,
                sym (update_value-settable_field (lookup name r.schema) v n),
                e,
              )
              (
                ap (◌∷◌ (assignment name n)) c,
                next ∙ omega arith,
                (update_value-json_to_bind (lookup name r.schema) v n b e, values),
              )
      ]

  is_empty-assignments_from :
      (n : ℕ) (names : List String)
      → (is_empty (assignments_from n names) ≡ true × (names ≡ []))
        ⊎ ((is_empty (assignments_from n names) ≡ false) × (names ≢ []))
  is_empty-assignments_from n [] = inl (refl, refl)
  is_empty-assignments_from n (name ∷ names) = inr (refl, λ e. cc)

  -- The text of an update of those columns by a key, and what is bound.
  abbrev pub IsUpdateOf : String → List String → Map → Statement → Type 0
  IsUpdateOf id names ms s =
      (s.sql
        ≡ format (
            "UPDATE "
            ∷ quoted r.resource
            ∷ " SET "
            ∷ join ", " (assignments_from 1 names)
            ∷ " WHERE "
            ∷ quoted (primary_key r)
            ∷ " = "
            ∷ placeholder (1 + length names)
            ∷ and_live r
            ∷ " RETURNING "
            ∷ select_columns r
            ∷ []))
      × ((bs : List BindValue) × AreSet ms 1 bs × (s.binds ≡ bs ++ (uuid_value id ∷ [])))

  -- An update is refused as empty where the names of the body give nothing to set. Else it sets the columns
  -- that `assigned` gives for them, none of a primary or a generated field but `updated_at`, each to the next
  -- placeholder from 1 on, where the key is the one after the last; its text holds no value of the body;
  -- and the bindings are the members that can be set, against their fields, the time where the
  -- resource has a time stamp, and the id.
  pub update_statement-assigned :
      (id : String) (body : Map)
      → ((assigned r (keys body) ≡ []) × (update_statement lib r id body ≡ empty_update))
        ⊎ ((assigned r (keys body) ≢ [])
            × ((s : Statement) × (update_statement lib r id body ≡ ok s)
                × IsUpdateOf id (assigned r (keys body)) (settable_members r body) s))
  unfolding update_statement
  update_statement-assigned id body =
      let (c, next, values) = assignments-assigned body 1 in
      elim (is_empty-assignments_from 1 (assigned r (keys body))) [
        | inl (t, e) ↦ inl (e, rw (c, t) refl)
        | inr (t, e) ↦
            inr (
              e,
              (_, rw (c, t, next) refl, (refl, ((assignments lib r body 1).binds, values, refl))),
            )
      ]
