-- ===== src/Db/Query/Write.antt =====
-- query.rs: `insert`, `update_by_id`, `soft_delete_by_id` and `hard_delete_by_id`, and the resource's operations
-- together, as the handlers use them. A placeholder is counted as its column is pushed.
use shaperail.Prelude.{
  ℕ, ◌+◌, String, List, [], ◌∷◌, ◌++◌, Option, none, some, Bool, false, format, join, decimal,
  is_empty, lookup, map_option, if◌then◌else◌, ◌||◌, ◌&&◌,
}
use shaperail.Core.Json.{Json, Map}
use shaperail.Core.Error.{Result, ok, err, invalid, internal, not_found}
use shaperail.Core.Schema.{FieldSchema, FieldType, uuid, timestamp, is_type}
use shaperail.Core.Resource.{ResourceDefinition}
use shaperail.Handlers.State.{Store}
use shaperail.Db.Query.{
  BindValue, uuid_value, timestamp_value, Libraries, Pool, Statement, quoted, primary_key,
  select_columns, json_to_bind, execute_query, first_row,
}
use shaperail.Db.Query.Read.{and_live, find_by_id, find_all}

abbrev pub placeholder : ℕ → String
placeholder n = format ("$" ∷ decimal n ∷ [])

-- The three lists of `insert`.
pub record Columns : Type 0 where
  pub columns : List String
  pub placeholders : List String
  pub binds : List BindValue

abbrev pub push_column : String → ℕ → BindValue → Columns → Columns
push_column name idx b cs = record {
  columns = quoted name ∷ cs.columns;
  placeholders = placeholder idx ∷ cs.placeholders;
  binds = b ∷ cs.binds;
}

abbrev pub assignment : String → ℕ → String
assignment name idx = format (quoted name ∷ " = " ∷ placeholder idx ∷ [])

-- The two lists of `update_by_id`, and the next placeholder.
pub record Assignments : Type 0 where
  pub set_clauses : List String
  pub binds : List BindValue
  pub next : ℕ

abbrev pub push_assignment : String → ℕ → BindValue → Assignments → Assignments
push_assignment name idx b s = record {
  set_clauses = assignment name idx ∷ s.set_clauses;
  binds = b ∷ s.binds;
  next = s.next;
}

abbrev pub stamps : Option FieldSchema → Bool
stamps none = false
stamps (some field) = field.generated && is_type field.field_type timestamp

unfoldable pub is_stamped : ResourceDefinition → Bool
is_stamped r = stamps (lookup "updated_at" r.schema)

abbrev pub empty_update : Result Statement
empty_update = err (invalid "body" "No valid fields to update" "empty_update")

module _ (lib : Libraries) where
  abbrev generated_value : FieldType → ℕ → Option BindValue
  generated_value uuid idx = some (uuid_value (lib.new_v4 idx))
  generated_value timestamp idx = some (timestamp_value (lib.now idx))
  generated_value _ idx = none

  -- The value that is sent, or else the default.
  abbrev pub supplied_value : Option Json → FieldSchema → ℕ → Option BindValue
  supplied_value (some value) field idx = some (json_to_bind lib value field idx)
  supplied_value none field idx = map_option (λ d. json_to_bind lib d field idx) field.default

  -- What the loop of `insert` binds for a column, if anything.
  unfoldable pub insert_value : Map → String → FieldSchema → ℕ → Option BindValue
  insert_value body name field idx =
      if field.transient
      then none
      else if field.generated
      then generated_value field.field_type idx
      else supplied_value (lookup name body) field idx

  unfoldable pub insert_columns : Map → List (String × FieldSchema) → ℕ → Columns
  insert_columns body [] idx = record { columns = []; placeholders = []; binds = [] }
  insert_columns body ((name, field) ∷ schema) idx = elim (insert_value body name field idx) [
    | none ↦ insert_columns body schema idx
    | some b ↦ push_column name idx b (insert_columns body schema (idx + 1))
  ]

  unfoldable pub insert_statement : ResourceDefinition → Map → Statement
  insert_statement r body =
      let cs = insert_columns body r.schema 1 in
      record {
        sql = format (
            "INSERT INTO "
            ∷ quoted r.resource
            ∷ " ("
            ∷ join ", " cs.columns
            ∷ ") VALUES ("
            ∷ join ", " cs.placeholders
            ∷ ") RETURNING "
            ∷ select_columns r
            ∷ []);
        binds = cs.binds;
      }

  -- What the loop of `update_by_id` binds for a member of the body, if anything.
  unfoldable pub update_value : Option FieldSchema → Json → ℕ → Option BindValue
  update_value none value idx = none
  update_value (some field) value idx =
      if field.primary || field.generated then none else some (json_to_bind lib value field idx)

  -- The assignment to `updated_at` after the others.
  unfoldable pub stamp : ResourceDefinition → ℕ → Assignments
  stamp r idx =
      if is_stamped r
      then push_assignment "updated_at" idx (timestamp_value (lib.now idx))
          (record { set_clauses = []; binds = []; next = idx + 1 })
      else record { set_clauses = []; binds = []; next = idx }

  unfoldable pub assignments : ResourceDefinition → Map → ℕ → Assignments
  assignments r [] idx = stamp r idx
  assignments r ((name, value) ∷ body) idx = elim (update_value (lookup name r.schema) value idx) [
    | none ↦ assignments r body idx
    | some b ↦ push_assignment name idx b (assignments r body (idx + 1))
  ]

  unfoldable pub update_statement : ResourceDefinition → String → Map → Result Statement
  update_statement r id body =
      let s = assignments r body 1 in
      if is_empty s.set_clauses
      then empty_update
      else ok (record {
        sql = format (
            "UPDATE "
            ∷ quoted r.resource
            ∷ " SET "
            ∷ join ", " s.set_clauses
            ∷ " WHERE "
            ∷ quoted (primary_key r)
            ∷ " = "
            ∷ placeholder s.next
            ∷ and_live r
            ∷ " RETURNING "
            ∷ select_columns r
            ∷ []);
        binds = s.binds ++ (uuid_value id ∷ []);
      })

  unfoldable pub soft_delete_statement : ResourceDefinition → String → Statement
  soft_delete_statement r id = record {
    sql = format (
        "UPDATE "
        ∷ quoted r.resource
        ∷ " SET \"deleted_at\" = $1 WHERE "
        ∷ quoted (primary_key r)
        ∷ " = $2 AND \"deleted_at\" IS NULL RETURNING "
        ∷ select_columns r
        ∷ []);
    binds = timestamp_value (lib.now 1) ∷ uuid_value id ∷ [];
  }

  unfoldable pub hard_delete_statement : ResourceDefinition → String → Statement
  hard_delete_statement r id = record {
    sql = format (
        "DELETE FROM "
        ∷ quoted r.resource
        ∷ " WHERE "
        ∷ quoted (primary_key r)
        ∷ " = $1 RETURNING "
        ∷ select_columns r
        ∷ []);
    binds = uuid_value id ∷ [];
  }

  module _ {Db : Type 0} (pool : Pool Db) (r : ResourceDefinition) where
    unfoldable pub insert : Map → Db → Result Json × Db
    insert body db =
        first_row (internal "Insert returned no rows")
          (execute_query lib pool r (insert_statement r body) db)

    abbrev run_update : Result Statement → Db → Result Json × Db
    run_update (err e) db = (err e, db)
    run_update (ok s) db = first_row not_found (execute_query lib pool r s db)

    unfoldable pub update_by_id : String → Map → Db → Result Json × Db
    update_by_id id body db = run_update (update_statement r id body) db

    unfoldable pub soft_delete_by_id : String → Db → Result Json × Db
    soft_delete_by_id id db =
        first_row not_found (execute_query lib pool r (soft_delete_statement r id) db)

    unfoldable pub hard_delete_by_id : String → Db → Result Json × Db
    hard_delete_by_id id db =
        first_row not_found (execute_query lib pool r (hard_delete_statement r id) db)

    -- `ResourceQuery` as the store of the handlers.
    abbrev pub resource_query : Store Db
    resource_query = record {
      find_by_id = find_by_id lib r pool;
      find_all = λ ep. find_all lib r pool;
      insert = insert;
      update_by_id = update_by_id;
      soft_delete_by_id = soft_delete_by_id;
      hard_delete_by_id = hard_delete_by_id;
    }
