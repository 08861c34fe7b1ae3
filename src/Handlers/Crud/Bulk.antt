-- ===== src/Handlers/Crud/Bulk.antt =====
-- handlers/crud.rs: the bulk create and bulk delete handlers.
pub mod Bounds
use shaperail.Prelude.{
  String, List, [], ◌∷◌, Option, none, some, is_empty, length, format, ltb, if◌then◌else◌,
}
use shaperail.Core.Json.{Json, as_array, as_str}
use shaperail.Core.Error.{Result, ok, err, invalid}
use shaperail.Core.Endpoint.{EndpointSpec}
use shaperail.Core.Resource.{ResourceDefinition}
use shaperail.Handlers.Validate.{validate_input, strip_transient_fields}
use shaperail.Handlers.References.{validate_item_references}
use shaperail.Handlers.Response.{bulk}
use shaperail.Handlers.State.{
  M, ◌>>=◌, ◌>>◌, pure, lift, skip, read_db, write_db, Store, Request, Response, App,
}
use shaperail.Handlers.Crud.Base.{
  enforce_auth, check_rate_limit, store_for_or_error, parse_uuid, extract_input, or_else,
  schedule_file_cleanup, run_bulk_side_effects,
}

-- The checks of the body's array: at most 500 items, and one at least.
abbrev bounded_items : Option (List Json) → Result (List Json)
bounded_items none = err (invalid "body" "Expected an array of items" "invalid_body")
bounded_items (some vs) =
    if ltb 500 (length vs)
    then err (invalid "body" "Bulk create accepts at most 500 items" "too_many_items")
    else if is_empty vs
    then err (invalid "body" "Expected at least one item" "empty_body")
    else ok vs

bulk_items : Json → Result (List Json)
bulk_items body = bounded_items (as_array body)

module _ {Db : Type 0} (app : App Db) where
  create_each : ResourceDefinition → EndpointSpec → Store Db → List Json → M Db (List Json)
  create_each resource endpoint store [] = pure []
  create_each resource endpoint store (item ∷ rest) = do
    input ← lift (extract_input item resource endpoint)
    lift (validate_input app.platform input resource)
    read_db (
        validate_item_references app.platform app.count_references app.select_references input
          resource)
    row ← write_db (store.insert (strip_transient_fields input resource))
    rows ← create_each resource endpoint store rest
    pure (row ∷ rows)

  unfoldable pub handle_bulk_create :
      Request → ResourceDefinition → EndpointSpec → (body : Json) → M Db Response
  unfolding bulk_items create_each
  handle_bulk_create req resource endpoint body = do
    _ ← enforce_auth app req endpoint
    check_rate_limit app endpoint req (format (resource.resource ∷ ":bulk_create" ∷ []))
    vs ← lift (bulk_items body)
    store ← lift (store_for_or_error app resource)
    rows ← create_each resource endpoint store vs
    run_bulk_side_effects app resource endpoint "create" "created" rows
    pure (bulk rows)

  id_of : Json → Result String
  id_of v = or_else (as_str v) (invalid "id" "Each ID must be a string UUID" "invalid_id")

  delete_each : EndpointSpec → Store Db → List Json → M Db (List Json)
  unfolding id_of
  delete_each endpoint store [] = pure []
  delete_each endpoint store (v ∷ rest) = do
    id_str ← lift (id_of v)
    id ← lift (parse_uuid app id_str)
    row ←
        if endpoint.soft_delete
        then write_db (store.soft_delete_by_id id)
        else write_db (store.hard_delete_by_id id)
    rows ← delete_each endpoint store rest
    pure (row ∷ rows)

  cleanup_each : ResourceDefinition → List Json → M Db (Unit {0})
  cleanup_each resource [] = skip
  cleanup_each resource (row ∷ rows) = do
    schedule_file_cleanup app resource row
    cleanup_each resource rows

  unfoldable pub handle_bulk_delete :
      Request → ResourceDefinition → EndpointSpec → (body : Json) → M Db Response
  unfolding delete_each cleanup_each
  handle_bulk_delete req resource endpoint body = do
    _ ← enforce_auth app req endpoint
    check_rate_limit app endpoint req (format (resource.resource ∷ ":bulk_delete" ∷ []))
    ids ← lift (or_else (as_array body) (invalid "body" "Expected an array of IDs" "invalid_body"))
    store ← lift (store_for_or_error app resource)
    rows ← delete_each endpoint store ids
    if endpoint.soft_delete then skip else cleanup_each resource rows
    run_bulk_side_effects app resource endpoint "delete" "deleted" rows
    pure (bulk rows)
