-- ===== src/Handlers/Crud/Write.antt =====
-- handlers/crud.rs: the create, update and delete handlers of single records.
pub mod Allowed
pub mod Inserted
use shaperail.Prelude.{
  String, List, [], ◌∷◌, some, Bool, keys, is_empty, format, unwrap_or, if◌then◌else◌,
}
use shaperail.Core.Json.{Json, Map, null}
use shaperail.Core.Endpoint.{EndpointSpec}
use shaperail.Core.Resource.{ResourceDefinition}
use shaperail.Handlers.Validate.{
  validate_input_shape, validate_required_present, strip_transient_fields,
}
use shaperail.Handlers.References.{validate_item_references}
use shaperail.Handlers.Params.{parse_item_params}
use shaperail.Handlers.Response.{single, created, no_content, select_fields}
use shaperail.Handlers.Tenant.{inject_tenant_into_input}
use shaperail.Handlers.State.{
  M, ◌>>=◌, ◌>>◌, pure, lift, skip, read_db, write_db, Store, Context, Request, Response, App,
}
use shaperail.Handlers.Crud.Base.{
  enforce_auth, check_rate_limit, store_for_or_error, parse_uuid, extract_input, check_record,
  run_before_controller, run_after_controller, run_write_side_effects, schedule_file_cleanup,
  build_response_with_extras,
}

-- `?fields=` on the data that the after-controller leaves.
abbrev select_data : List String → Context → Context
select_data fields ctx =
    if is_empty fields
    then ctx
    else record ctx { data_record = some (select_fields (unwrap_or ctx.data_record null) fields) }

module _ {Db : Type 0} (app : App Db) where
  check_references : Map → ResourceDefinition → M Db (Unit {0})
  check_references input resource = read_db (
      validate_item_references app.platform app.count_references app.select_references input
        resource)

  -- After the row is written: the after-controller, the selection, and the side effects.
  finish :
      Request
      → ResourceDefinition
      → EndpointSpec
      → Context
      → String
      → (Json → Response)
      → Json
      → M Db Response
  finish req resource endpoint ctx action builder row = do
    ctx' ← run_after_controller app resource endpoint ctx row
    run_write_side_effects app resource endpoint action row
    pure (
        build_response_with_extras app (select_data (parse_item_params req.params).fields ctx')
          builder)

  unfoldable pub handle_create :
      Request → ResourceDefinition → EndpointSpec → (body : Json) → M Db Response
  unfolding check_references finish
  handle_create req resource endpoint body = do
    user ← enforce_auth app req endpoint
    check_rate_limit app endpoint req (format (resource.resource ∷ ":create" ∷ []))
    extracted ← lift (extract_input body resource endpoint)
    let input = inject_tenant_into_input resource user extracted
    lift (validate_input_shape app.platform input resource)
    ctx ← run_before_controller app resource endpoint input req []
    lift (validate_required_present app.platform ctx.input resource (keys input))
    check_references ctx.input resource
    store ← lift (store_for_or_error app resource)
    row ← write_db (store.insert (strip_transient_fields ctx.input resource))
    finish req resource endpoint (record ctx { input = strip_transient_fields ctx.input resource })
        "created" created row

  unfoldable pub handle_update :
      Request → ResourceDefinition → EndpointSpec → (path : String) → (body : Json) → M Db Response
  unfolding check_references finish
  handle_update req resource endpoint path body = do
    user ← enforce_auth app req endpoint
    check_rate_limit app endpoint req (format (resource.resource ∷ ":update" ∷ []))
    id ← lift (parse_uuid app path)
    input ← lift (extract_input body resource endpoint)
    store ← lift (store_for_or_error app resource)
    check_record app resource endpoint store id user
    lift (validate_input_shape app.platform input resource)
    ctx ← run_before_controller app resource endpoint input req (("id", path) ∷ [])
    lift (validate_input_shape app.platform ctx.input resource)
    check_references ctx.input resource
    row ← write_db (store.update_by_id id (strip_transient_fields ctx.input resource))
    finish req resource endpoint (record ctx { input = strip_transient_fields ctx.input resource })
        "updated" single row

  abbrev delete_row : Bool → Store Db → String → M Db Json
  delete_row soft store id =
      if soft then write_db (store.soft_delete_by_id id) else write_db (store.hard_delete_by_id id)

  unfoldable pub handle_delete :
      Request → ResourceDefinition → EndpointSpec → (path : String) → M Db Response
  handle_delete req resource endpoint path = do
    user ← enforce_auth app req endpoint
    check_rate_limit app endpoint req (format (resource.resource ∷ ":delete" ∷ []))
    id ← lift (parse_uuid app path)
    store ← lift (store_for_or_error app resource)
    check_record app resource endpoint store id user
    _ ← run_before_controller app resource endpoint [] req (("id", path) ∷ [])
    deleted ← delete_row endpoint.soft_delete store id
    if endpoint.soft_delete then skip else schedule_file_cleanup app resource deleted
    run_write_side_effects app resource endpoint "deleted" deleted
    pure no_content
