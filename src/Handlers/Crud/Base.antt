-- ===== src/Handlers/Crud/Base.antt =====
-- handlers/crud.rs: the steps that the handlers share.
pub mod Invalidation
use shaperail.Prelude.{
  String, List, [], ◌∷◌, ◌++◌, Option, none, some, Bool, not, ◌&&◌, ◌||◌, ◌==◌, contains, keep,
  keys, lookup, insert, map_option, and_then, is_some, is_some_and, unwrap_or, is_empty, format,
  if◌then◌else◌,
}
use text.Mathlib.Text.{find?}
use shaperail.Core.Json.{Json, Map, null, obj, str, object, members, field, as_str, as_object}
use shaperail.Core.Error.{Result, ok, err, internal, invalid, ShaperailError}
use shaperail.Core.Schema.{FieldSchema, file, is_type}
use shaperail.Core.Endpoint.{EndpointSpec, RateLimitSpec, before_names, after_names}
use shaperail.Core.Resource.{ResourceDefinition}
use shaperail.Auth.Rbac.{AuthenticatedUser, enforce, needs_owner_check, verify_owner}
use shaperail.Auth.RateLimit
use shaperail.Cache.{invalidate_if_needed}
use shaperail.Handlers.Tenant.{is_super_admin, resolve_tenant_id, verify_tenant}
use shaperail.Handlers.Controller.{run_hooks}
use shaperail.Handlers.State.{
  M, emitted, enqueued, cleaned_up, ◌>>=◌, ◌>>◌, pure, lift, skip, read_db, send, Store, Context,
  Request, Response, App,
}

abbrev pub or_else {ℓ} : {A : Type ℓ} → Option A → ShaperailError → Result A
or_else none e = err e
or_else (some a) e = ok a

-- `?nocache=1`, or an admin.
unfoldable pub should_bypass_cache : Request → Bool
should_bypass_cache req =
    is_some (find? req.query_string "nocache=1") || is_some_and req.user (λ u. u.role == "admin")

abbrev pub user_role_for_cache : Option AuthenticatedUser → String
user_role_for_cache user = unwrap_or (map_option (λ u. u.role) user) "anonymous"

-- The fields that a client may send.
abbrev pub allowed_input : ResourceDefinition → EndpointSpec → List String
allowed_input resource endpoint =
    unwrap_or endpoint.input
      (keys (keep (λ nf. not nf.1.generated && not nf.1.primary) resource.schema))

unfoldable pub extract_input : Json → ResourceDefinition → EndpointSpec → Result Map
extract_input value resource endpoint = elim (as_object value) [
  | none ↦ err (invalid "body" "Expected a JSON object" "invalid_body")
  | some m ↦ ok (keep (λ e. contains (allowed_input resource endpoint) e.0) m)
]

abbrev listed : Option String → List String
listed none = []
listed (some s) = s ∷ []

-- The paths of the record's files.
file_paths : List (String × FieldSchema) → Json → List String
file_paths [] record_data = []
file_paths ((name, f) ∷ schema) record_data =
    (if is_type f.field_type file then listed (and_then (field record_data name) as_str) else [])
    ++ file_paths schema record_data

-- The first `invalidate_on` of an endpoint of the resource.
find_invalidate_on : List (String × EndpointSpec) → Option (List String)
find_invalidate_on [] = none
find_invalidate_on ((action, ep) ∷ eps) =
    let rest = find_invalidate_on eps in
    elim (and_then ep.cache (λ c. c.invalidate_on)) [ none ↦ rest | some actions ↦ some actions ]

unfoldable pub invalidate_on_of : ResourceDefinition → Option (List String)
unfolding find_invalidate_on
invalidate_on_of resource = and_then resource.endpoints find_invalidate_on

module _ {Db : Type 0} (app : App Db) where
  unfoldable pub parse_uuid : String → Result String
  parse_uuid s =
      or_else (app.platform.parse_uuid s)
        (invalid "id" (format ("Invalid UUID: " ∷ s ∷ [])) "invalid_uuid")

  unfoldable pub enforce_auth : Request → EndpointSpec → M Db (Option AuthenticatedUser)
  enforce_auth req endpoint = do lift (enforce endpoint.auth req.user); pure req.user

  store_for : ResourceDefinition → Option (Store Db)
  store_for resource = and_then app.stores (lookup resource.resource)

  -- A registry must hold a store for each resource; with no registry the queries are generic.
  unfoldable pub store_for_or_error : ResourceDefinition → Result (Store Db)
  unfolding store_for
  store_for_or_error resource = elim (store_for resource) [
    | some store ↦ ok store
    | none ↦
        if is_some app.stores
        then err (
            internal (
              format (
                "Resource '" ∷ resource.resource
                ∷ "' has no generated store; run shaperail generate" ∷ [])))
        else ok (app.query resource)
  ]

  rate_key : Request → String → String
  rate_key req resource_action = format (
      resource_action
      ∷ ":"
      ∷ RateLimit.key_for_tenant (unwrap_or req.peer_addr "unknown")
          (map_option (λ u. u.sub) req.user) (and_then req.user (λ u. u.tenant_id))
      ∷ [])

  unfoldable pub limit_by : RateLimitSpec → Request → String → M Db (Unit {0})
  limit_by spec req key w =
      let (r, times) =
        RateLimit.check
          (record { max_requests = spec.max_requests; window_secs = spec.window_secs }) req.now
          (unwrap_or (lookup key w.limits) []) in
      (
        elim r [ ok remaining ↦ ok tt | err e ↦ err e ],
        record w { limits = insert key times w.limits },
      )

  unfoldable pub check_rate_limit : EndpointSpec → Request → String → M Db (Unit {0})
  unfolding limit_by rate_key
  check_rate_limit endpoint req resource_action = elim endpoint.rate_limit [
    | none ↦ skip
    | some spec ↦ if app.has_limiter then limit_by spec req (rate_key req resource_action) else skip
  ]

  unfoldable pub check_existing :
      ResourceDefinition
      → EndpointSpec
      → Store Db
      → String
      → Option AuthenticatedUser
      → M Db (Unit {0})
  check_existing resource endpoint store id user = do
    existing ← read_db (store.find_by_id id)
    lift (verify_tenant resource user existing)
    lift (verify_owner endpoint.auth user existing)

  -- The record check of update and delete, before anything is written.
  unfoldable pub check_record :
      ResourceDefinition
      → EndpointSpec
      → Store Db
      → String
      → Option AuthenticatedUser
      → M Db (Unit {0})
  unfolding check_existing
  check_record resource endpoint store id user =
      if needs_owner_check endpoint.auth user
        || (is_some resource.tenant_key && not (is_super_admin user))
      then check_existing resource endpoint store id user
      else skip

  invalidate_cache : ResourceDefinition → String → M Db (Unit {0})
  unfolding invalidate_on_of
  invalidate_cache resource action w = (
    ok tt,
    (if app.has_cache
        then record w {
          cache =
              invalidate_if_needed app.redis resource.resource action (invalidate_on_of resource)
                w.cache;
        }
        else w),
  )

  auto_emit_event : ResourceDefinition → String → Json → M Db (Unit {0})
  auto_emit_event resource action v =
      if app.has_emitter
      then send
          (emitted (format (resource.resource ∷ "." ∷ action ∷ [])) resource.resource action v)
      else skip

  emit_each : List String → String → String → Json → M Db (Unit {0})
  emit_each [] resource action v = skip
  emit_each (event ∷ events) resource action v = do
    send (emitted event resource action v)
    emit_each events resource action v

  emit_declared_events : ResourceDefinition → EndpointSpec → String → Json → M Db (Unit {0})
  unfolding emit_each
  emit_declared_events resource endpoint action v =
      if app.has_emitter
      then emit_each (unwrap_or endpoint.events []) resource.resource action v
      else skip

  enqueue_each : List String → Json → M Db (Unit {0})
  enqueue_each [] payload = skip
  enqueue_each (job ∷ jobs) payload = do send (enqueued job payload); enqueue_each jobs payload

  enqueue_declared_jobs : ResourceDefinition → EndpointSpec → String → Json → M Db (Unit {0})
  unfolding enqueue_each
  enqueue_declared_jobs resource endpoint action v =
      if app.has_queue
      then enqueue_each (unwrap_or endpoint.jobs []) (
          obj (
            object
              (("resource", str resource.resource) ∷ ("action", str action) ∷ ("data", v) ∷ [])))
      else skip

  unfoldable pub run_write_side_effects :
      ResourceDefinition → EndpointSpec → String → Json → M Db (Unit {0})
  unfolding invalidate_cache auto_emit_event emit_declared_events enqueue_declared_jobs
  run_write_side_effects resource endpoint action v = do
    invalidate_cache resource action
    auto_emit_event resource action v
    emit_declared_events resource endpoint action v
    enqueue_declared_jobs resource endpoint action v

  -- The bulk handlers invalidate once, and run the other effects for each row.
  effects_of_rows : ResourceDefinition → EndpointSpec → String → List Json → M Db (Unit {0})
  unfolding auto_emit_event emit_declared_events enqueue_declared_jobs
  effects_of_rows resource endpoint action [] = skip
  effects_of_rows resource endpoint action (v ∷ vs) = do
    auto_emit_event resource action v
    emit_declared_events resource endpoint action v
    enqueue_declared_jobs resource endpoint action v
    effects_of_rows resource endpoint action vs

  unfoldable pub run_bulk_side_effects :
      ResourceDefinition
      → EndpointSpec
      → (invalidation action : String) → List Json
      → M Db (Unit {0})
  unfolding invalidate_cache effects_of_rows
  run_bulk_side_effects resource endpoint invalidation action vs = do
    invalidate_cache resource invalidation
    effects_of_rows resource endpoint action vs

  unfoldable pub schedule_file_cleanup : ResourceDefinition → Json → M Db (Unit {0})
  unfolding file_paths
  schedule_file_cleanup resource deleted =
      if is_empty (file_paths resource.schema deleted) || not app.has_storage
      then skip
      else send (cleaned_up (file_paths resource.schema deleted))

  unfoldable pub run_before_controller :
      ResourceDefinition → EndpointSpec → Map → Request → List (String × String) → M Db Context
  run_before_controller resource endpoint input req path_params =
      run_hooks (unwrap_or (map_option before_names endpoint.controller) []) resource.resource
        (record {
          input = input;
          data_record = none;
          user = req.user;
          headers = req.headers;
          response_headers = [];
          tenant_id = resolve_tenant_id resource req.user;
          session = [];
          response_extras = [];
          path_params = path_params;
        })
        app.controllers app.wasm_runtime

  unfoldable pub run_after_controller :
      ResourceDefinition → EndpointSpec → Context → Json → M Db Context
  run_after_controller resource endpoint ctx persisted =
      run_hooks (unwrap_or (map_option after_names endpoint.controller) []) resource.resource
        (record ctx { data_record = some persisted }) app.controllers app.wasm_runtime

  abbrev merged : Map → Map → Map
  merged [] m = m
  merged ((k, v) ∷ extras) m = merged extras (insert k v m)

  with_extras : Map → Json → Json
  with_extras [] v = v
  with_extras (e ∷ extras) (obj ms) = obj (object (merged (e ∷ extras) (members ms)))
  with_extras (e ∷ extras) v = v

  add_headers : List (String × String) → List (String × String) → List (String × String)
  add_headers [] headers = headers
  add_headers ((name, value) ∷ more) headers =
      add_headers more (if app.valid_header name value then insert name value headers else headers)

  -- The after-phase's data with the extras, in the envelope, with the controllers' headers.
  unfoldable pub build_response_with_extras : Context → (Json → Response) → Response
  unfolding with_extras add_headers
  build_response_with_extras ctx builder =
      let resp = builder (with_extras ctx.response_extras (unwrap_or ctx.data_record null)) in
      record resp { headers = add_headers ctx.response_headers resp.headers }
