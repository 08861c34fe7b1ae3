-- ===== src/Handlers/Crud/Read.antt =====
-- handlers/crud.rs: the list and get handlers, with their response cache.
pub mod Answers
pub mod Served
pub mod Cached
use shaperail.Prelude.{
  ℕ, String, List, [], ◌∷◌, ◌++◌, Option, none, some, Bool, true, false, not, ◌&&◌, lookup, insert,
  map, is_empty, format, if◌then◌else◌,
}
use shaperail.Core.Json.{Json, null, obj, arr, object, items}
use shaperail.Core.Error.{ok}
use shaperail.Core.Endpoint.{EndpointSpec, CacheSpec}
use shaperail.Core.Resource.{ResourceDefinition}
use shaperail.Auth.Rbac.{verify_owner}
use shaperail.Cache.{build_key_with_tenant}
use shaperail.Handlers.Params.{parse_list_params, parse_item_params, validate_filter_param_form}
use shaperail.Handlers.Response.{single, select_fields}
use shaperail.Handlers.Tenant.{verify_tenant, inject_tenant_filter, tenant_id_for_key}
use shaperail.Handlers.State.{
  M, ◌>>=◌, ◌>>◌, pure, lift, read_db, Request, Response, json_body, text_body, App,
}
use shaperail.Handlers.Crud.Base.{
  enforce_auth, check_rate_limit, should_bypass_cache, user_role_for_cache, store_for_or_error,
  parse_uuid,
}

abbrev pub ttl_of : Option CacheSpec → ℕ
ttl_of none = 0
ttl_of (some spec) = spec.ttl

module _ {Db : Type 0} (app : App Db) where
  pub cache_key : ResourceDefinition → String → List (String × String) → Request → String
  cache_key resource endpoint params req =
      build_key_with_tenant app.sha256_16 resource.resource endpoint params
        (user_role_for_cache req.user) (tenant_id_for_key req.user)

  -- The keys of a get and of a list.
  abbrev pub get_key : Request → ResourceDefinition → (id : String) → String
  get_key req resource id = cache_key resource "get" (insert "_id" id req.params) req

  abbrev pub list_key : Request → ResourceDefinition → String
  list_key req resource = cache_key resource "list" req.params req

  pub record_cache : Bool → M Db (Unit {0})
  record_cache hit w =
      (ok tt, (if app.has_metrics then record w { metrics = w.metrics ++ (hit ∷ []) } else w))

  store_body : String → String → ℕ → M Db (Unit {0})
  store_body key body ttl w = (ok tt, record w { cache = app.redis.set_ex key body ttl w.cache })

  abbrev pub hit_response : String → Response
  hit_response body = record {
    status = 200;
    headers = ("content-type", "application/json") ∷ ("X-Cache", "HIT") ∷ [];
    body = text_body body;
  }

  abbrev pub miss_response : Json → Response
  miss_response v = record { status = 200; headers = ("X-Cache", "MISS") ∷ []; body = json_body v }

  -- On a miss the result is stored under the key, for the seconds that the endpoint declares.
  on_miss : String → ℕ → M Db Json → M Db Response
  unfolding record_cache store_body
  on_miss key ttl execute = do
    record_cache false
    result ← execute
    store_body key (app.to_text result) ttl
    pure (miss_response result)

  on_hit : String → M Db Response
  unfolding record_cache
  on_hit body = do record_cache true; pure (hit_response body)

  abbrev answer : String → ℕ → M Db Json → Option String → M Db Response
  answer key ttl execute (some body) = on_hit body
  answer key ttl execute none = on_miss key ttl execute

  -- `cache.get`, and what follows it.
  pub cached_answer : String → ℕ → M Db Json → M Db Response
  unfolding on_hit on_miss
  cached_answer key ttl execute w = answer key ttl execute (app.redis.get key w.cache) w

  abbrev pub uses_cache : Option CacheSpec → Request → Bool
  uses_cache none req = false
  uses_cache (some spec) req = app.has_cache && not (should_bypass_cache req)

  include_relations : ResourceDefinition → List String → List Json → M Db (List Json)
  include_relations resource include rows =
      if is_empty include then pure rows else read_db (app.load_relations rows resource include)

  unfoldable pub execute_list : Request → ResourceDefinition → EndpointSpec → M Db Json
  unfolding include_relations
  execute_list req resource endpoint = do
    lift (validate_filter_param_form req.params endpoint)
    let params = parse_list_params req.params endpoint
    filters ← lift (inject_tenant_filter resource req.user params.filters)
    store ← lift (store_for_or_error app resource)
    (rows, meta) ← read_db (store.find_all endpoint filters params.search params.sort params.page)
    included ← include_relations resource params.include rows
    pure (
        obj (
          object (
            (
              "data",
              arr (
                  items (
                    if is_empty params.fields
                    then included
                    else map (λ v. select_fields v params.fields) included)),
            )
            ∷ ("meta", meta)
            ∷ [])))

  unfoldable pub handle_list : Request → ResourceDefinition → EndpointSpec → M Db Response
  unfolding cache_key cached_answer
  handle_list req resource endpoint = do
    _ ← enforce_auth app req endpoint
    check_rate_limit app endpoint req (format (resource.resource ∷ ":list" ∷ []))
    if uses_cache endpoint.cache req
        then cached_answer (list_key req resource) (ttl_of endpoint.cache)
            (execute_list req resource endpoint)
        else (execute_list req resource endpoint >>= λ v.
            pure (record { status = 200; headers = []; body = json_body v }))

  abbrev first : List Json → Json
  first [] = null
  first (v ∷ vs) = v

  include_one : ResourceDefinition → List String → Json → M Db Json
  include_one resource include v =
      if is_empty include
      then pure v
      else (read_db (app.load_relations (v ∷ []) resource include) >>= λ vs. pure (first vs))

  unfoldable pub execute_get : ResourceDefinition → EndpointSpec → String → Request → M Db Json
  unfolding include_one
  execute_get resource endpoint id req = do
    store ← lift (store_for_or_error app resource)
    row ← read_db (store.find_by_id id)
    lift (verify_tenant resource req.user row)
    lift (verify_owner endpoint.auth req.user row)
    let params = parse_item_params req.params
    v ← include_one resource params.include row
    pure (if is_empty params.fields then v else select_fields v params.fields)

  unfoldable pub handle_get :
      Request → ResourceDefinition → EndpointSpec → (path : String) → M Db Response
  unfolding cache_key cached_answer
  handle_get req resource endpoint path = do
    _ ← enforce_auth app req endpoint
    check_rate_limit app endpoint req (format (resource.resource ∷ ":get" ∷ []))
    id ← lift (parse_uuid app path)
    if uses_cache endpoint.cache req
        then cached_answer (get_key req resource id) (ttl_of endpoint.cache)
            (execute_get resource endpoint id req)
        else (execute_get resource endpoint id req >>= λ v. pure (single v))
