-- ===== src/Handlers/Crud/Examples.antt =====
-- crud.rs on the sample service.
use shaperail.Prelude.{
  lookup, insert, lookup-insert, eq_refl, ◌∙◌, String, List, [], ◌∷◌, some, none, ◌≡◌, ◌⊎◌, refl,
  ◌≤◌, length, All,
}
use shaperail.Core.Json.{Json, null, arr, nil, items, obj, object, str, as_array}
use shaperail.Core.Error.{ok}
use shaperail.Auth.Rbac.{enforce, verify_owner, check_owner, needs_owner_check}
use shaperail.Handlers.Params.{
  parse_item_params, parse_list_params, parse_csv_param, validate_filter_param_form,
}
use shaperail.Handlers.Response.{bulk, created}
use shaperail.Handlers.Samples.{
  Rows, service, posts, plain_endpoint, owned_endpoint, cached_endpoint, ann, bob, request_of,
  world, her_post,
}
use shaperail.Handlers.Tenant.{verify_tenant, inject_tenant_filter, inject_tenant_into_input}
use shaperail.Handlers.State.{World, Response, json_body}
use shaperail.Handlers.Validate.{
  validate_input, validate_input_shape, validate_required_present, strip_transient_fields,
}
use shaperail.Handlers.Validate.Rules.{check_field_rules}
use shaperail.Handlers.References.{validate_item_references}
use shaperail.Handlers.Controller.{run_hooks}
use shaperail.Handlers.Crud.Base.{
  enforce_auth, check_rate_limit, parse_uuid, store_for_or_error, should_bypass_cache,
  extract_input, run_before_controller, run_after_controller, run_write_side_effects,
  run_bulk_side_effects, build_response_with_extras,
}
use shaperail.Cache.{Cache, invalidate_if_needed}
use shaperail.Core.Resource.{ResourceDefinition}
use shaperail.Handlers.Crud.Base.{invalidate_on_of}
use shaperail.Handlers.Crud.Base.Invalidation.{run_write_side_effects-cache}
use shaperail.Handlers.Crud.Steps.{Refused}
use shaperail.Handlers.Crud.Authorised.{
  Authorised, handle_update-Authorised, handle_delete-Authorised,
}
use shaperail.Handlers.Crud.Read.{
  get_key, list_key, handle_get, execute_get, handle_list, execute_list, hit_response,
  miss_response,
}
use shaperail.Handlers.Crud.Read.Answers.{FromCache, NotCached}
use shaperail.Handlers.Crud.Read.Served.{
  FoundRow, ListedPage, handle_get-FoundRow, handle_list-ListedPage,
}
use shaperail.Handlers.Crud.Read.Cached.{HasText, handle_get-repeats}
use shaperail.Handlers.Crud.Write.{handle_update, handle_delete, handle_create}
use shaperail.Handlers.Crud.Write.Inserted.{Inserts, handle_create-Inserts}
use shaperail.Handlers.Crud.Bulk.{handle_bulk_create, handle_bulk_delete}
use shaperail.Handlers.Crud.Bulk.Bounds.{
  IsValidItem, handle_bulk_create-IsValidItem, handle_bulk_delete-any_user,
}

abbrev ann_key : String
ann_key = get_key service (request_of ann) posts "p1"

looked_up :
    (body : String) (entries : Cache) → lookup ann_key (insert ann_key body entries) ≡ some body
looked_up body entries = lookup-insert ann_key ann_key body entries ∙ rw (eq_refl ann_key) refl

-- A miss of the cache.
handle_get-FoundRow_example :
    (enforce cached_endpoint.auth (request_of ann).user ≡ ok tt)
    × ((id : String) × (parse_uuid service "p1" ≡ ok id)
        × (FromCache service
              (request_of ann)
              cached_endpoint
              (get_key service (request_of ann) posts id)
              world
              (miss_response service her_post)
            ⊎ (NotCached service
                  (request_of ann)
                  cached_endpoint
                  (get_key service (request_of ann) posts id)
                  world
                × FoundRow service (request_of ann) posts cached_endpoint "p1" world.db)))
unfolding handle_get execute_get enforce_auth check_rate_limit parse_uuid store_for_or_error
    verify_tenant verify_owner needs_owner_check check_owner parse_item_params enforce
    should_bypass_cache parse_csv_param
handle_get-FoundRow_example =
    handle_get-FoundRow service (request_of ann) posts cached_endpoint "p1" world
      (miss_response service her_post) refl

abbrev empty_page : Response
empty_page = record {
  status = 200;
  headers = [];
  body = json_body (obj (object (("data", arr nil) ∷ ("meta", null) ∷ [])));
}

handle_list-ListedPage_example :
    (enforce (plain_endpoint none).auth (request_of ann).user ≡ ok tt)
    × (FromCache service
          (request_of ann)
          (plain_endpoint none)
          (list_key service (request_of ann) posts)
          world
          empty_page
        ⊎ (NotCached service
              (request_of ann)
              (plain_endpoint none)
              (list_key service (request_of ann) posts)
              world
            × ListedPage service (request_of ann) posts (plain_endpoint none) world.db))
unfolding handle_list execute_list enforce_auth check_rate_limit parse_uuid store_for_or_error
    inject_tenant_filter parse_list_params enforce should_bypass_cache validate_filter_param_form
    parse_csv_param
handle_list-ListedPage_example =
    handle_list-ListedPage service (request_of ann) posts (plain_endpoint none) world empty_page
      refl

handle_update-Authorised_example :
    Refused world (handle_update service (request_of bob) posts owned_endpoint "p1" her_post world)
    ⊎ Authorised service (request_of bob) posts owned_endpoint "p1" world
handle_update-Authorised_example =
    handle_update-Authorised service (request_of bob) posts owned_endpoint "p1" her_post world

handle_delete-Authorised_example :
    Refused world (handle_delete service (request_of ann) posts owned_endpoint "p1" world)
    ⊎ Authorised service (request_of ann) posts owned_endpoint "p1" world
handle_delete-Authorised_example =
    handle_delete-Authorised service (request_of ann) posts owned_endpoint "p1" world

-- Bob gets Ann's post from the cache, on an endpoint that is its owner's.
handle_get-repeats_example :
    (body : String) × ((handle_get service
        (request_of bob)
        posts
        cached_endpoint
        "p1"
        (record (handle_get service (request_of ann) posts cached_endpoint "p1" world).1 {
          db = [];
        })).0
      ≡ ok (hit_response service body))
    × HasText service (miss_response service her_post) body
unfolding handle_get execute_get enforce_auth check_rate_limit parse_uuid store_for_or_error
    verify_tenant verify_owner needs_owner_check check_owner parse_item_params enforce
    should_bypass_cache parse_csv_param
handle_get-repeats_example =
    handle_get-repeats service (request_of ann) (request_of bob) posts cached_endpoint "p1" "p1"
      world
      (record (handle_get service (request_of ann) posts cached_endpoint "p1" world).1 { db = [] })
      (miss_response service her_post) (refl, refl) (refl, refl) refl refl refl refl refl
      (λ body entries. looked_up body entries) refl refl

abbrev new_post : Json
new_post = obj (object (("title", str "hi") ∷ ("note", str "n") ∷ []))

abbrev stored_post : Json
stored_post = obj (object (("title", str "hi") ∷ ("org", str "t1") ∷ []))

handle_create-Inserts_example :
    Inserts service (request_of ann) posts (plain_endpoint none) new_post world
unfolding handle_create run_hooks check_field_rules enforce_auth check_rate_limit store_for_or_error
    enforce extract_input inject_tenant_into_input validate_input_shape validate_required_present
    run_before_controller run_after_controller run_write_side_effects build_response_with_extras
    strip_transient_fields validate_item_references parse_item_params parse_csv_param
handle_create-Inserts_example =
    handle_create-Inserts service (request_of ann) posts (plain_endpoint none) new_post world
      (created stored_post) refl

handle_bulk_delete-any_user_example :
    handle_bulk_delete service
      (request_of ann)
      posts
      owned_endpoint
      (arr (items (str "p1" ∷ [])))
      world
    ≡ handle_bulk_delete service
        (request_of bob)
        posts
        owned_endpoint
        (arr (items (str "p1" ∷ [])))
        world
unfolding enforce
handle_bulk_delete-any_user_example =
    handle_bulk_delete-any_user service (request_of ann) (request_of bob) posts owned_endpoint
      (arr (items (str "p1" ∷ []))) world refl refl refl

abbrev two_posts : List Json
two_posts = new_post ∷ obj (object (("title", str "ho") ∷ [])) ∷ []

abbrev two_stored : List Json
two_stored = obj (object (("title", str "hi") ∷ [])) ∷ obj (object (("title", str "ho") ∷ [])) ∷ []

handle_bulk_create-IsValidItem_example :
    (vs : List Json) × (rows : List Json) × (as_array (arr (items two_posts)) ≡ some vs)
    × (1 ≤ length vs)
    × (length vs ≤ 500)
    × (length rows ≡ length vs)
    × All (IsValidItem service posts (plain_endpoint none)) vs
    × (bulk two_stored ≡ bulk rows)
unfolding handle_bulk_create run_bulk_side_effects check_field_rules enforce_auth check_rate_limit
    store_for_or_error enforce extract_input validate_input validate_input_shape
    validate_required_present strip_transient_fields validate_item_references
handle_bulk_create-IsValidItem_example =
    handle_bulk_create-IsValidItem service (request_of ann) posts (plain_endpoint none)
      (arr (items two_posts)) world (bulk two_stored) refl

abbrev documented_posts : ResourceDefinition
documented_posts = record posts {
  endpoints = some (
      (
        "get",
        record owned_endpoint {
          cache =
              some
                (record { ttl = 60; invalidate_on = some ("create" ∷ "update" ∷ "delete" ∷ []) });
        },
      )
      ∷ []);
}

abbrev cached_world : World Rows
cached_world = record world { cache = ("shaperail:posts:get:h:t1:member", "text") ∷ [] }

run_write_side_effects-cache_example :
    (run_write_side_effects service posts owned_endpoint "updated" her_post cached_world).1.cache
    ≡ invalidate_if_needed service.redis "posts" "updated"
        (invalidate_on_of posts)
        cached_world.cache
run_write_side_effects-cache_example =
    run_write_side_effects-cache service posts owned_endpoint "updated" her_post cached_world
