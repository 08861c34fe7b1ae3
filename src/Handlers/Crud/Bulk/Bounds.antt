-- ===== src/Handlers/Crud/Bulk/Bounds.antt =====
-- What the bulk handlers accept.
use shaperail.Prelude.{
  suc, ◌≤◌, List, [], ◌∷◌, Option, none, some, All, length, ltb, ◌≡◌, refl, sym, ap, subst, ◌∙◌,
  arith,
}
use shaperail.Core.Json.{Json, Map, as_array}
use shaperail.Core.Error.{ok, guard-eq-ok}
use shaperail.Core.Endpoint.{EndpointSpec}
use shaperail.Core.Resource.{ResourceDefinition}
use shaperail.Auth.Rbac.{enforce}
use shaperail.Handlers.Validate.{validate_input, strip_transient_fields}
use shaperail.Handlers.Validate.Phases.{HasShape, HasRequired, validate_input_iff}
use shaperail.Handlers.References.{validate_item_references}
use shaperail.Handlers.Response.{bulk}
use shaperail.Handlers.State.{World, lift, read_db, write_db, Store, Request, Response, App}
use shaperail.Handlers.Crud.Base.{
  enforce_auth, check_rate_limit, extract_input, store_for_or_error, run_bulk_side_effects,
}
use shaperail.Handlers.Crud.Steps.{bind-eq-ok, ok-injective}
use shaperail.Handlers.Crud.Bulk.{
  bounded_items, bulk_items, create_each, handle_bulk_create, handle_bulk_delete,
}

bounded_items_lem :
    (o : Option (List Json)) (vs : List Json)
    → bounded_items o ≡ ok vs
    → (o ≡ some vs) × (1 ≤ length vs) × (length vs ≤ 500)
bounded_items_lem none vs e = cc
bounded_items_lem (some []) vs e = ground arith
bounded_items_lem (some (x ∷ xs)) vs e =
    let (b, h) = guard-eq-ok (ltb 500 (suc (length xs))) _ (ok (x ∷ xs)) e in
    let same = ok-injective h in
    (
      ap some same,
      subst (λ ys. 1 ≤ length ys) same (omega arith),
      subst (λ ys. length ys ≤ 500) same (ground arith),
    )

module _ {Db : Type 0} (app : App Db) where
  -- An item of a bulk create from which a valid record is made.
  abbrev pub IsValidItem : ResourceDefinition → EndpointSpec → Json → Type 0
  IsValidItem resource endpoint item =
      (input : Map) × (extract_input item resource endpoint ≡ ok input)
      × HasShape app.platform input resource.schema
      × HasRequired input resource.schema

  create_each_lem :
      (resource : ResourceDefinition) (endpoint : EndpointSpec) (store : Store Db)
      (vs rows : List Json) (w : World Db)
      → (create_each app resource endpoint store vs w).0 ≡ ok rows
      → (length rows ≡ length vs) × All (IsValidItem resource endpoint) vs
  unfolding create_each
  create_each_lem resource endpoint store [] rows w e = (ap length (sym (ok-injective e)), tt)
  create_each_lem resource endpoint store (item ∷ vs) rows w e =
      let (input, e₁, k₁) = bind-eq-ok (lift (extract_input item resource endpoint)) _ w e in
      let (_, e₂, k₂) = bind-eq-ok (lift (validate_input app.platform input resource)) _ w k₁ in
      let (_, e₃, k₃) =
        bind-eq-ok
          (read_db (
            validate_item_references app.platform app.count_references app.select_references input
              resource))
          _ w k₂ in
      let (row, e₄, k₄) =
        bind-eq-ok (write_db (store.insert (strip_transient_fields input resource))) _ w k₃ in
      let (rest, e₅, k₅) = bind-eq-ok (create_each app resource endpoint store vs) _ _ k₄ in
      let (n, h) = create_each_lem resource endpoint store vs rest _ e₅ in
      let (shape, required) = (validate_input_iff app.platform input resource).0 e₂ in
      (ap length (sym (ok-injective k₅)) ∙ ap suc n, ((input, e₁, shape, required), h))

  -- A bulk create succeeds only on an array of 1 to 500 items, each of which is valid by itself, and
  -- answers as many rows.
  pub handle_bulk_create-IsValidItem :
      (req : Request) (resource : ResourceDefinition) (endpoint : EndpointSpec) (body : Json)
      (w : World Db) (resp : Response)
      → (handle_bulk_create app req resource endpoint body w).0 ≡ ok resp
      → (vs : List Json) × (rows : List Json) × (as_array body ≡ some vs)
        × (1 ≤ length vs)
        × (length vs ≤ 500)
        × (length rows ≡ length vs)
        × All (IsValidItem resource endpoint) vs
        × (resp ≡ bulk rows)
  unfolding handle_bulk_create bulk_items
  handle_bulk_create-IsValidItem req resource endpoint body w resp e =
      let (_, e₁, k₁) = bind-eq-ok (enforce_auth app req endpoint) _ w e in
      let (_, e₂, k₂) = bind-eq-ok (check_rate_limit app endpoint req _) _ _ k₁ in
      let (vs, e₃, k₃) = bind-eq-ok (lift (bulk_items body)) _ _ k₂ in
      let (store, e₄, k₄) = bind-eq-ok (lift (store_for_or_error app resource)) _ _ k₃ in
      let (rows, e₅, k₅) = bind-eq-ok (create_each app resource endpoint store vs) _ _ k₄ in
      let (_, e₆, k₆) =
        bind-eq-ok (run_bulk_side_effects app resource endpoint "create" "created" rows) _ _ k₅ in
      let (a, one, most) = bounded_items_lem (as_array body) vs e₃ in
      let (n, valid) = create_each_lem resource endpoint store vs rows _ e₅ in
      (vs, rows, a, one, most, n, valid, sym (ok-injective k₆))

  -- On an endpoint with no rate limit a bulk delete does the same for any two users that the endpoint's rule admits, whatever their
  -- tenants and whoever created the rows: the same rows go, with the same answer.
  pub handle_bulk_delete-any_user :
      (req req' : Request) (resource : ResourceDefinition) (endpoint : EndpointSpec) (body : Json)
      (w : World Db)
      → enforce endpoint.auth req.user ≡ ok tt
      → enforce endpoint.auth req'.user ≡ ok tt
      → endpoint.rate_limit ≡ none
      → handle_bulk_delete app req resource endpoint body w
        ≡ handle_bulk_delete app req' resource endpoint body w
  unfolding handle_bulk_delete enforce_auth check_rate_limit
  handle_bulk_delete-any_user req req' resource endpoint body w e e' limit = rw (e, e', limit) refl
