-- ===== src/Handlers/Crud/Write/Inserted.antt =====
-- What a create request inserts.
use shaperail.Prelude.{String, none, refl, ◌∙◌, ap, keys, In, lookup, [], ◌≡◌, sym, subst}
use shaperail.Core.Json.{Json, Map}
use shaperail.Core.Error.{ok}
use shaperail.Core.Endpoint.{EndpointSpec}
use shaperail.Core.Resource.{ResourceDefinition}
use shaperail.Auth.Rbac.{enforce}
use shaperail.Handlers.Validate.{
  validate_input_shape, validate_required_present, strip_transient_fields,
}
use shaperail.Handlers.Validate.Phases.{
  HasShape, HasRequired, two_phases, required_present-HasRequired,
}
use shaperail.Handlers.Tenant.{inject_tenant_into_input}
use shaperail.Handlers.Controller.{run_hooks}
use shaperail.Handlers.State.{World, lift, write_db, Store, Context, Request, Response, App}
use shaperail.Handlers.Crud.Base.{
  enforce_auth, check_rate_limit, extract_input, run_before_controller, store_for_or_error,
}
use shaperail.Handlers.Crud.Steps.{bind-eq-ok, ok-injective}
use shaperail.Handlers.Crud.Authorised.{enforce_auth_lem, limited}
use shaperail.Handlers.Crud.Write.Allowed.{Takes, extract_input-Takes}
use shaperail.Handlers.Crud.Write.{check_references, handle_create}

-- The before-controller leaves the keys that were sent as they were.
abbrev pub Untouched : Map → Map → Type 0
Untouched sent written = (k : String) → In k (keys sent) → lookup k written ≡ lookup k sent

module _ {Db : Type 0} (app : App Db) where
  -- Without a controller the before-phase does nothing.
  no_controller :
      (resource : ResourceDefinition) (endpoint : EndpointSpec) (input : Map) (req : Request)
      (w : World Db)
      → endpoint.controller ≡ none
      → ((run_before_controller app resource endpoint input req [] w).1 ≡ w)
        × ((ctx : Context)
            → (run_before_controller app resource endpoint input req [] w).0 ≡ ok ctx
            → ctx.input ≡ input)
  unfolding run_before_controller run_hooks
  no_controller resource endpoint input req w e =
      rw e (refl, λ ctx h. ap (λ c. c.input) (sym (ok-injective h)))

  abbrev pub Inserts :
      Request → ResourceDefinition → EndpointSpec → (body : Json) → World Db → Type 0
  Inserts req resource endpoint body w =
      (extracted : Map) × (ctx : Context) × (store : Store Db) × (db : Db) × (row : Json) × (enforce
          endpoint.auth req.user
        ≡ ok tt)
      × Takes resource endpoint body extracted
      × (store_for_or_error app resource ≡ ok store)
      × ((store.insert (strip_transient_fields ctx.input resource) db).0 ≡ ok row)
      × HasRequired ctx.input resource.schema
      × (Untouched (inject_tenant_into_input resource req.user extracted) ctx.input
          → HasShape app.platform ctx.input resource.schema)
      × (endpoint.controller ≡ none
          → (db ≡ w.db) × (ctx.input ≡ inject_tenant_into_input resource req.user extracted))

  -- A create request succeeds only by an insertion of a record, without its transient fields, that
  -- holds every required field with no default, for a user that the endpoint's rule lets past `enforce`.
  -- The allowed input is the body's entries under the keys that the endpoint declares, or where it
  -- declares none, under the fields that are neither generated nor primary. If the before-controller leaves
  -- the keys of the allowed input and the tenant as they were, each field of the record that clients may
  -- set satisfies the field's rules (values, length, bounds, format, UUID and items, of which those on texts
  -- and numbers pass a value of another JSON type). On an endpoint without a controller the record is the
  -- allowed input with the tenant, and goes into the database as the request found it.
  pub handle_create-Inserts :
      (req : Request) (resource : ResourceDefinition) (endpoint : EndpointSpec) (body : Json)
      (w : World Db) (resp : Response)
      → (handle_create app req resource endpoint body w).0 ≡ ok resp
      → Inserts req resource endpoint body w
  unfolding handle_create
  handle_create-Inserts req resource endpoint body w resp e =
      let (user, e₁, k₁) = bind-eq-ok (enforce_auth app req endpoint) _ w e in
      let (auth, u) = enforce_auth_lem app req endpoint w e₁ in
      let (_, e₂, k₂) = bind-eq-ok (check_rate_limit app endpoint req _) _ _ k₁ in
      let (extracted, e₃, k₃) = bind-eq-ok (lift (extract_input body resource endpoint)) _ _ k₂ in
      let (_, e₄, k₄) =
        bind-eq-ok
          (lift (
            validate_input_shape app.platform (inject_tenant_into_input resource user extracted)
              resource))
          _ _ k₃ in
      let (ctx, e₅, k₅) =
        bind-eq-ok (run_before_controller app resource endpoint _ req []) _ _ k₄ in
      let (_, e₆, k₆) =
        bind-eq-ok (lift (validate_required_present app.platform ctx.input resource _)) _ _ k₅ in
      let (_, e₇, k₇) = bind-eq-ok (check_references app ctx.input resource) _ _ k₆ in
      let (store, e₈, k₈) = bind-eq-ok (lift (store_for_or_error app resource)) _ _ k₇ in
      let (row, e₉, k₉) =
        bind-eq-ok (write_db (store.insert (strip_transient_fields ctx.input resource))) _ _ k₈ in
      (
        extracted,
        ctx,
        store,
        _,
        row,
        auth,
        extract_input-Takes body resource endpoint e₃,
        e₈,
        e₉,
        required_present-HasRequired app.platform ctx.input resource _ e₆,
        λ same.
            (two_phases app.platform (inject_tenant_into_input resource user extracted) ctx.input
              resource
              (subst (λ x. Untouched (inject_tenant_into_input resource x extracted) ctx.input)
                (sym u) same)
              e₄ e₆).0,
        λ none_declared.
            let (still, kept) =
              no_controller resource endpoint (inject_tenant_into_input resource user extracted) req
                (check_rate_limit app endpoint req _ (enforce_auth app req endpoint w).1).1
                none_declared in
            (
              ap (λ x. x.db) still ∙ (limited app req endpoint _ w).0,
              kept ctx e₅ ∙ ap (λ x. inject_tenant_into_input resource x extracted) u,
            ),
      )
