-- ===== src/Handlers/Crud/Read/Served.antt =====
-- What a get or a list serves from the database: only what its checks admit.
use shaperail.Prelude.{
  String, List, [], Option, none, some, true, false, ◌≡◌, ◌⊎◌, sym, ap, ◌∙◌, inl, inr,
}
use shaperail.Core.Json.{Json}
use shaperail.Core.Error.{ok}
use shaperail.Core.Endpoint.{EndpointSpec}
use shaperail.Core.Resource.{ResourceDefinition}
use shaperail.Auth.Rbac.{AuthenticatedUser, enforce, verify_owner}
use shaperail.Auth.Rbac.Policy.{Permits, enforce-Permits}
use shaperail.Db.Filter.{FilterSet, add}
use shaperail.Handlers.Params.{parse_list_params, validate_filter_param_form}
use shaperail.Handlers.Response.{single}
use shaperail.Handlers.Tenant.{tenant_of, is_super_admin, verify_tenant, inject_tenant_filter}
use shaperail.Handlers.Tenant.Isolation.{Sees, verify_tenant-Sees, inject_tenant_filter_lem}
use shaperail.Handlers.State.{
  World, json_body, ◌>>=◌, pure, lift, read_db, Store, Request, Response, App,
}
use shaperail.Handlers.Crud.Base.{enforce_auth, check_rate_limit, parse_uuid, store_for_or_error}
use shaperail.Handlers.Crud.Steps.{bind-eq-ok}
use shaperail.Handlers.Crud.Authorised.{enforce_auth_lem, limited}
use shaperail.Handlers.Crud.Read.Answers.{
  branch, FromCache, NotCached, recorded, same_cache, cached_answer_lem,
}
use shaperail.Handlers.Crud.Read.{
  get_key, list_key, ttl_of, uses_cache, execute_get, execute_list, handle_get, handle_list,
  cached_answer,
}

-- The filters of a list: the client's, or these and the user's tenant.
abbrev pub Filtered : ResourceDefinition → Option AuthenticatedUser → FilterSet → FilterSet → Type 0
Filtered resource user filters got =
    ((resource.tenant_key ≡ none) ⊎ (is_super_admin user ≡ true)) × (got ≡ filters)
    ⊎ ((k : String) × (t : String) × (resource.tenant_key ≡ some k)
        × (tenant_of user ≡ some t)
        × (got ≡ add filters k t))

module _ {Db : Type 0} (app : App Db) where
  -- A row that the store holds at an id, and that the user may read.
  abbrev pub Readable :
      Request → ResourceDefinition → EndpointSpec → Db → (id : String) → Json → Type 0
  Readable req resource endpoint db id row =
      (store : Store Db) × (store_for_or_error app resource ≡ ok store)
      × (store.find_by_id id db ≡ ok row)
      × (verify_owner endpoint.auth req.user row ≡ ok tt)
      × Sees resource req.user row

  pub execute_get_lem :
      (resource : ResourceDefinition) (endpoint : EndpointSpec) (id : String) (req : Request)
      (w : World Db) {v : Json}
      → (execute_get app resource endpoint id req w).0 ≡ ok v
      → (row : Json) × Readable req resource endpoint w.db id row
  unfolding execute_get
  execute_get_lem resource endpoint id req w e =
      let (store, e₁, k₁) = bind-eq-ok (lift (store_for_or_error app resource)) _ w e in
      let (row, e₂, k₂) = bind-eq-ok (read_db (store.find_by_id id)) _ w k₁ in
      let (_, e₃, k₃) = bind-eq-ok (lift (verify_tenant resource req.user row)) _ w k₂ in
      let (_, e₄, k₄) = bind-eq-ok (lift (verify_owner endpoint.auth req.user row)) _ w k₃ in
      (row, (store, e₁, e₂, e₄, (verify_tenant-Sees resource req.user row).0.0 e₃))

  -- The row under the id in the path, permitted to the user and of a tenant that it sees.
  abbrev pub FoundRow : Request → ResourceDefinition → EndpointSpec → (path : String) → Db → Type 0
  FoundRow req resource endpoint path db =
      (id : String) × (row : Json) × (store : Store Db) × (parse_uuid app path ≡ ok id)
      × (store_for_or_error app resource ≡ ok store)
      × (store.find_by_id id db ≡ ok row)
      × Permits endpoint.auth req.user row
      × Sees resource req.user row

  get_row :
      (req : Request) (resource : ResourceDefinition) (endpoint : EndpointSpec) (path id : String)
      (w u : World Db) {v : Json}
      → enforce endpoint.auth req.user ≡ ok tt
      → parse_uuid app path ≡ ok id
      → u.db ≡ w.db
      → (execute_get app resource endpoint id req u).0 ≡ ok v
      → FoundRow req resource endpoint path w.db
  get_row req resource endpoint path id w u auth e same k =
      let (row, (store, s, found, owned, seen)) = execute_get_lem resource endpoint id req u k in
      (
        id,
        row,
        store,
        e,
        s,
        ap (store.find_by_id id) (sym same) ∙ found,
        (enforce-Permits endpoint.auth req.user row).0 (auth, owned),
        seen,
      )

  -- A get succeeds only for a user that the endpoint's rule lets past `enforce`, on a path with an id, and
  -- in one of two ways. Either it uses the cache, and the answer is the text that the cache holds under
  -- the key of the id, the parameters and the user's role and tenant. Or the cache has no part in it or
  -- no entry under the key, and the store holds a row under the id, which the endpoint's rule permits to
  -- the user and whose tenant the user sees.
  pub handle_get-FoundRow :
      (req : Request) (resource : ResourceDefinition) (endpoint : EndpointSpec) (path : String)
      (w : World Db) (resp : Response)
      → (handle_get app req resource endpoint path w).0 ≡ ok resp
      → (enforce endpoint.auth req.user ≡ ok tt)
        × ((id : String) × (parse_uuid app path ≡ ok id)
            × (FromCache app req endpoint (get_key app req resource id) w resp
                ⊎ (NotCached app req endpoint (get_key app req resource id) w
                    × FoundRow req resource endpoint path w.db)))
  unfolding handle_get
  handle_get-FoundRow req resource endpoint path w resp e =
      let (user, e₁, k₁) = bind-eq-ok (enforce_auth app req endpoint) _ w e in
      let (_, e₂, k₂) = bind-eq-ok (check_rate_limit app endpoint req _) _ _ k₁ in
      let (id, e₃, k₃) = bind-eq-ok (lift (parse_uuid app path)) _ _ k₂ in
      let auth = (enforce_auth_lem app req endpoint w e₁).0 in
      let same = (limited app req endpoint _ w).0 in
      (
        auth,
        (
          id,
          e₃,
          elim (branch (uses_cache app endpoint.cache req)
              (cached_answer app (get_key app req resource id) (ttl_of endpoint.cache)
                (execute_get app resource endpoint id req))
              (execute_get app resource endpoint id req >>= λ v. pure (single v)) k₃) [
                | inr (c, k) ↦
                    let (v, e₄, k₄) = bind-eq-ok (execute_get app resource endpoint id req) _ _ k in
                    inr (inl c, get_row req resource endpoint path id w _ auth e₃ same e₄)
                | inl (c, k) ↦
                    elim (cached_answer_lem app (get_key app req resource id)
                      (ttl_of endpoint.cache) (execute_get app resource endpoint id req) _ k) [
                        | inl (body, h, q) ↦ inl (
                          body,
                          c,
                          ap (app.redis.get _) (sym (same_cache app req endpoint _ w)) ∙ h,
                          q,
                        )
                        | inr (h, (v, e₄)) ↦ inr (
                          inr (ap (app.redis.get _) (sym (same_cache app req endpoint _ w)) ∙ h),
                          get_row req resource endpoint path id w _ auth e₃
                              (recorded app false _ ∙ same) e₄,
                        )
                      ]
              ],
        ),
      )

  -- The page that the store answers under the filters of the request.
  abbrev pub ListedPage : Request → ResourceDefinition → EndpointSpec → Db → Type 0
  ListedPage req resource endpoint db =
      let params = parse_list_params req.params endpoint in
      (store : Store Db) × (filters : FilterSet) × (page : List Json × Json) × (store_for_or_error
          app resource
        ≡ ok store)
      × (store.find_all endpoint filters params.search params.sort params.page db ≡ ok page)
      × Filtered resource req.user params.filters filters

  listed_page :
      (req : Request) (resource : ResourceDefinition) (endpoint : EndpointSpec) (w u : World Db)
      {v : Json}
      → u.db ≡ w.db
      → (execute_list app req resource endpoint u).0 ≡ ok v
      → ListedPage req resource endpoint w.db
  unfolding execute_list
  listed_page req resource endpoint w u same k =
      let (_, e₄, k₄) = bind-eq-ok (lift (validate_filter_param_form req.params endpoint)) _ u k in
      let (filters, e₅, k₅) = bind-eq-ok (lift (inject_tenant_filter resource req.user _)) _ _ k₄ in
      let (store, e₆, k₆) = bind-eq-ok (lift (store_for_or_error app resource)) _ _ k₅ in
      let (page, e₇, k₇) = bind-eq-ok (read_db (store.find_all endpoint filters _ _ _)) _ _ k₆ in
      (
        store,
        filters,
        page,
        e₆,
        ap (store.find_all endpoint filters _ _ _) (sym same) ∙ e₇,
        inject_tenant_filter_lem resource req.user _ filters e₅,
      )

  -- A list succeeds only for a user that the endpoint's rule lets past `enforce`, and in one of two ways.
  -- Either it uses the cache, and the answer is the text that the cache holds under the key of the
  -- parameters and the user's role and tenant. Or the cache has no part in it or no entry under the key,
  -- and the store answers one page under the client's filters, and on a resource with a tenant key, unless the
  -- user is a super admin, also under the tenant of the user's claim.
  pub handle_list-ListedPage :
      (req : Request) (resource : ResourceDefinition) (endpoint : EndpointSpec) (w : World Db)
      (resp : Response)
      → (handle_list app req resource endpoint w).0 ≡ ok resp
      → (enforce endpoint.auth req.user ≡ ok tt)
        × (FromCache app req endpoint (list_key app req resource) w resp
            ⊎ (NotCached app req endpoint (list_key app req resource) w
                × ListedPage req resource endpoint w.db))
  unfolding handle_list
  handle_list-ListedPage req resource endpoint w resp e =
      let (user, e₁, k₁) = bind-eq-ok (enforce_auth app req endpoint) _ w e in
      let (_, e₂, k₂) = bind-eq-ok (check_rate_limit app endpoint req _) _ _ k₁ in
      let same = (limited app req endpoint _ w).0 in
      (
        (enforce_auth_lem app req endpoint w e₁).0,
        elim (branch (uses_cache app endpoint.cache req)
            (cached_answer app (list_key app req resource) (ttl_of endpoint.cache)
              (execute_list app req resource endpoint))
            (execute_list app req resource endpoint >>= λ v.
              pure (record { status = 200; headers = []; body = json_body v }))
            k₂) [
              | inr (c, k) ↦
                  let (v, e₃, k₃) = bind-eq-ok (execute_list app req resource endpoint) _ _ k in
                  inr (inl c, listed_page req resource endpoint w _ same e₃)
              | inl (c, k) ↦
                  elim (cached_answer_lem app (list_key app req resource) (ttl_of endpoint.cache)
                    (execute_list app req resource endpoint) _ k) [
                      | inl (body, h, q) ↦ inl (
                        body,
                        c,
                        ap (app.redis.get _) (sym (same_cache app req endpoint _ w)) ∙ h,
                        q,
                      )
                      | inr (h, (v, e₃)) ↦ inr (
                        inr (ap (app.redis.get _) (sym (same_cache app req endpoint _ w)) ∙ h),
                        listed_page req resource endpoint w _ (recorded app false _ ∙ same) e₃,
                      )
                    ]
            ],
      )
