-- ===== src/Handlers/Crud/Read/Cached.antt =====
-- The response cache of the get handler: a second request gets what the first one got.
use shaperail.Prelude.{
  ℕ, String, Option, none, some, Bool, true, false, insert, ◌≡◌, ◌⊎◌, refl, sym, ap, ◌∙◌, inl, inr,
  Bool-cases,
}
use shaperail.Core.Json.{Json}
use shaperail.Core.Error.{Result, ok, err}
use shaperail.Core.Endpoint.{EndpointSpec}
use shaperail.Core.Resource.{ResourceDefinition}
use shaperail.Auth.Rbac.{enforce}
use shaperail.Cache.{Cache}
use shaperail.Handlers.Tenant.{tenant_id_for_key}
use shaperail.Handlers.State.{World, M, continue, ◌>>◌, pure, Request, Response, App}
use shaperail.Handlers.Crud.Base.{enforce_auth, check_rate_limit, parse_uuid, user_role_for_cache}
use shaperail.Handlers.Crud.Steps.{ok-injective}
use shaperail.Handlers.Crud.Read.{
  ttl_of, get_key, uses_cache, cache_key, cached_answer, answer, on_hit, on_miss, record_cache,
  store_body, hit_response, miss_response, execute_get, handle_get,
}

module _ {Db : Type 0} (app : App Db) where
  -- The request gets past everything that comes before the cache.
  abbrev pub Enters : Request → EndpointSpec → Type 0
  Enters req endpoint =
      (enforce endpoint.auth req.user ≡ ok tt) × (uses_cache app endpoint.cache req ≡ true)

  entered :
      (req : Request) (resource : ResourceDefinition) (endpoint : EndpointSpec) (path id : String)
      (w : World Db)
      → Enters req endpoint
      → endpoint.rate_limit ≡ none
      → parse_uuid app path ≡ ok id
      → handle_get app req resource endpoint path w
        ≡ cached_answer app
            (cache_key app resource "get" (insert "_id" id req.params) req)
            (ttl_of endpoint.cache)
            (execute_get app resource endpoint id req)
            w
  unfolding handle_get enforce_auth check_rate_limit
  entered req resource endpoint path id w (auth, cached) limit e = rw (auth, limit, e, cached) refl

  recorded : (hit : Bool) (w : World Db) → (record_cache app hit w).1.cache ≡ w.cache
  unfolding record_cache
  recorded hit w = elim (Bool-cases app.has_metrics) [ inl e ↦ rw e refl | inr e ↦ rw e refl ]

  -- An answer and its text.
  abbrev pub HasText : Response → String → Type 0
  HasText resp body =
      (resp ≡ hit_response app body)
      ⊎ ((v : Json) × (body ≡ app.to_text v) × (resp ≡ miss_response app v))

  -- Redis gives back under a key what was set there, since it took it and its time has not run out.
  abbrev pub Keeps : (key : String) (ttl : ℕ) → Type 0
  Keeps key ttl =
      (body : String) (entries : Cache)
      → app.redis.get key (app.redis.set_ex key body ttl entries) ≡ some body

  module _ (key : String) (ttl : ℕ) (keeps : Keeps key ttl) where
    -- What an answer is, and that its text is in the cache under the key.
    abbrev Leaves : Response → World Db → Type 0
    Leaves resp w = (body : String) × (app.redis.get key w.cache ≡ some body) × HasText resp body

    hit_lem :
        (body : String) (w : World Db) (resp : Response)
        → app.redis.get key w.cache ≡ some body
        → (on_hit app body w).0 ≡ ok resp
        → Leaves resp (on_hit app body w).1
    unfolding on_hit
    hit_lem body w resp h e =
        (body, ap (app.redis.get key) (recorded true w) ∙ h, inl (sym (ok-injective e)))

    miss_lem :
        (execute : M Db Json) (w : World Db) (resp : Response)
        → (on_miss app key ttl execute w).0 ≡ ok resp
        → Leaves resp (on_miss app key ttl execute w).1
    unfolding on_miss store_body
    miss_lem execute w resp e = at (execute (record_cache app false w).1) e
      where
        stored : Json → M Db Response
        stored v = store_body app key (app.to_text v) ttl >> pure (miss_response app v)

        at :
            (r : Result Json × World Db)
            → (continue stored r).0 ≡ ok resp
            → Leaves resp (continue stored r).1
        at (ok v, w₁) h =
            (app.to_text v, keeps (app.to_text v) w₁.cache, inr (v, refl, sym (ok-injective h)))
        at (err x, w₁) h = cc

    answered :
        (execute : M Db Json) (w : World Db) (resp : Response)
        → (cached_answer app key ttl execute w).0 ≡ ok resp
        → Leaves resp (cached_answer app key ttl execute w).1
    unfolding cached_answer
    answered execute w resp e = at (app.redis.get key w.cache) refl e
      where
        at :
            (o : Option String)
            → app.redis.get key w.cache ≡ o
            → (answer app key ttl execute o w).0 ≡ ok resp
            → Leaves resp (answer app key ttl execute o w).1
        at none h q = miss_lem execute w resp q
        at (some body) h q = hit_lem body w resp h q

  hits :
      (key : String) (ttl : ℕ) (execute : M Db Json) (w : World Db) (body : String)
      → app.redis.get key w.cache ≡ some body
      → (cached_answer app key ttl execute w).0 ≡ ok (hit_response app body)
  unfolding cached_answer on_hit
  hits key ttl execute w body h = rw h refl

  same_key :
      (req req' : Request) (resource : ResourceDefinition) (id : String)
      → req'.params ≡ req.params
      → user_role_for_cache req'.user ≡ user_role_for_cache req.user
      → tenant_id_for_key req'.user ≡ tenant_id_for_key req.user
      → cache_key app resource "get" (insert "_id" id req'.params) req'
        ≡ cache_key app resource "get" (insert "_id" id req.params) req
  unfolding cache_key
  same_key req req' resource id p r t = rw (p, r, t) refl

  -- On an endpoint with no rate limit, a get that the cache may answer and that succeeds, where Redis took
  -- the entry, leaves its text there. In any later world in which Redis still answers the key with what the
  -- first get left (the entry has neither expired nor been invalidated, and Redis has not failed), a get
  -- of the same record and parameters by a user of the same role and tenant, whom the endpoint's rule lets
  -- past `enforce` and whom the cache may answer, answers 200 with that very text, from the cache. The
  -- second user's `sub`, the record's creator and the database do not matter.
  pub handle_get-repeats :
      (req req' : Request) (resource : ResourceDefinition) (endpoint : EndpointSpec)
      (path id : String) (w later : World Db) (resp : Response)
      → Enters req endpoint
      → Enters req' endpoint
      → endpoint.rate_limit ≡ none
      → parse_uuid app path ≡ ok id
      → req'.params ≡ req.params
      → user_role_for_cache req'.user ≡ user_role_for_cache req.user
      → tenant_id_for_key req'.user ≡ tenant_id_for_key req.user
      → Keeps (get_key app req resource id) (ttl_of endpoint.cache)
      → (handle_get app req resource endpoint path w).0 ≡ ok resp
      → app.redis.get (get_key app req resource id) later.cache
        ≡ app.redis.get
            (get_key app req resource id)
            (handle_get app req resource endpoint path w).1.cache
      → (body : String) × ((handle_get app req' resource endpoint path later).0
          ≡ ok (hit_response app body))
        × HasText resp body
  handle_get-repeats req req' resource endpoint path id w later resp n n' limit e p r t keeps h
        left =
      let run = entered req resource endpoint path id w n limit e in
      let (body, kept, same) = answered _ _ keeps _ w resp (ap (λ x. x.0) (sym run) ∙ h) in
      let again = entered req' resource endpoint path id later n' limit e in
      let there =
        ap (λ k. app.redis.get k later.cache) (same_key req req' resource id p r t)
        ∙ left
        ∙ ap (λ x. app.redis.get (get_key app req resource id) x.1.cache) run
        ∙ kept in
      (body, ap (λ x. x.0) again ∙ hits _ _ _ later body there, same)
