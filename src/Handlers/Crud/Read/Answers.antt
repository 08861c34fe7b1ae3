-- ===== src/Handlers/Crud/Read/Answers.antt =====
-- What a get or a list answers from its cache, and when it does its own work.
use shaperail.Prelude.{
  ℕ, String, Option, none, some, Bool, true, false, ◌≡◌, ◌⊎◌, sym, ◌∙◌, if◌then◌else◌, refl, inl,
  inr, Bool-cases, Option-cases,
}
use shaperail.Core.Json.{Json}
use shaperail.Core.Error.{Result, ok, err}
use shaperail.Core.Endpoint.{EndpointSpec}
use shaperail.Auth.Rbac.{enforce}
use shaperail.Handlers.State.{World, M, ◌>>=◌, pure, lift, Request, Response, App}
use shaperail.Handlers.Crud.Base.{enforce_auth, check_rate_limit, limit_by}
use shaperail.Handlers.Crud.Steps.{bind-eq-ok, ok-injective}
use shaperail.Handlers.Crud.Read.{
  uses_cache, cached_answer, answer, on_hit, on_miss, record_cache, hit_response,
}

-- Which branch a test takes.
pub branch :
    {Db A : Type 0} (b : Bool) (m k : M Db A) {w : World Db} {a : A}
    → ((if b then m else k) w).0 ≡ ok a
    → ((b ≡ true) × ((m w).0 ≡ ok a)) ⊎ ((b ≡ false) × ((k w).0 ≡ ok a))
branch true m k e = inl (refl, e)
branch false m k e = inr (refl, e)

module _ {Db : Type 0} (app : App Db) where
  -- The cache's answer is the text that it holds under the key.
  abbrev pub FromCache : Request → EndpointSpec → (key : String) → World Db → Response → Type 0
  FromCache req endpoint key w resp =
      (body : String) × (uses_cache app endpoint.cache req ≡ true)
      × (app.redis.get key w.cache ≡ some body)
      × (resp ≡ hit_response app body)

  -- The cache has no part in the answer, or no entry for it.
  abbrev pub NotCached : Request → EndpointSpec → (key : String) → World Db → Type 0
  NotCached req endpoint key w =
      (uses_cache app endpoint.cache req ≡ false) ⊎ (app.redis.get key w.cache ≡ none)

  pub recorded : (hit : Bool) (w : World Db) → (record_cache app hit w).1.db ≡ w.db
  unfolding record_cache
  recorded hit w = elim (Bool-cases app.has_metrics) [ inl e ↦ rw e refl | inr e ↦ rw e refl ]

  -- Neither the roles nor the limiter touch the cache.
  pub same_cache :
      (req : Request) (endpoint : EndpointSpec) (key : String) (w : World Db)
      → (check_rate_limit app endpoint req key (enforce_auth app req endpoint w).1).1.cache
        ≡ w.cache
  unfolding check_rate_limit limit_by enforce_auth
  same_cache req endpoint key w = limiting _ ∙ entering (enforce endpoint.auth req.user)
    where
      entering : (r : Result (Unit {0})) → (((lift r) >>= (λ _. pure req.user)) w).1.cache ≡ w.cache
      entering (ok x) = refl
      entering (err x) = refl

      limiting : (u : World Db) → (check_rate_limit app endpoint req key u).1.cache ≡ u.cache
      limiting u = elim (Option-cases endpoint.rate_limit) [
        | inl e ↦ rw e refl
        | inr (spec, e) ↦
            rw e (elim (Bool-cases app.has_limiter) [ inl e' ↦ rw e' refl | inr e' ↦ rw e' refl ])
      ]

  -- What the cache answers is a text that it holds, or on a miss the result of the handler's own work.
  pub cached_answer_lem :
      (key : String) (ttl : ℕ) (execute : M Db Json) (w : World Db) {resp : Response}
      → (cached_answer app key ttl execute w).0 ≡ ok resp
      → ((body : String) × (app.redis.get key w.cache ≡ some body) × (resp ≡ hit_response app body))
        ⊎ ((app.redis.get key w.cache ≡ none)
            × ((v : Json) × ((execute (record_cache app false w).1).0 ≡ ok v)))
  unfolding cached_answer on_hit on_miss
  cached_answer_lem key ttl execute w {resp} e = at (app.redis.get key w.cache) refl e
    where
      at :
          (o : Option String)
          → app.redis.get key w.cache ≡ o
          → (answer app key ttl execute o w).0 ≡ ok resp
          → ((body : String) × (app.redis.get key w.cache ≡ some body)
              × (resp ≡ hit_response app body))
            ⊎ ((app.redis.get key w.cache ≡ none)
                × ((v : Json) × ((execute (record_cache app false w).1).0 ≡ ok v)))
      at (some body) h q = inl (body, h, sym (ok-injective q))
      at none h q =
          let (v, e₁, k₁) = bind-eq-ok execute _ (record_cache app false w).1 q in inr (h, (v, e₁))
