-- ===== src/Handlers/Crud/Base/Invalidation.antt =====
-- What the side effects of a write leave of the cache.
use shaperail.Prelude.{
  String, List, [], ◌∷◌, some, Bool, true, false, In, unwrap_or, if◌then◌else◌, Bool-cases, ◌≡◌,
  refl, ◌∙◌, inl, inr,
}
use shaperail.Core.Json.{Json, obj, str, object}
use shaperail.Core.Error.{Result, ok, err}
use shaperail.Core.Endpoint.{EndpointSpec}
use shaperail.Core.Resource.{ResourceDefinition}
use shaperail.Cache.{invalidate_if_needed}
use shaperail.Handlers.State.{World, M, continue, ◌>>=◌, skip, App}
use shaperail.Handlers.Crud.Base.{
  invalidate_on_of, invalidate_cache, auto_emit_event, emit_each, emit_declared_events,
  enqueue_each, enqueue_declared_jobs, run_write_side_effects,
}

either_way : {A : Type 0} (b : Bool) (a : A) → (if b then a else a) ≡ a
either_way true a = refl
either_way false a = refl

module _ {Db : Type 0} where
  -- The step leaves the cache as it is, in every world.
  abbrev KeepsCache : {A : Type 0} → M Db A → Type 0
  KeepsCache m = (w : World Db) → (m w).1.cache ≡ w.cache

  KeepsCache->>= :
      {A B : Type 0} (m : M Db A) (f : A → M Db B)
      → KeepsCache m
      → ((a : A) → KeepsCache (f a))
      → KeepsCache (m >>= f)
  KeepsCache->>= {A} {B} m f h k w = at (m w) (h w)
    where
      at : (r : Result A × World Db) → r.1.cache ≡ w.cache → (continue f r).1.cache ≡ w.cache
      at (ok a, w₁) e = k a w₁ ∙ e
      at (err x, w₁) e = e

  when-KeepsCache :
      (b : Bool) (m : M Db (Unit {0})) → KeepsCache m → KeepsCache (if b then m else skip)
  when-KeepsCache true m h w = h w
  when-KeepsCache false m h w = refl

module _ {Db : Type 0} (app : App Db) where
  emit_each-KeepsCache :
      (events : List String) (resource action : String) (v : Json)
      → KeepsCache (emit_each app events resource action v)
  unfolding emit_each
  emit_each-KeepsCache [] resource action v w = refl
  emit_each-KeepsCache (e ∷ events) resource action v w =
      emit_each-KeepsCache events resource action v _

  enqueue_each-KeepsCache :
      (jobs : List String) (payload : Json) → KeepsCache (enqueue_each app jobs payload)
  unfolding enqueue_each
  enqueue_each-KeepsCache [] payload w = refl
  enqueue_each-KeepsCache (j ∷ jobs) payload w = enqueue_each-KeepsCache jobs payload _

  auto_emit_event-KeepsCache :
      (resource : ResourceDefinition) (action : String) (v : Json)
      → KeepsCache (auto_emit_event app resource action v)
  unfolding auto_emit_event
  auto_emit_event-KeepsCache resource action v w = elim (Bool-cases app.has_emitter) [
    | inl e ↦ rw e refl
    | inr e ↦ rw e refl
  ]

  emit_declared_events-KeepsCache :
      (resource : ResourceDefinition) (endpoint : EndpointSpec) (action : String) (v : Json)
      → KeepsCache (emit_declared_events app resource endpoint action v)
  unfolding emit_declared_events
  emit_declared_events-KeepsCache resource endpoint action v =
      let events = unwrap_or endpoint.events [] in
      when-KeepsCache app.has_emitter (emit_each app events resource.resource action v)
        (emit_each-KeepsCache events resource.resource action v)

  enqueue_declared_jobs-KeepsCache :
      (resource : ResourceDefinition) (endpoint : EndpointSpec) (action : String) (v : Json)
      → KeepsCache (enqueue_declared_jobs app resource endpoint action v)
  unfolding enqueue_declared_jobs
  enqueue_declared_jobs-KeepsCache resource endpoint action v =
      let jobs = unwrap_or endpoint.jobs [] in
      let payload = obj (
        object (("resource", str resource.resource) ∷ ("action", str action) ∷ ("data", v) ∷ [])) in
      when-KeepsCache app.has_queue (enqueue_each app jobs payload)
        (enqueue_each-KeepsCache jobs payload)

  -- The side effects of a write change the cache by one invalidation, under the action's name, if the
  -- service has a cache; events and jobs leave it alone.
  pub run_write_side_effects-cache :
      (resource : ResourceDefinition) (endpoint : EndpointSpec) (action : String) (v : Json)
      (w : World Db)
      → (run_write_side_effects app resource endpoint action v w).1.cache ≡ (
          if app.has_cache
          then invalidate_if_needed app.redis resource.resource action
              (invalidate_on_of resource)
              w.cache
          else w.cache)
  unfolding run_write_side_effects invalidate_cache
  run_write_side_effects-cache resource endpoint action v w =
      KeepsCache->>= (auto_emit_event app resource action v) _
        (auto_emit_event-KeepsCache resource action v)
        (λ _.
          KeepsCache->>= (emit_declared_events app resource endpoint action v) _
            (emit_declared_events-KeepsCache resource endpoint action v)
            (λ _. enqueue_declared_jobs-KeepsCache resource endpoint action v))
        (invalidate_cache app resource action w).1
      ∙ invalidated
    where
      invalidated : (invalidate_cache app resource action w).1.cache ≡ (
          if app.has_cache
          then invalidate_if_needed app.redis resource.resource action
              (invalidate_on_of resource)
              w.cache
          else w.cache)
      invalidated = elim (Bool-cases app.has_cache) [ inl e ↦ rw e refl | inr e ↦ rw e refl ]

  -- With the documented `invalidate_on: [create, update, delete]` no side effects of a single write,
  -- whose actions are created, updated and deleted, remove anything from the cache.
  pub run_write_side_effects-documented :
      (resource : ResourceDefinition) (endpoint : EndpointSpec) (action : String) (v : Json)
      (w : World Db)
      → In action ("created" ∷ "updated" ∷ "deleted" ∷ [])
      → invalidate_on_of resource ≡ some ("create" ∷ "update" ∷ "delete" ∷ [])
      → (run_write_side_effects app resource endpoint action v w).1.cache ≡ w.cache
  unfolding invalidate_if_needed
  run_write_side_effects-documented resource endpoint action v w i e =
      run_write_side_effects-cache resource endpoint action v w ∙ rw e (kept i)
    where
      kept :
          In action ("created" ∷ "updated" ∷ "deleted" ∷ [])
          → (if app.has_cache
              then invalidate_if_needed app.redis resource.resource action
                  (some ("create" ∷ "update" ∷ "delete" ∷ []))
                  w.cache
              else w.cache)
            ≡ w.cache
      kept (inl a) = rw a (either_way app.has_cache w.cache)
      kept (inr (inl a)) = rw a (either_way app.has_cache w.cache)
      kept (inr (inr (inl a))) = rw a (either_way app.has_cache w.cache)
      kept (inr (inr (inr a))) = absurd a
