-- ===== src/Handlers/Crud/Authorised.antt =====
-- Which requests reach a record: the checks of the update and delete handlers, before anything is
-- written.
use shaperail.Prelude.{
  String, Option, false, not, ◌&&◌, is_some, ◌≡◌, ◌⊎◌, refl, subst, inl, inr, sym, ◌∙◌, ap, arith,
  Bool-cases, Option-cases,
}
use shaperail.Core.Json.{Json}
use shaperail.Core.Error.{Result, ok, err}
use shaperail.Core.Endpoint.{EndpointSpec, AuthRule}
use shaperail.Core.Resource.{ResourceDefinition}
use shaperail.Auth.Rbac.{AuthenticatedUser, enforce, verify_owner, needs_owner_check}
use shaperail.Auth.Rbac.Policy.{Permits, enforce-Permits}
use shaperail.Handlers.Tenant.{verify_tenant, is_super_admin}
use shaperail.Handlers.Tenant.Isolation.{Sees, unguarded-Sees, verify_tenant-Sees}
use shaperail.Handlers.State.{
  World, M, lift, pure, ◌>>=◌, read_db, ◌>>◌, Store, Request, Response, App,
}
use shaperail.Handlers.Crud.Base.{
  enforce_auth, check_rate_limit, limit_by, check_record, check_existing, parse_uuid, extract_input,
  store_for_or_error,
}
use shaperail.Handlers.Crud.Steps.{
  Refused, SameStore, step, bind-eq-ok, SameStore-bind, ok-injective,
}
use shaperail.Handlers.Crud.Write.{handle_update, handle_delete}

unowned :
    (rule : Option AuthRule) (user : Option AuthenticatedUser) (row : Json)
    → needs_owner_check rule user ≡ false
    → verify_owner rule user row ≡ ok tt
unfolding verify_owner
unowned rule user row b = rw b refl

module _ {Db : Type 0} (app : App Db) where
  -- What a request for the record at a path shows before the record may be changed.
  abbrev pub Authorised :
      Request → ResourceDefinition → EndpointSpec → (path : String) → World Db → Type 0
  Authorised req resource endpoint path w =
      (id : String) × (store : Store Db) × (parse_uuid app path ≡ ok id)
      × (store_for_or_error app resource ≡ ok store)
      × ((row : Json)
          → store.find_by_id id w.db ≡ ok row
          → Permits endpoint.auth req.user row × Sees resource req.user row)

  pub enforce_auth_lem :
      (req : Request) (endpoint : EndpointSpec) (w : World Db) {user : Option AuthenticatedUser}
      → (enforce_auth app req endpoint w).0 ≡ ok user
      → (enforce endpoint.auth req.user ≡ ok tt) × (user ≡ req.user)
  unfolding enforce_auth
  enforce_auth_lem req endpoint w {user} e = by_result (enforce endpoint.auth req.user) refl
    where
      by_result :
          (r : Result (Unit {0}))
          → enforce endpoint.auth req.user ≡ r
          → (enforce endpoint.auth req.user ≡ ok tt) × (user ≡ req.user)
      by_result (ok x) h = (h, ground arith)
      by_result (err x) h = ground arith

  pub enforce_auth-SameStore :
      (req : Request) (endpoint : EndpointSpec) (w : World Db)
      → SameStore w (enforce_auth app req endpoint w).1
  unfolding enforce_auth
  enforce_auth-SameStore req endpoint w = at (enforce endpoint.auth req.user)
    where
      at : (r : Result (Unit {0})) → SameStore w (((lift r) >>= (λ _. pure req.user)) w).1
      at (ok x) = (refl, refl)
      at (err x) = (refl, refl)

  pub check_rate_limit-SameStore :
      (endpoint : EndpointSpec) (req : Request) (key : String) (w : World Db)
      → SameStore w (check_rate_limit app endpoint req key w).1
  unfolding check_rate_limit limit_by
  check_rate_limit-SameStore endpoint req key w = elim (Option-cases endpoint.rate_limit) [
    | inl e ↦ rw e (refl, refl)
    | inr (spec, e) ↦ rw e (elim (Bool-cases app.has_limiter) [
      | inl h ↦ rw h (refl, refl)
      | inr h ↦ rw h (refl, refl)
    ])
  ]

  pub limited :
      (req : Request) (endpoint : EndpointSpec) (key : String) (w : World Db)
      → SameStore w (check_rate_limit app endpoint req key (enforce_auth app req endpoint w).1).1
  limited req endpoint key w =
      let w₁ = (enforce_auth app req endpoint w).1 in
      let (d, e) = check_rate_limit-SameStore endpoint req key w₁ in
      let (d', e') = enforce_auth-SameStore req endpoint w in (d ∙ d', e ∙ e')

  check_existing_lem :
      (resource : ResourceDefinition) (endpoint : EndpointSpec) (store : Store Db) (id : String)
      (user : Option AuthenticatedUser) (w : World Db)
      → SameStore w (check_existing app resource endpoint store id user w).1
        × ((check_existing app resource endpoint store id user w).0 ≡ ok tt
            → (row : Json) → store.find_by_id id w.db ≡ ok row
            → (verify_owner endpoint.auth user row ≡ ok tt) × Sees resource user row)
  unfolding check_existing
  check_existing_lem resource endpoint store id user w = (
    SameStore-bind w (read_db (store.find_by_id id)) _ w (refl, refl)
        (λ row _.
          SameStore-bind w (lift (verify_tenant resource user row)) _ w (refl, refl)
            (λ _ _. (refl, refl))),
    λ e row found.
        let (existing, e₁, e₂) = bind-eq-ok (read_db (store.find_by_id id)) _ w e in
        let (_, e₃, e₄) = bind-eq-ok (lift (verify_tenant resource user existing)) _ w e₂ in
        let same = ok-injective (sym e₁ ∙ found) in
        (rw (sym same) e₄, (verify_tenant-Sees resource user row).0.0 (rw (sym same) e₃)),
  )

  -- The record check passes only on a record that the user's tenant and role admit.
  check_record_lem :
      (resource : ResourceDefinition) (endpoint : EndpointSpec) (store : Store Db) (id : String)
      (user : Option AuthenticatedUser) (w : World Db)
      → SameStore w (check_record app resource endpoint store id user w).1
        × ((check_record app resource endpoint store id user w).0 ≡ ok tt
            → (row : Json) → store.find_by_id id w.db ≡ ok row
            → (verify_owner endpoint.auth user row ≡ ok tt) × Sees resource user row)
  unfolding check_record
  check_record_lem resource endpoint store id user w =
      elim (Bool-cases (needs_owner_check endpoint.auth user)) [
        | inl b ↦ rw b (check_existing_lem resource endpoint store id user w)
        | inr b ↦ elim (Bool-cases (is_some resource.tenant_key && not (is_super_admin user))) [
          | inl c ↦ rw (b, c) (check_existing_lem resource endpoint store id user w)
          | inr c ↦
              rw (b, c)
                (
                  (refl, refl),
                  λ e row found.
                      (unowned endpoint.auth user row b, unguarded-Sees resource user row c),
                )
        ]
      ]

  checked_step :
      (req : Request) (resource : ResourceDefinition) (endpoint : EndpointSpec) (path : String)
      (w₀ w : World Db) (id : String) (store : Store Db) (user : Option AuthenticatedUser)
      (k : M Db Response)
      → SameStore w₀ w
      → (enforce endpoint.auth req.user ≡ ok tt) × (user ≡ req.user)
      → parse_uuid app path ≡ ok id
      → store_for_or_error app resource ≡ ok store
      → Refused w₀ ((check_record app resource endpoint store id user >> k) w)
        ⊎ Authorised req resource endpoint path w₀
  checked_step req resource endpoint path w₀ w id store user k same (auth, u) e s =
      let c = check_record_lem resource endpoint store id user w in
      step w₀ (check_record app resource endpoint store id user) (λ _. k) w
        (c.0.0 ∙ same.0, c.0.1 ∙ same.1)
        (λ _ passed. inr (
          id,
          store,
          e,
          s,
          λ row found.
              let (owned, seen) = c.1 passed row (ap (store.find_by_id id) same.0 ∙ found) in
              (
                (enforce-Permits endpoint.auth req.user row).0
                    (auth, subst (λ x. verify_owner endpoint.auth x row ≡ ok tt) u owned),
                subst (λ x. Sees resource x row) u seen,
              ),
        ))

  -- The update handler either refuses the request, with nothing written or sent, or gets past its
  -- checks: the path is a UUID, the resource has a store, and if the store has a record under it, the
  -- endpoint's rule permits the user on the record and the user sees the record's tenant.
  pub handle_update-Authorised :
      (req : Request) (resource : ResourceDefinition) (endpoint : EndpointSpec) (path : String)
      (body : Json) (w : World Db)
      → Refused w (handle_update app req resource endpoint path body w)
        ⊎ Authorised req resource endpoint path w
  unfolding handle_update
  handle_update-Authorised req resource endpoint path body w =
      step w (enforce_auth app req endpoint) _ w (enforce_auth-SameStore req endpoint w) (λ user a.
        step w (check_rate_limit app endpoint req _) _ _ (limited req endpoint _ w) (λ _ _.
          step w (lift (parse_uuid app path)) _ _ (limited req endpoint _ w) (λ id e.
            step w (lift (extract_input body resource endpoint)) _ _ (limited req endpoint _ w)
              (λ input _.
                step w (lift (store_for_or_error app resource)) _ _ (limited req endpoint _ w)
                  (λ store s.
                    checked_step req resource endpoint path w _ id store user _
                      (limited req endpoint _ w) (enforce_auth_lem req endpoint w a) e s)))))

  -- The delete handler either refuses the request, with nothing written or sent, or gets past its
  -- checks: the path is a UUID, the resource has a store, and if the store has a record under it, the
  -- endpoint's rule permits the user on the record and the user sees the record's tenant.
  pub handle_delete-Authorised :
      (req : Request) (resource : ResourceDefinition) (endpoint : EndpointSpec) (path : String)
      (w : World Db)
      → Refused w (handle_delete app req resource endpoint path w)
        ⊎ Authorised req resource endpoint path w
  unfolding handle_delete
  handle_delete-Authorised req resource endpoint path w =
      step w (enforce_auth app req endpoint) _ w (enforce_auth-SameStore req endpoint w) (λ user a.
        step w (check_rate_limit app endpoint req _) _ _ (limited req endpoint _ w) (λ _ _.
          step w (lift (parse_uuid app path)) _ _ (limited req endpoint _ w) (λ id e.
            step w (lift (store_for_or_error app resource)) _ _ (limited req endpoint _ w)
              (λ store s.
                checked_step req resource endpoint path w _ id store user _
                  (limited req endpoint _ w) (enforce_auth_lem req endpoint w a) e s))))
