-- ===== src/Workspace/Valid.antt =====
-- What a workspace that passes the checks promises to those who start its services.
use shaperail.Prelude.{
  ℕ, String, List, [], ◌∷◌, Option, none, some, Bool, true, false, not, ◌==◌, eq_iff, All, contains,
  contains_key, contains-keys, map_option, Bool-cases, ◌≡◌, ◌≢◌, inl, inr, refl, sym, subst, ◌∙◌,
  arith,
}
use shaperail.Workspace.{
  Services, WorkspaceConfig, depends, Marks, Search, cycle, clean, exhausted, search_services,
  found_cycle, has_circular_deps, topological_order, first_error, fail_if, dep_error, deps_error,
  references_error, user_of, port_message, ports_error, validate_workspace,
}
use shaperail.Workspace.Order.{StartsAfter, search_services-StartsAfter}

first_error-eq-none : (a b : Option String) → first_error a b ≡ none → (a ≡ none) × (b ≡ none)
first_error-eq-none none b e = (refl, e)
first_error-eq-none (some m) b e = cc

fail_if-eq-none : (b : Bool) (m : String) → fail_if b m ≡ none → b ≡ false
fail_if-eq-none true m e = cc
fail_if-eq-none false m e = refl

dep_known :
    (b : Bool) (m : String) (next : Option String)
    → first_error (fail_if (not b) m) next ≡ none
    → b ≡ true
dep_known true m next e = refl
dep_known false m next e = cc

deps_error-known :
    (all : Services) (name : String) (deps : List String)
    → deps_error all name deps ≡ none
    → (x : String) → contains deps x ≡ true
    → contains_key x all ≡ true
unfolding deps_error
deps_error-known all name [] e x i = cc
deps_error-known all name (dep ∷ deps) e x i =
    let (e₁, e₂) = first_error-eq-none (dep_error all name dep) _ e in
    elim (Bool-cases (dep == x)) [
      | inl q ↦
          subst (λ y. contains_key y all ≡ true) ((eq_iff dep x).0 q)
            (dep_known (contains_key dep all) _ _ e₁)
      | inr q ↦ deps_error-known all name deps e₂ x (ground arith)
    ]

references_error-known :
    (all services : Services)
    → references_error all services ≡ none
    → (node x : String) → contains (depends services node) x ≡ true
    → contains_key x all ≡ true
unfolding references_error
references_error-known all [] e node x i = cc
references_error-known all ((name, svc) ∷ rest) e node x i =
    let (e₁, e₂) = first_error-eq-none (deps_error all name svc.depends_on) _ e in
    elim (Bool-cases (name == node)) [
      | inl q ↦ deps_error-known all name svc.depends_on e₁ x (ground arith)
      | inr q ↦ references_error-known all rest e₂ node x (ground arith)
    ]

-- No service listens on a port of those before it.
abbrev pub HasOwnPorts : List ℕ → Services → Type 0
HasOwnPorts taken [] = Unit {0}
HasOwnPorts taken ((name, svc) ∷ rest) =
    All (λ p. p ≢ svc.port) taken × HasOwnPorts (svc.port ∷ taken) rest

abbrev numbers : List (ℕ × String) → List ℕ
numbers [] = []
numbers ((p, name) ∷ ports) = p ∷ numbers ports

user_of-eq-none :
    (port : ℕ) (ports : List (ℕ × String))
    → user_of port ports ≡ none
    → All (λ p. p ≢ port) (numbers ports)
unfolding user_of
user_of-eq-none port [] e = tt
user_of-eq-none port ((p, name) ∷ ports) e =
    (λ h. ground arith, user_of-eq-none port ports (ground arith))

map_option-eq-none : {A B : Type 0} (f : A → B) (o : Option A) → map_option f o ≡ none → o ≡ none
map_option-eq-none f none e = refl
map_option-eq-none f (some a) e = cc

ports_error-HasOwnPorts :
    (ports : List (ℕ × String)) (services : Services)
    → ports_error ports services ≡ none
    → HasOwnPorts (numbers ports) services
unfolding ports_error
ports_error-HasOwnPorts ports [] e = tt
ports_error-HasOwnPorts ports ((name, svc) ∷ rest) e =
    let (e₁, e₂) = first_error-eq-none _ (ports_error ((svc.port, name) ∷ ports) rest) e in
    (
      user_of-eq-none svc.port ports (map_option-eq-none (port_message name svc.port) _ e₁),
      ports_error-HasOwnPorts ((svc.port, name) ∷ ports) rest e₂,
    )

search_cases :
    (services : Services)
    → has_circular_deps services ≡ false
    → (t : Marks) × (search_services services ≡ clean t)
search_cases services h = at (search_services services) refl h
  where
    at :
        (r : Search)
        → search_services services ≡ r
        → found_cycle r ≡ false
        → (t : Marks) × (search_services services ≡ clean t)
    at cycle e q = cc
    at (clean t) e q = (t, e)
    at exhausted e q = cc

-- The services of the workspace, each once, each behind those that it depends on.
abbrev pub IsStartOrder : Services → List String → Type 0
IsStartOrder services order =
    StartsAfter services [] order × ((x : String) → contains order x ≡ contains_key x services)

same_Bool : {a b : Bool} → (a ≡ true → b ≡ true) → (b ≡ true → a ≡ true) → a ≡ b
same_Bool {a} {b} h k = elim (Bool-cases a) [ inl e ↦ e ∙ sym (h e) | inr e ↦ ground arith ]

-- A workspace that passes `validate_workspace` has a start order, which `topological_order` computes: the
-- services of the workspace and no other name, each once, and each behind all that it depends on. No
-- two of its services have the same port.
pub validate_workspace-IsStartOrder :
    (config : WorkspaceConfig)
    → validate_workspace config ≡ none
    → ((order : List String) × (topological_order config.services ≡ some order)
        × IsStartOrder config.services order)
      × HasOwnPorts [] config.services
unfolding validate_workspace
validate_workspace-IsStartOrder config e =
    let services = config.services in
    let (_, e₁) = first_error-eq-none _ _ e in
    let (_, e₂) = first_error-eq-none _ _ e₁ in
    let (refs, e₃) = first_error-eq-none (references_error services services) _ e₂ in
    let (acyclic, ports) = first_error-eq-none _ (ports_error [] services) e₃ in
    let (t, found) = search_cases services (fail_if-eq-none _ _ acyclic) in
    let (order, computed, after, all, only) =
      search_services-StartsAfter services (λ x. contains_key x services) t
        (references_error-known services services refs) (λ x i. sym (contains-keys x services) ∙ i)
        found in
    (
      (
        order,
        computed,
        (after, λ x. same_Bool (only x) (λ i. all x (contains-keys x services ∙ i))),
      ),
      ports_error-HasOwnPorts [] services ports,
    )
