-- ===== src/Workspace/Examples.antt =====
-- Workspaces of two and of three services.
use shaperail.Prelude.{
  ◌<◌, subst, Bool-cases, inl, inr, ℕ, String, List, [], ◌∷◌, some, eq_iff, ◌==◌, if◌then◌else◌,
  ◌≡◌, refl, arith,
}
use shaperail.Workspace.{
  Services, ServiceDefinition, WorkspaceConfig, search_services, topological_order,
  validate_workspace,
}
use shaperail.Workspace.Valid.{IsStartOrder, HasOwnPorts, validate_workspace-IsStartOrder}
use shaperail.Workspace.Ranked.{IsRanked}

abbrev service : ℕ → List String → ServiceDefinition
service port deps = record { path = "p"; port = port; depends_on = deps }

abbrev shop : Services
shop =
    ("web", service 1 ("orders" ∷ "users" ∷ []))
    ∷ ("orders", service 2 ("users" ∷ []))
    ∷ ("users", service 3 [])
    ∷ []

shop_order : topological_order shop ≡ some ("users" ∷ "orders" ∷ "web" ∷ [])
unfolding topological_order
shop_order = refl

abbrev config : WorkspaceConfig
config = record { workspace = "shop"; services = shop }

validate_workspace-IsStartOrder_example :
    ((order : List String) × (topological_order shop ≡ some order) × IsStartOrder shop order)
    × HasOwnPorts [] shop
unfolding validate_workspace search_services
validate_workspace-IsStartOrder_example = validate_workspace-IsStartOrder config refl

abbrev pair : Services
pair = ("web", service 1 ("users" ∷ [])) ∷ ("users", service 3 []) ∷ []

abbrev rank : String → ℕ
rank s = if s == "web" then 1 else 0

pair_ranked : IsRanked pair rank
pair_ranked node dep i = elim (Bool-cases ("web" == node)) [
  | inl w ↦ elim (Bool-cases ("users" == dep)) [
    | inl u ↦
        subst (λ n. rank dep < rank n) ((eq_iff "web" node).0 w)
          (subst (λ d. rank d < 1) ((eq_iff "users" dep).0 u) (omega arith))
    | inr u ↦ let none_left = rw (w, u) at i in cc
  ]
  | inr w ↦ elim (Bool-cases ("users" == node)) [
    | inl u ↦ let none_left = rw (w, u) at i in cc
    | inr u ↦ let none_left = rw (w, u) at i in cc
  ]
]
