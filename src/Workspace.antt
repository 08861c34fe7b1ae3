-- ===== src/Workspace.antt =====
-- shaperail-codegen/src/workspace_parser.rs: the checks of a workspace of services and their start order.
-- The loops over services are in the order of the `IndexMap`. The two depth-first walks run on fuel:
-- as much as there are names is enough, since each call marks a name that had no mark.
pub mod Fuel
pub mod Order
pub mod Valid
pub mod Ranked
mod Examples
use shaperail.Prelude.{
  ℕ, zero, suc, String, List, [], ◌∷◌, ◌++◌, Option, none, some, Bool, true, false, not, ◌==◌,
  contains, contains_key, eqb, keep, keys, lookup, length, format, decimal, and_then, map_option,
  is_empty, if◌then◌else◌,
}

-- shaperail-core/src/workspace.rs.
pub record ServiceDefinition : Type 0 where
  pub path : String
  pub port : ℕ
  pub depends_on : List String

abbrev pub Services : Type 0
Services = List (String × ServiceDefinition)

-- `shared` is left out: nothing here reads it.
pub record WorkspaceConfig : Type 0 where
  pub workspace : String
  pub services : Services

-- `config.services.get(node)` and its `depends_on`.
abbrev pub depends_of : Option ServiceDefinition → List String
depends_of none = []
depends_of (some svc) = svc.depends_on

abbrev pub depends : Services → String → List String
depends services node = depends_of (lookup node services)

-- Every name in the workspace.
abbrev pub universe : Services → List String
universe [] = []
universe ((name, svc) ∷ rest) = name ∷ svc.depends_on ++ universe rest

-- What `dfs_cycle` marks, and what it answers.
pub record Marks : Type 0 where
  pub visited : List String
  pub in_stack : List String

pub data Search : Type 0 where
  cycle : Search
  clean : Marks → Search
  exhausted : Search

abbrev pub go_on : Search → (Marks → Search) → Search
go_on cycle next = cycle
go_on (clean s) next = next s
go_on exhausted next = exhausted

abbrev pub left_stack : String → Marks → Marks
left_stack node s = record s { in_stack = keep (λ x. not (x == node)) s.in_stack }

abbrev pub entered : String → Marks → Marks
entered node s = record { visited = node ∷ s.visited; in_stack = node ∷ s.in_stack }

-- The loop of `dfs_cycle` over the dependencies.
search_deps : (String → Marks → Search) → List String → Marks → Search
search_deps visit [] s = clean s
search_deps visit (dep ∷ deps) s =
    go_on
      (if not (contains s.visited dep)
        then visit dep s
        else if contains s.in_stack dep
        then cycle
        else clean s)
      (search_deps visit deps)

module _ (services : Services) where
  dfs_cycle : ℕ → String → Marks → Search
  unfolding search_deps
  dfs_cycle zero node s = exhausted
  dfs_cycle (suc fuel) node s =
      go_on (search_deps (dfs_cycle fuel) (depends services node) (entered node s))
        (λ t. clean (left_stack node t))

  -- The loop of `has_circular_deps` over the services.
  search_all : ℕ → List String → Marks → Search
  search_all fuel [] s = clean s
  search_all fuel (name ∷ names) s =
      go_on (if not (contains s.visited name) then dfs_cycle fuel name s else clean s)
        (search_all fuel names)

  unfoldable pub search_services : Search
  unfolding search_all dfs_cycle
  search_services =
      search_all (length (universe services)) (keys services)
        (record { visited = []; in_stack = [] })

abbrev pub found_cycle : Search → Bool
found_cycle cycle = true
found_cycle (clean s) = false
found_cycle exhausted = true

abbrev pub has_circular_deps : Services → Bool
has_circular_deps services = found_cycle (search_services services)

-- What `topological_order` keeps.
pub record Walk : Type 0 where
  pub visited : List String
  pub order : List String

abbrev pub placed : String → Walk → Walk
placed node w = record w { order = w.order ++ (node ∷ []) }

-- The loops over names: those with a mark are skipped.
visit_new : (String → Walk → Option Walk) → List String → Walk → Option Walk
visit_new visit [] w = some w
visit_new visit (name ∷ names) w =
    and_then (if not (contains w.visited name) then visit name w else some w)
      (visit_new visit names)

module _ (services : Services) where
  topo_visit : ℕ → String → Walk → Option Walk
  unfolding visit_new
  topo_visit zero node w = none
  topo_visit (suc fuel) node w = map_option (placed node) (
      visit_new (topo_visit fuel) (depends services node) (record w { visited = node ∷ w.visited }))

  unfoldable pub topological_order : Option (List String)
  unfolding topo_visit visit_new
  topological_order =
      map_option (λ w. w.order)
        (visit_new (topo_visit (length (universe services))) (keys services)
          (record { visited = []; order = [] }))

-- The first error of a sequence of checks, each the text of a `ParseError::ConfigInterpolation`.
abbrev pub first_error : Option String → Option String → Option String
first_error none next = next
first_error (some e) next = some e

abbrev pub fail_if : Bool → String → Option String
fail_if b message = if b then some message else none

abbrev pub dep_error : Services → String → String → Option String
dep_error services name dep =
    first_error
      (fail_if (not (contains_key dep services)) (
        format
          ("service '" ∷ name ∷ "': depends_on references unknown service '" ∷ dep ∷ "'" ∷ [])))
      (fail_if (dep == name) (format ("service '" ∷ name ∷ "': cannot depend on itself" ∷ [])))

deps_error : Services → String → List String → Option String
deps_error services name [] = none
deps_error services name (dep ∷ deps) =
    first_error (dep_error services name dep) (deps_error services name deps)

references_error : (all services : Services) → Option String
unfolding deps_error
references_error all [] = none
references_error all ((name, svc) ∷ rest) =
    first_error (deps_error all name svc.depends_on) (references_error all rest)

-- `ports.get(&svc.port)`.
user_of : ℕ → List (ℕ × String) → Option String
user_of port [] = none
user_of port ((p, name) ∷ ports) = if eqb p port then some name else user_of port ports

port_message : String → ℕ → String → String
port_message name port existing =
    format ("services '" ∷ existing ∷ "' and '" ∷ name ∷ "' use the same port " ∷ decimal port ∷ [])

ports_error : List (ℕ × String) → Services → Option String
unfolding user_of port_message
ports_error ports [] = none
ports_error ports ((name, svc) ∷ rest) =
    first_error (map_option (port_message name svc.port) (user_of svc.port ports))
      (ports_error ((svc.port, name) ∷ ports) rest)

unfoldable pub validate_workspace : WorkspaceConfig → Option String
unfolding references_error ports_error
validate_workspace config =
    first_error (fail_if (config.workspace == "") "workspace name cannot be empty") (
      first_error (fail_if (is_empty config.services) "workspace must declare at least one service")
        (first_error (references_error config.services config.services) (
          first_error
            (fail_if (has_circular_deps config.services)
              "workspace has circular service dependencies")
            (ports_error [] config.services))))
