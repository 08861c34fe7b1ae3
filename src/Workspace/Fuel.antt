-- ===== src/Workspace/Fuel.antt =====
-- The search for a circle of dependencies ends with the fuel that it is given.
use shaperail.Prelude.{
  ℕ, zero, suc, ◌≤◌, String, List, [], ◌∷◌, Bool, true, false, not, ◌&&◌, ◌==◌, eq_iff, eq_refl,
  contains, contains-append, keep, keys, length, if◌then◌else◌, Bool-cases, ◌≡◌, ◌≢◌, ◌⊎◌, inl, inr,
  refl, ap, arith,
}
use shaperail.Workspace.{
  universe, Services, depends, Marks, Search, cycle, clean, exhausted, go_on, left_stack, entered,
  search_deps, dfs_cycle, search_all, search_services,
}
use shaperail.Workspace.Order.{Within, off_stack}

-- How many of the names have no mark.
abbrev unvisited : List String → List String → ℕ
unvisited names visited = length (keep (λ x. not (contains visited x)) names)

unvisited-cons :
    (names visited : List String) (n : String)
    → unvisited names (n ∷ visited) ≤ unvisited names visited
unvisited-cons [] visited n = omega arith
unvisited-cons (x ∷ names) visited n = ground (arith, unvisited-cons names visited n)

unvisited_less :
    (names visited : List String) (n : String)
    → contains names n ≡ true
    → contains visited n ≡ false
    → suc (unvisited names (n ∷ visited)) ≤ unvisited names visited
unvisited_less [] visited n i new = cc
unvisited_less (x ∷ names) visited n i new = elim (Bool-cases (x == n)) [
  | inl q ↦ rw ((eq_iff x n).0 q) (ground (arith, eq_refl n, unvisited-cons names visited n))
  | inr q ↦ ground (arith, eq_iff x n, eq_iff n x, unvisited_less names visited n)
]

depends-universe :
    (services : Services) (node : String) → Within (depends services node) (universe services)
depends-universe [] node x i = cc
depends-universe ((name, svc) ∷ rest) node x i = elim (Bool-cases (name == node)) [
  | inl q ↦ rw (contains-append svc.depends_on (universe rest) x) (ground arith)
  | inr q ↦
      rw (contains-append svc.depends_on (universe rest) x)
        (ground (arith, depends-universe rest node x))
]

keys-universe : (services : Services) → Within (keys services) (universe services)
keys-universe [] x i = cc
keys-universe ((name, svc) ∷ rest) x i =
    rw (contains-append svc.depends_on (universe rest) x) (ground (arith, keys-universe rest x))

module _ (services : Services) where
  abbrev left : Marks → ℕ
  left s = unvisited (universe services) s.visited

  -- A search ends: on a cycle, or with no more names left and no more on the stack than before.
  abbrev Ends : Marks → Search → Type 0
  Ends s r =
      (r ≡ cycle) ⊎ ((t : Marks) × (r ≡ clean t) × (left t ≤ left s) × Within t.in_stack s.in_stack)

  abbrev EndsOn : ℕ → (String → Marks → Search) → Type 0
  EndsOn fuel visit =
      (node : String) (s : Marks)
      → contains (universe services) node ≡ true
      → contains s.visited node ≡ false
      → left s ≤ fuel
      → Ends s (visit node s)

  go_on-Ends :
      (s : Marks) (r : Search) (next : Marks → Search)
      → Ends s r
      → ((t : Marks) → left t ≤ left s → Ends t (next t))
      → Ends s (go_on r next)
  go_on-Ends s r next (inl e) h = inl (rw e refl)
  go_on-Ends s r next (inr (t, e, less, within)) h = rw e (elim (h t less) [
    | inl stop ↦ inl stop
    | inr (u, e', less', within') ↦ inr (u, e', omega arith, λ x i. within x (within' x i))
  ])

  search_deps-Ends :
      (fuel : ℕ) (visit : String → Marks → Search)
      → EndsOn fuel visit
      → (names : List String) (s : Marks) → Within names (universe services)
      → left s ≤ fuel
      → Ends s (search_deps visit names s)
  unfolding search_deps
  search_deps-Ends fuel visit h [] s k n = inr (s, refl, omega arith, λ x i. i)
  search_deps-Ends fuel visit h (name ∷ names) s k n =
      go_on-Ends s _ (search_deps visit names) first
        (λ t less. search_deps-Ends fuel visit h names t (λ x i. k x (ground arith)) (omega arith))
    where
      first : Ends s (
          if not (contains s.visited name)
          then visit name s
          else if contains s.in_stack name
          then cycle
          else clean s)
      first = elim (Bool-cases (contains s.visited name)) [
        | inl b ↦ elim (Bool-cases (contains s.in_stack name)) [
          | inl c ↦ rw (b, c) (inl refl)
          | inr c ↦ rw (b, c) (inr (s, refl, omega arith, λ x i. i))
        ]
        | inr b ↦ rw b (h name s (k name (ground (arith, eq_refl name))) b n)
      ]

  dfs_cycle-Ends : (fuel : ℕ) → EndsOn fuel (dfs_cycle services fuel)
  unfolding dfs_cycle
  dfs_cycle-Ends zero node s i new n =
      absurd (omega (arith, unvisited_less (universe services) s.visited node i new))
  dfs_cycle-Ends (suc fuel) node s i new n =
      let less = unvisited_less (universe services) s.visited node i new in
      elim (search_deps-Ends fuel (dfs_cycle services fuel) (dfs_cycle-Ends fuel)
        (depends services node) (entered node s) (depends-universe services node) (omega arith)) [
          | inl e ↦ inl (rw e refl)
          | inr (t, e, fewer, within) ↦ inr (
            left_stack node t,
            rw e refl,
            omega arith,
            λ x j. without_node x (within x) (rw (off_stack node t.in_stack x) at j),
          )
        ]
    where
      without_node :
          (x : String) {on : Bool}
          → (on ≡ true → contains (node ∷ s.in_stack) x ≡ true)
          → (on && not (x == node)) ≡ true
          → contains s.in_stack x ≡ true
      without_node x {on} h j = ground (arith, eq_iff x node, eq_iff node x)

  search_all-Ends :
      (fuel : ℕ) (names : List String) (s : Marks)
      → Within names (universe services)
      → left s ≤ fuel
      → Ends s (search_all services fuel names s)
  unfolding search_all
  search_all-Ends fuel [] s k n = inr (s, refl, omega arith, λ x i. i)
  search_all-Ends fuel (name ∷ names) s k n =
      go_on-Ends s _ (search_all services fuel names) first
        (λ t less. search_all-Ends fuel names t (λ x i. k x (ground arith)) (omega arith))
    where
      first :
          Ends s (if not (contains s.visited name) then dfs_cycle services fuel name s else clean s)
      first = elim (Bool-cases (contains s.visited name)) [
        | inl b ↦ rw b (inr (s, refl, omega arith, λ x i. i))
        | inr b ↦ rw b (dfs_cycle-Ends fuel name s (k name (ground (arith, eq_refl name))) b n)
      ]

  all_left : (names : List String) → unvisited names [] ≡ length names
  all_left [] = refl
  all_left (x ∷ names) = ap suc (all_left names)

  -- The search for a cycle never runs out of fuel.
  pub search_services-ends : search_services services ≢ exhausted
  unfolding search_services
  search_services-ends e =
      elim (search_all-Ends (length (universe services)) (keys services)
        (record { visited = []; in_stack = [] }) (keys-universe services)
        (omega (arith, all_left (universe services)))) [ inl c ↦ cc | inr (t, c, _, _) ↦ cc ]
