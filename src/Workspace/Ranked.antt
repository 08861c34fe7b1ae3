-- ===== src/Workspace/Ranked.antt =====
-- A workspace without a circle of dependencies is not refused for one.
use shaperail.Prelude.{
  ℕ, zero, suc, ◌≤◌, ◌<◌, String, List, [], ◌∷◌, Bool, true, false, not, ◌&&◌, ◌==◌, eq_iff,
  eq_refl, contains, keys, if◌then◌else◌, Bool-cases, ◌≡◌, ◌⊎◌, inl, inr, refl, subst, arith,
  length,
}
use shaperail.Workspace.{
  universe, Services, depends, Marks, Search, cycle, clean, exhausted, go_on, left_stack, entered,
  search_deps, dfs_cycle, search_all, search_services, has_circular_deps,
}
use shaperail.Workspace.Order.{Within, off_stack}
use shaperail.Workspace.Fuel.{search_services-ends}

module _ (services : Services) (rank : String → ℕ) where
  -- Each name ranks above the names that it depends on.
  abbrev pub IsRanked : Type 0
  IsRanked =
      (node dep : String) → contains (depends services node) dep ≡ true → rank dep < rank node

  -- All that is on the stack ranks at least so high.
  abbrev Above : ℕ → Marks → Type 0
  Above n s = (x : String) → contains s.in_stack x ≡ true → n ≤ rank x

  -- Out of fuel, or clean with no more on the stack than before.
  abbrev Passes : Marks → Search → Type 0
  Passes s r = (r ≡ exhausted) ⊎ ((t : Marks) × (r ≡ clean t) × Within t.in_stack s.in_stack)

  go_on-Passes :
      (s : Marks) (r : Search) (next : Marks → Search)
      → Passes s r
      → ((t : Marks) → Within t.in_stack s.in_stack → Passes t (next t))
      → Passes s (go_on r next)
  go_on-Passes s r next (inl e) h = inl (rw e refl)
  go_on-Passes s r next (inr (t, e, within)) h = rw e (elim (h t within) [
    | inl stop ↦ inl stop
    | inr (u, e', within') ↦ inr (u, e', λ x i. within x (within' x i))
  ])

  module _ (ranked : IsRanked) where
    search_deps-Passes :
        (visit : String → Marks → Search) (n : ℕ)
        → ((node : String) (s : Marks) → rank node < n → Above n s → Passes s (visit node s))
        → (names : List String) (s : Marks) → ((x : String) → contains names x ≡ true → rank x < n)
        → Above n s
        → Passes s (search_deps visit names s)
    unfolding search_deps
    search_deps-Passes visit n h [] s low above = inr (s, refl, λ x i. i)
    search_deps-Passes visit n h (name ∷ names) s low above =
        go_on-Passes s _ (search_deps visit names) first (λ t within.
          search_deps-Passes visit n h names t (λ x i. low x (ground arith))
            (λ x i. above x (within x i)))
      where
        name_low : rank name < n
        name_low = low name (ground (arith, eq_refl name))

        first : Passes s (
            if not (contains s.visited name)
            then visit name s
            else if contains s.in_stack name
            then cycle
            else clean s)
        first = elim (Bool-cases (contains s.visited name)) [
          | inl b ↦ elim (Bool-cases (contains s.in_stack name)) [
            | inl c ↦ absurd (omega (arith, above name c, name_low))
            | inr c ↦ rw (b, c) (inr (s, refl, λ x i. i))
          ]
          | inr b ↦ rw b (h name s name_low above)
        ]

    dfs_cycle-Passes :
        (fuel : ℕ) (node : String) (s : Marks)
        → Above (suc (rank node)) s
        → Passes s (dfs_cycle services fuel node s)
    unfolding dfs_cycle
    dfs_cycle-Passes zero node s above = inl refl
    dfs_cycle-Passes (suc fuel) node s above =
        elim (search_deps-Passes (dfs_cycle services fuel) (rank node)
          (λ d u less high. dfs_cycle-Passes fuel d u (λ x i. omega (arith, high x i)))
          (depends services node) (entered node s) (ranked node) entered_high) [
            | inl e ↦ inl (rw e refl)
            | inr (t, e, within) ↦ inr (
              left_stack node t,
              rw e refl,
              λ x j. without_node x (within x) (rw (off_stack node t.in_stack x) at j),
            )
          ]
      where
        entered_high : Above (rank node) (entered node s)
        entered_high x i = elim (Bool-cases (node == x)) [
          | inl q ↦ subst (λ y. rank node ≤ rank y) ((eq_iff node x).0 q) (omega arith)
          | inr q ↦ let high = above x (ground arith) in omega arith
        ]

        without_node :
            (x : String) {on : Bool}
            → (on ≡ true → contains (node ∷ s.in_stack) x ≡ true)
            → (on && not (x == node)) ≡ true
            → contains s.in_stack x ≡ true
        without_node x {on} h j = ground (arith, eq_iff x node, eq_iff node x)

    search_all-Passes :
        (fuel : ℕ) (names : List String) (s : Marks)
        → ((x : String) → contains s.in_stack x ≡ false)
        → Passes s (search_all services fuel names s)
    unfolding search_all
    search_all-Passes fuel [] s empty = inr (s, refl, λ x i. i)
    search_all-Passes fuel (name ∷ names) s empty =
        go_on-Passes s _ (search_all services fuel names) first
          (λ t within. search_all-Passes fuel names t (λ x. still_empty x (within x) (empty x)))
      where
        still_empty : (x : String) {a b : Bool} → (a ≡ true → b ≡ true) → b ≡ false → a ≡ false
        still_empty x {a} h e = elim (Bool-cases a) [ inl i ↦ ground (arith, h i) | inr i ↦ i ]

        first :
            Passes s
              (if not (contains s.visited name) then dfs_cycle services fuel name s else clean s)
        first = elim (Bool-cases (contains s.visited name)) [
          | inl b ↦ rw b (inr (s, refl, λ x i. i))
          | inr b ↦ rw b (dfs_cycle-Passes fuel name s (λ x i. ground (arith, empty x)))
        ]

    -- Services that can be ranked, each above those that it depends on, are not taken for a circle.
    pub has_circular_deps-IsRanked : has_circular_deps services ≡ false
    unfolding search_services
    has_circular_deps-IsRanked =
        elim (search_all-Passes (length (universe services)) (keys services)
          (record { visited = []; in_stack = [] }) (λ x. refl)) [
            | inl e ↦ absurd (search_services-ends services e)
            | inr (t, e, _) ↦ rw e refl
          ]
