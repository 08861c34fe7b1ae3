-- ===== src/Workspace/Order.antt =====
-- The start order of a workspace that passes the cycle check.
use shaperail.Prelude.{
  ℕ, zero, suc, String, List, [], ◌∷◌, ◌++◌, Option, some, Bool, true, false, not, ◌&&◌, ◌||◌, ◌==◌,
  eq_iff, eq_refl, contains, contains-append, contains-keep, keep, keys, if◌then◌else◌, length,
  Bool-cases, ◌≡◌, ◌⊎◌, inl, inr, refl, sym, ap, subst, ◌∙◌, arith,
}
use shaperail.Workspace.{
  universe, Services, depends, Marks, Search, cycle, clean, exhausted, go_on, left_stack, entered,
  search_deps, dfs_cycle, search_all, search_services, Walk, visit_new, topo_visit,
  topological_order,
}

go_on-eq-clean :
    (r : Search) (next : Marks → Search) {t : Marks}
    → go_on r next ≡ clean t
    → (s : Marks) × (r ≡ clean s) × (next s ≡ clean t)
go_on-eq-clean cycle next e = cc
go_on-eq-clean (clean s) next e = (s, refl, e)
go_on-eq-clean exhausted next e = cc

-- A clean round of a loop over names: the name had no mark and was searched, or it has a mark and is not
-- on the stack.
clean_cases :
    (seen on_stack : Bool) (r : Search) (s : Marks) {t : Marks}
    → (if not seen then r else if on_stack then cycle else clean s) ≡ clean t
    → ((seen ≡ false) × (r ≡ clean t)) ⊎ ((seen ≡ true) × (on_stack ≡ false) × (s ≡ t))
clean_cases false on_stack r s e = inl (refl, e)
clean_cases true false r s e = inr (refl, refl, ground arith)
clean_cases true true r s e = cc

abbrev pub Within : List String → List String → Type 0
Within xs ys = (x : String) → contains xs x ≡ true → contains ys x ≡ true

Within-cons :
    (name : String) (names order : List String)
    → contains order name ≡ true
    → Within names order
    → Within (name ∷ names) order
Within-cons name names order p h x i = elim (Bool-cases (name == x)) [
  | inl q ↦ subst (λ y. contains order y ≡ true) ((eq_iff name x).0 q) p
  | inr q ↦ h x (ground arith)
]

pub off_stack :
    (node : String) (stack : List String) (x : String)
    → contains (keep (λ y. not (y == node)) stack) x ≡ (contains stack x && not (x == node))
off_stack node stack x = contains-keep (λ y. not (y == node)) stack x

pub clean-injective : {s t : Marks} → clean s ≡ clean t → s ≡ t
clean-injective e = ground arith

module _ (services : Services) where
  -- Each name stands once, and after all that it depends on.
  abbrev pub StartsAfter : List String → List String → Type 0
  StartsAfter seen [] = Unit {0}
  StartsAfter seen (x ∷ xs) =
      (contains seen x ≡ false) × Within (depends services x) seen × StartsAfter (x ∷ seen) xs

  StartsAfter-append :
      (seen order : List String) (x : String)
      → StartsAfter seen order
      → (contains seen x || contains order x) ≡ false
      → ((d : String)
          → contains (depends services x) d ≡ true
          → (contains seen d || contains order d) ≡ true)
      → StartsAfter seen (order ++ (x ∷ []))
  StartsAfter-append seen [] x h new deps = (ground arith, (λ d i. ground (arith, deps d i)), tt)
  StartsAfter-append seen (y ∷ ys) x (a, b, h) new deps =
      (a, b, StartsAfter-append (y ∷ seen) ys x h (ground arith) (λ d i. ground (arith, deps d i)))

  module _ (known : String → Bool) where
    -- The marks are the stack and, apart from it, the names placed so far, all of them known.
    pub record Matches (s : Marks) (order : List String) : Type 0 where
      pub split : (x : String) → contains s.visited x ≡ (contains s.in_stack x || contains order x)
      pub apart : (x : String) → (contains s.in_stack x && contains order x) ≡ false
      pub within : (x : String) → contains s.visited x ≡ true → known x ≡ true
      pub ordered : StartsAfter [] order

    -- The other walk comes as far, with the same stack, and places the names.
    abbrev Follows : List String → Marks → List String → Marks → Option Walk → Type 0
    Follows names s order t r =
        (more : List String) × (r ≡ some (record { visited = t.visited; order = more }))
        × Matches t more
        × ((x : String) → contains t.in_stack x ≡ contains s.in_stack x)
        × Within order more
        × Within names more

    abbrev AllKnown : List String → Type 0
    AllKnown names = (x : String) → contains names x ≡ true → known x ≡ true

    abbrev Simulates : (String → Marks → Search) → (String → Walk → Option Walk) → Type 0
    Simulates visit walk =
        (node : String) (s : Marks) (order : List String) (t : Marks)
        → known node ≡ true
        → contains s.visited node ≡ false
        → Matches s order
        → visit node s ≡ clean t
        → Follows (node ∷ []) s order t (walk node (record { visited = s.visited; order = order }))

    module _ (visit : String → Marks → Search) (walk : String → Walk → Option Walk)
        (same : Simulates visit walk) where
      search_deps-Follows :
          (names : List String) (s : Marks) (order : List String) (t : Marks)
          → AllKnown names
          → Matches s order
          → search_deps visit names s ≡ clean t
          → Follows names s order t
              (visit_new walk names (record { visited = s.visited; order = order }))
      unfolding search_deps visit_new
      search_deps-Follows [] s order t k m e =
          let stay = clean-injective e in
          (
            order,
            ap (λ u. some (record { visited = u.visited; order = order })) stay,
            subst (λ u. Matches u order) stay m,
            (λ x. ap (λ u. contains u.in_stack x) (sym stay)),
            (λ x h. h),
            λ x h. cc,
          )
      search_deps-Follows (name ∷ names) s order t k m e =
          let (u, e₁, e₂) = go_on-eq-clean _ (search_deps visit names) e in
          elim (clean_cases (contains s.visited name) (contains s.in_stack name) (visit name s) s
            e₁) [
              | inl (new, r) ↦
                  let (mid, w₁, m₁, st₁, x₁, i₁) =
                    same name s order u (k name (ground (arith, eq_refl name))) new m r in
                  let (more, w₂, m₂, st₂, x₂, i₂) =
                    search_deps-Follows names u mid t (λ x h. k x (ground arith)) m₁ e₂ in
                  (
                    more,
                    rw (new, w₁) w₂,
                    m₂,
                    (λ x. st₂ x ∙ st₁ x),
                    (λ x h. x₂ x (x₁ x h)),
                    Within-cons name names more (x₂ name (i₁ name (ground (arith, eq_refl name))))
                        i₂,
                  )
              | inr (old, off, stay) ↦
                  let (more, w₂, m₂, st₂, x₂, i₂) =
                    search_deps-Follows names s order t (λ x h. k x (ground arith)) m
                      (subst (λ v. search_deps visit names v ≡ clean t) (sym stay) e₂) in
                  let there = m.split name in
                  (
                    more,
                    rw old w₂,
                    m₂,
                    st₂,
                    x₂,
                    Within-cons name names more (x₂ name (ground arith)) i₂,
                  )
            ]

    module _ (closed : (node : String) → AllKnown (depends services node)) where
      entered-Matches :
          (node : String) (s : Marks) (order : List String)
          → known node ≡ true
          → contains s.visited node ≡ false
          → Matches s order
          → Matches (entered node s) order
      entered-Matches node s order k new m = record {
        split = λ x. ground (arith, m.split x);
        apart = λ x. elim (Bool-cases (node == x)) [
          | inl q ↦ rw (sym ((eq_iff node x).0 q)) (ground (arith, m.split node))
          | inr q ↦ ground (arith, m.apart x)
        ];
        within = Within-known node s.visited k m.within;
        ordered = m.ordered;
      }
        where
          Within-known :
              (n : String) (xs : List String) → known n ≡ true → AllKnown xs → AllKnown (n ∷ xs)
          Within-known n xs p h x i = elim (Bool-cases (n == x)) [
            | inl q ↦ subst (λ y. known y ≡ true) ((eq_iff n x).0 q) p
            | inr q ↦ h x (ground arith)
          ]

      left-Matches :
          (node : String) (u : Marks) (order : List String)
          → contains u.in_stack node ≡ true
          → Within (depends services node) order
          → Matches u order
          → Matches (left_stack node u) (order ++ (node ∷ []))
      left-Matches node u order on deps m = record {
        split = λ x.
            rw (off_stack node u.in_stack x, contains-append order (node ∷ []) x)
              (elim (Bool-cases (x == node)) [
                | inl q ↦ rw ((eq_iff x node).0 q) (ground (arith, eq_refl node, m.split node))
                | inr q ↦ ground (arith, eq_iff node x, eq_iff x node, m.split x)
              ]);
        apart = λ x.
            rw (off_stack node u.in_stack x, contains-append order (node ∷ []) x)
              (elim (Bool-cases (x == node)) [
                | inl q ↦ ground arith
                | inr q ↦ ground (arith, eq_iff node x, eq_iff x node, m.apart x)
              ]);
        within = m.within;
        ordered =
            StartsAfter-append [] order node m.ordered (ground (arith, m.apart node))
              (λ d i. deps d i);
      }

      dfs_cycle-Simulates :
          (fuel : ℕ) → Simulates (dfs_cycle services fuel) (topo_visit services fuel)
      unfolding dfs_cycle topo_visit
      dfs_cycle-Simulates zero node s order t k new m e = cc
      dfs_cycle-Simulates (suc fuel) node s order t k new m e =
          let (u, e₁, e₂) =
            go_on-eq-clean
              (search_deps (dfs_cycle services fuel) (depends services node) (entered node s)) _
              e in
          let (more, w, m₁, st, x₁, i₁) =
            search_deps-Follows (dfs_cycle services fuel) (topo_visit services fuel)
              (dfs_cycle-Simulates fuel) (depends services node) (entered node s) order u
              (closed node) (entered-Matches node s order k new m) e₁ in
          subst
            (λ v.
              Follows (node ∷ []) s order v (
                topo_visit services (suc fuel) node
                  (record { visited = s.visited; order = order })))
            (clean-injective e₂)
            (
              more ++ (node ∷ []),
              rw w refl,
              left-Matches node u more (st node ∙ ground (arith, eq_refl node)) i₁ m₁,
              (λ x. rw (off_stack node u.in_stack x) (elim (Bool-cases (x == node)) [
                | inl q ↦ rw ((eq_iff x node).0 q) (ground (arith, eq_refl node, m.split node))
                | inr q ↦ ground (arith, eq_iff node x, eq_iff x node, st x)
              ])),
              (λ x h. rw (contains-append more (node ∷ []) x) (ground (arith, x₁ x))),
              λ x h. rw (contains-append more (node ∷ []) x) (ground arith),
            )

      -- With nothing on the stack the loop over the services is the loop over dependencies.
      same_search :
          (fuel : ℕ) (names : List String) (s : Marks) (order : List String) (t : Marks)
          → AllKnown names
          → ((x : String) → contains s.in_stack x ≡ false)
          → Matches s order
          → search_all services fuel names s ≡ clean t
          → search_deps (dfs_cycle services fuel) names s ≡ clean t
      unfolding search_all search_deps
      same_search fuel [] s order t k empty m e = e
      same_search fuel (name ∷ names) s order t k empty m e =
          let (u, e₁, e₂) = go_on-eq-clean _ (search_all services fuel names) e in
          elim (clean_cases (contains s.visited name) false (dfs_cycle services fuel name s) s e₁) [
            | inl (new, r) ↦
                let (mid, w₁, m₁, st₁, _, _) =
                  dfs_cycle-Simulates fuel name s order u (k name (ground (arith, eq_refl name)))
                    new m r in
                rw (new, r)
                  (same_search fuel names u mid t (λ x h. k x (ground arith)) (λ x. st₁ x ∙ empty x)
                    m₁ e₂)
            | inr (old, _, stay) ↦
                rw (old, empty name)
                  (same_search fuel names s order t (λ x h. k x (ground arith)) empty m
                    (subst (λ v. search_all services fuel names v ≡ clean t) (sym stay) e₂))
          ]

      search_all-Follows :
          (fuel : ℕ) (names : List String) (s : Marks) (order : List String) (t : Marks)
          → AllKnown names
          → ((x : String) → contains s.in_stack x ≡ false)
          → Matches s order
          → search_all services fuel names s ≡ clean t
          → Follows names s order t (
              visit_new
                (topo_visit services fuel)
                names
                (record { visited = s.visited; order = order }))
      unfolding search_all
      search_all-Follows fuel names s order t k empty m e =
          search_deps-Follows (dfs_cycle services fuel) (topo_visit services fuel)
            (dfs_cycle-Simulates fuel) names s order t k m
            (same_search fuel names s order t k empty m e)

-- If no cycle is found, the start order is computed, has every service, each name once, and behind all
-- the names that it depends on; and it has services only if the dependencies are services.
pub search_services-StartsAfter :
    (services : Services) (known : String → Bool) (t : Marks)
    → ((node x : String) → contains (depends services node) x ≡ true → known x ≡ true)
    → ((x : String) → contains (keys services) x ≡ true → known x ≡ true)
    → search_services services ≡ clean t
    → (order : List String) × (topological_order services ≡ some order)
      × StartsAfter services [] order
      × Within (keys services) order
      × ((x : String) → contains order x ≡ true → known x ≡ true)
unfolding search_services topological_order
search_services-StartsAfter services known t closed keys_known e =
    let (order, w, m, st, _, all) =
      search_all-Follows services known closed (length (universe services)) (keys services)
        (record { visited = []; in_stack = [] }) [] t keys_known (λ x. refl)
        (record {
          split = λ x. refl;
          apart = λ x. refl;
          within = λ x h. absurd (ground arith);
          ordered = tt;
        })
        e in
    (order, rw w refl, m.ordered, all, λ x h. m.within x (ground (arith, m.split x)))
