-- ===== src/Graph/Routes/Accepted.antt =====
-- What an accepted route manifest promises.
use fomo_demo.Prelude.{
  String, Bool, true, false, not, ◌≡◌, refl, ◌⊎◌, inl, inr, Option, none, some, List, [], ◌∷◌, ◌++◌,
  map, ok, ◌==◌, contains, ◌∈◌, Distinct, unique→Distinct, is_empty, is_some, All, All-map, All-mem,
  gather-nil, append-nil_parts, >>=-eq-ok, arith, eq_iff, Bool-cases, Option-cases, Result, ◌∙◌,
}
use fomo_demo.Contracts.{AcceptanceTest}
use fomo_demo.Contracts.Order.{sorted_set, mem-sorted_set}
use fomo_demo.Graph.{
  GoalDraft, NavigationRoute, Violation, GraphError, schema_version, owner_not_below_root,
  owner_not_visible,
}
use fomo_demo.Graph.Dependencies.{find_goal, transitive_dependencies, Reaches}
use fomo_demo.Graph.Dependencies.Closure.{transitive_dependencies-eq-ok}
use fomo_demo.Graph.Dependencies.Acyclic.{find_goal-id}
use fomo_demo.Graph.Routes.{
  find_route, find_root, route_paths, referenced_paths, when, unowned, basic_violations, below_root,
  owner_violations, path_violations, test_violations, goal_violations, collect, current_violations,
  no_violations, validate_route_manifest, gather,
}

when-nil : (b : Bool) (v : Violation) → when (not b) v ≡ [] → b ≡ true
when-nil true v h = refl
when-nil false v h = cc

collect-nil {ℓ} :
    {A : Type ℓ} (f : A → Result GraphError (List Violation)) (xs : List A)
    → collect f xs ≡ ok []
    → All (λ x. f x ≡ ok []) xs
unfolding collect
collect-nil f [] h = tt
collect-nil f (x ∷ xs) h =
    let (vs, now, h1) = >>=-eq-ok (f x) _ h in
    let (rest, later, h2) = >>=-eq-ok (collect f xs) _ h1 in
    let joined : vs ++ rest ≡ [] = cc in
    let (e1, e2) = append-nil_parts vs rest joined in
    (rw e1 at now, collect-nil f xs (rw e2 at later))

-- The goal, or one that it depends on.
abbrev pub IsBelow : List GoalDraft → String → String → Type 0
IsBelow goals id owner = (id ≡ owner) ⊎ Reaches goals id owner

below :
    (goals : List GoalDraft) (id owner : String) (ds : List String)
    → transitive_dependencies goals id ≡ ok ds
    → owner ∈ id ∷ ds
    → IsBelow goals id owner
below goals id owner ds h m = elim (Bool-cases (id == owner)) [
  | inl e ↦ inl ((eq_iff id owner).0 e)
  | inr e ↦ inr ((transitive_dependencies-eq-ok goals id ds h owner).0 (ground arith))
]

abbrev pub OwnerIsVisible : List GoalDraft → NavigationRoute → Type 0
OwnerIsVisible goals r =
    (g : GoalDraft) × (find_goal goals r.owning_goal_id ≡ some g) × (g.user_visible ≡ true)

-- The owner of a route other than the root depends on the owner of the root, or is that goal.
abbrev pub OwnerIsBelowRoot : List GoalDraft → List NavigationRoute → NavigationRoute → Type 0
OwnerIsBelowRoot goals routes r =
    (root : NavigationRoute)
    → find_root routes ≡ some root
    → (r.path == "/") ≡ false
    → IsBelow goals r.owning_goal_id root.owning_goal_id

-- Each path that a test names is a declared route, owned by the test's goal or one below it.
abbrev pub RefersBack : List GoalDraft → List NavigationRoute → GoalDraft → AcceptanceTest → Type 0
RefersBack goals routes g t =
    (path : String)
    → path ∈ referenced_paths t
    → (r : NavigationRoute) × (find_route routes path ≡ some r)
      × IsBelow goals g.goal_id r.owning_goal_id

module _ (goals : List GoalDraft) (routes : List NavigationRoute) where
  below_root-nil :
      (r root : NavigationRoute) (g : GoalDraft)
      → below_root goals (some root) r g ≡ ok []
      → (r.path == "/") ≡ false
      → IsBelow goals g.goal_id root.owning_goal_id
  unfolding below_root
  below_root-nil r root g h e =
      let (ds, closure, h1) = >>=-eq-ok (transitive_dependencies goals g.goal_id) _ (rw e at h) in
      let none_left : when (not (contains (g.goal_id ∷ ds) root.owning_goal_id))
            (owner_not_below_root r.path g.goal_id)
          ≡ [] =
        cc in
      below goals g.goal_id root.owning_goal_id ds closure (when-nil _ _ none_left)

  path-nil :
      (g : GoalDraft) (t : AcceptanceTest) (ds : List String) (path : String)
      → transitive_dependencies goals g.goal_id ≡ ok ds
      → path_violations routes g t (g.goal_id ∷ ds) path ≡ []
      → (r : NavigationRoute) × (find_route routes path ≡ some r)
        × IsBelow goals g.goal_id r.owning_goal_id
  unfolding path_violations
  path-nil g t ds path closure h = elim (Option-cases (find_route routes path)) [
    | inl e ↦ cc (rw (e, path_violations) at h)
    | inr (r, e) ↦ (
      r,
      e,
      below goals g.goal_id r.owning_goal_id ds closure
          (when-nil _ _ (rw (e, path_violations) at h)),
    )
  ]

  goal-nil :
      (g : GoalDraft)
      → goal_violations routes goals g ≡ ok []
      → All (RefersBack goals routes g) g.acceptance.tests
  unfolding goal_violations
  goal-nil g h =
      let (ds, closure, h1) = >>=-eq-ok (transitive_dependencies goals g.goal_id) _ h in
      let none_left : gather (test_violations routes g (g.goal_id ∷ ds)) g.acceptance.tests ≡ [] =
        cc in
      All-map g.acceptance.tests
        (λ t e path m. path-nil g t ds path closure (
          All-mem (λ p. path_violations routes g t (g.goal_id ∷ ds) p ≡ [])
            (sorted_set (referenced_paths t)) path (gather-nil _ _ e)
            (mem-sorted_set (referenced_paths t) path ∙ m)))
        (gather-nil _ g.acceptance.tests none_left)

  owner-nil :
      (r : NavigationRoute) (o : Option GoalDraft)
      → find_goal goals r.owning_goal_id ≡ o
      → is_some o ≡ true
      → owner_violations goals (find_root routes) r o ≡ ok []
      → OwnerIsVisible goals r × OwnerIsBelowRoot goals routes r
  unfolding owner_violations
  owner-nil r none f e h = cc
  owner-nil r (some g) f e h =
      let (vs, below_ok, h1) = >>=-eq-ok (below_root goals (find_root routes) r g) _ h in
      let joined : when (not g.user_visible) (owner_not_visible r.path g.goal_id) ++ vs ≡ [] = cc in
      let (seen, empty) = append-nil_parts _ vs joined in
      let same = find_goal-id goals r.owning_goal_id g f in
      (
        (g, f, when-nil _ _ seen),
        λ root is_root not_root.
            rw same at (below_root-nil r root g (rw (is_root, empty) at below_ok) not_root),
      )

  known :
      (rs : List NavigationRoute)
      → is_empty (unowned goals rs) ≡ true
      → All (λ (r : NavigationRoute). is_some (find_goal goals r.owning_goal_id) ≡ true) rs
  known [] h = tt
  known (r ∷ rs) h = ground (arith, known rs)

-- What the v3 check makes sure of.
pub record IsRouted (casefold : String → String) (goals : List GoalDraft)
    (routes : List NavigationRoute) : Type 0 where
  pub root_declared : "/" ∈ route_paths routes
  pub paths_distinct : Distinct (route_paths routes)
  pub titles_distinct : Distinct (map (λ (r : NavigationRoute). casefold r.title) routes)
  pub owners_visible : All (OwnerIsVisible goals) routes
  pub owners_below_root : All (OwnerIsBelowRoot goals routes) routes
  pub tests_refer_back :
      All (λ (g : GoalDraft). All (RefersBack goals routes g) g.acceptance.tests) goals

no_violations-nil : (vs : List Violation) → no_violations vs ≡ ok tt → vs ≡ []
unfolding no_violations
no_violations-nil [] h = refl
no_violations-nil (v ∷ vs) h = cc

module _ (casefold : String → String) (goals : List GoalDraft) (routes : List NavigationRoute) where
  basic-nil :
      basic_violations casefold routes goals ≡ []
      → ("/" ∈ route_paths routes)
        × Distinct (route_paths routes)
        × Distinct (map (λ (r : NavigationRoute). casefold r.title) routes)
        × (is_empty (unowned goals routes) ≡ true)
  unfolding basic_violations
  basic-nil h =
      let (e1, h1) = append-nil_parts _ _ h in
      let (e2, h2) = append-nil_parts _ _ h1 in
      let (e3, e4) = append-nil_parts _ _ h2 in
      (
        when-nil _ _ e1,
        unique→Distinct _ (when-nil _ _ e2),
        unique→Distinct _ (when-nil _ _ e3),
        when-nil _ _ e4,
      )

  owners-nil :
      (rs : List NavigationRoute)
      → All (λ (r : NavigationRoute). is_some (find_goal goals r.owning_goal_id) ≡ true) rs
      → All
          (λ (r : NavigationRoute).
            owner_violations goals (find_root routes) r (find_goal goals r.owning_goal_id) ≡ ok [])
          rs
      → All (OwnerIsVisible goals) rs × All (OwnerIsBelowRoot goals routes) rs
  owners-nil [] k h = (tt, tt)
  owners-nil (r ∷ rs) k h =
      let (seen, below_ok) = owner-nil goals routes r _ refl k.0 h.0 in
      let (all_seen, all_below) = owners-nil rs k.1 h.1 in ((seen, all_seen), (below_ok, all_below))

  current-nil :
      (vs : List Violation)
      → current_violations routes goals ≡ ok vs
      → vs ≡ []
      → All
          (λ (r : NavigationRoute).
            owner_violations goals (find_root routes) r (find_goal goals r.owning_goal_id) ≡ ok [])
          routes
        × All (λ (g : GoalDraft). goal_violations routes goals g ≡ ok []) goals
  unfolding current_violations
  current-nil vs h e =
      let (owners, h1, rest1) = >>=-eq-ok (collect _ routes) _ h in
      let (refs, h2, rest2) = >>=-eq-ok (collect _ goals) _ rest1 in
      let joined : owners ++ refs ≡ [] = cc in
      let (e1, e2) = append-nil_parts owners refs joined in
      (collect-nil _ routes (rw e1 at h1), collect-nil _ goals (rw e2 at h2))

  -- A manifest that the v3 check accepts declares the root; paths and casefolded titles are
  -- distinct; each owner is a user-visible goal that is, or depends on, the owner of the root; and
  -- each path that a test names is a declared route whose owner is the test's goal or a goal that
  -- it depends on.
  pub validate_route_manifest-IsRouted :
      validate_route_manifest casefold schema_version routes goals ≡ ok tt
      → IsRouted casefold goals routes
  unfolding validate_route_manifest
  validate_route_manifest-IsRouted h = elim (Bool-cases (is_empty routes)) [
    | inl e ↦ cc (rw e at h)
    | inr e ↦
        let (vs, current, h1) = >>=-eq-ok (current_violations routes goals) _ (rw e at h) in
        let (basic, none_left) = append-nil_parts _ vs (no_violations-nil _ h1) in
        let (root, paths, titles, owned) = basic-nil basic in
        let (owners, refs) = current-nil vs current none_left in
        let (visible, below_ok) = owners-nil routes (known goals routes routes owned) owners in
        record {
          root_declared = root;
          paths_distinct = paths;
          titles_distinct = titles;
          owners_visible = visible;
          owners_below_root = below_ok;
          tests_refer_back = All-map goals (λ g x. goal-nil goals routes g x) refs;
        }
  ]
