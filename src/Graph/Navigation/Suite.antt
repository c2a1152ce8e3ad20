-- ===== src/Graph/Navigation/Suite.antt =====
-- What a derived navigation suite contains.
use fomo_demo.Prelude.{
  ℕ, String, true, not, ◌&&◌, ◌≡◌, ap, ok, some, List, [], ◌∷◌, ◌∈◌, Distinct, unique→Distinct,
  unique, is_empty, keep, contains, subset, length, eqb, arith, >>=-eq-ok, >>-eq-ok, guard-eq-ok,
  Bool-cases, inl, inr, sym, ◌∙◌, and_right,
}
use fomo_demo.Graph.{
  GoalGraph, NavigationRoute, schema_version, suite_version, unsupported_suite,
  suite_without_routes, duplicate_suite_routes, scope_invalid, ready_suite_without_root,
}
use fomo_demo.Graph.Routes.{route_paths}
use fomo_demo.Graph.Navigation.{
  SuiteMode, focused, ready_full, final_full, NavigationVerificationSuite, make_suite, owned_by,
  graph_goal_ids, or_zero, check_mode, suite_for, derive_navigation_verification_suite,
}

make_suite-eq-ok :
    (version : ℕ) (routes : List NavigationRoute) (mode : SuiteMode)
    (s : NavigationVerificationSuite)
    → make_suite version routes mode ≡ ok s
    → (version ≡ suite_version)
      × (unique (route_paths routes) ≡ true)
      × (record { version = version; routes = routes; mode = mode } ≡ s)
unfolding make_suite
make_suite-eq-ok version routes mode s h =
    let (v, h1) = >>-eq-ok (eqb version suite_version) unsupported_suite _ h in
    let (_, h2) = >>-eq-ok (not (is_empty routes)) suite_without_routes _ h1 in
    let (u, h3) = >>-eq-ok (unique (route_paths routes)) duplicate_suite_routes _ h2 in
    (ground arith, u, cc)

-- A suite holds the routes of the selected goals, with distinct paths; a full one has the root.
pub record IsSuite (graph : GoalGraph) (selected : List String) (mode : SuiteMode)
    (s : NavigationVerificationSuite) : Type 0 where
  pub version : s.version ≡ suite_version
  pub mode_kept : s.mode ≡ mode
  pub routes :
      s.routes ≡ keep (λ (r : NavigationRoute). contains selected r.owning_goal_id) graph.routes
  pub distinct : Distinct (route_paths s.routes)
  pub known : subset selected (graph_goal_ids graph) ≡ true
  pub rooted : mode ≡ ready_full → "/" ∈ route_paths s.routes
  pub complete : mode ≡ final_full → length s.routes ≡ length graph.routes

check_mode-ready :
    (graph : GoalGraph) (selected : List String) (routes : List NavigationRoute) (mode : SuiteMode)
    → check_mode graph selected routes mode ≡ ok tt
    → mode ≡ ready_full
    → "/" ∈ route_paths routes
unfolding check_mode
check_mode-ready graph selected routes focused h e = cc
check_mode-ready graph selected routes ready_full h e = guard-eq-ok _ ready_suite_without_root h
check_mode-ready graph selected routes final_full h e = cc

check_mode-final :
    (graph : GoalGraph) (selected : List String) (routes : List NavigationRoute) (mode : SuiteMode)
    → check_mode graph selected routes mode ≡ ok tt
    → mode ≡ final_full
    → length routes ≡ length graph.routes
unfolding check_mode
check_mode-final graph selected routes focused h e = cc
check_mode-final graph selected routes ready_full h e = cc
check_mode-final graph selected routes final_full h e = ground arith

suite_for-eq-some :
    (graph : GoalGraph) (selected : List String) (mode : SuiteMode) (routes : List NavigationRoute)
    (s : NavigationVerificationSuite)
    → suite_for graph selected mode routes ≡ ok (some s)
    → (check_mode graph selected routes mode ≡ ok tt)
      × (make_suite (or_zero graph.navigation_suite_version) routes mode ≡ ok s)
unfolding suite_for
suite_for-eq-some graph selected mode [] s h = cc
suite_for-eq-some graph selected mode (r ∷ rs) s h =
    let (u, checked, h1) = >>=-eq-ok (check_mode graph selected (r ∷ rs) mode) _ h in
    let (s', made, h2) =
      >>=-eq-ok (make_suite (or_zero graph.navigation_suite_version) (r ∷ rs) mode) _ h1 in
    let same : s' ≡ s = cc in (checked, rw same at made)

-- Every suite that is derived consists of exactly the routes of the graph that the selected goals
-- own, in order, with distinct paths and the server's version; all selected ids are goals of the
-- graph. A suite of mode ready_full has the root path, and one of mode final_full has as many routes
-- as the graph.
pub derive_navigation_verification_suite-IsSuite :
    (graph : GoalGraph) (selected : List String) (mode : SuiteMode)
    (s : NavigationVerificationSuite)
    → derive_navigation_verification_suite graph selected mode ≡ ok (some s)
    → IsSuite graph selected mode s
unfolding derive_navigation_verification_suite
derive_navigation_verification_suite-IsSuite graph selected mode s h =
    elim (Bool-cases (eqb graph.schema_version schema_version)) [
      | inr e ↦ cc (rw e at h)
      | inl e ↦
          let (scope, h1) =
            >>-eq-ok (not (is_empty selected) && subset selected (graph_goal_ids graph))
              scope_invalid _ (rw e at h) in
          let (checked, made) =
            suite_for-eq-some graph selected mode (owned_by selected graph.routes) s h1 in
          let (v, u, same) = make_suite-eq-ok _ _ _ s made in
          record {
            version = ap (λ (x : NavigationVerificationSuite). x.version) (sym same) ∙ v;
            mode_kept = ap (λ (x : NavigationVerificationSuite). x.mode) (sym same);
            routes = ap (λ (x : NavigationVerificationSuite). x.routes) (sym same);
            distinct = rw (← same) (unique→Distinct _ u);
            known = and_right (not (is_empty selected)) _ scope;
            rooted = λ m.
                rw (← same)
                  (check_mode-ready graph selected (owned_by selected graph.routes) mode checked m);
            complete = λ m.
                rw (← same)
                  (check_mode-final graph selected (owned_by selected graph.routes) mode checked m);
          }
    ]
