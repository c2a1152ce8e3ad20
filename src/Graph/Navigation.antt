-- ===== src/Graph/Navigation.antt =====
-- Navigation mode and the server's navigation suite of direct_pi/goalgraph.py.
pub mod Suite
pub mod Final
use Prim.Native.String
use fomo_demo.Prelude.{
  ℕ, String, Bool, true, false, not, ◌&&◌, ◌||◌, Option, none, some, List, [], ◌∷◌, ◌++◌, map, ◌==◌,
  Result, ok, err, guard, ◌>>=◌, ◌>>◌, contains, subset, unique, keep, is_empty, if◌then◌else◌, ltb,
  eqb, length,
}
use fomo_demo.Graph.{
  Goal, GoalGraph, NavigationRoute, NavigationMode, single_surface, multi_route, GraphError,
  legacy_schema_version, schema_version, suite_version, scope_invalid, final_gate_incomplete,
  ready_suite_without_root, unsupported_suite, suite_without_routes, duplicate_suite_routes,
  goal_ids, drafts,
}
use fomo_demo.Graph.Routes.{route_paths}

pub data SuiteMode : Type 0 where
  focused ready_full final_full : SuiteMode

pub record NavigationVerificationSuite : Type 0 where
  pub version : ℕ
  pub routes : List NavigationRoute
  pub mode : SuiteMode

unfoldable pub navigation_mode : ℕ → List NavigationRoute → NavigationMode
navigation_mode version routes =
    if eqb version legacy_schema_version || ltb (length routes) 2
    then single_surface
    else multi_route

-- `__post_init__`: the suite, or the exception of its construction
pub make_suite :
    ℕ → List NavigationRoute → SuiteMode → Result GraphError NavigationVerificationSuite
make_suite version routes mode = do
  guard (eqb version suite_version) unsupported_suite
  guard (not (is_empty routes)) suite_without_routes
  guard (unique (route_paths routes)) duplicate_suite_routes
  ok (record { version = version; routes = routes; mode = mode })

abbrev pub graph_goal_ids : GoalGraph → List String
graph_goal_ids graph = goal_ids (drafts graph.goals)

abbrev pub owned_by : List String → List NavigationRoute → List NavigationRoute
owned_by selected = keep (λ (r : NavigationRoute). contains selected r.owning_goal_id)

-- `graph.navigation_suite_version or 0`
abbrev or_zero : Option ℕ → ℕ
or_zero none = 0
or_zero (some v) = v

-- the two tests on the mode
check_mode :
    GoalGraph → List String → List NavigationRoute → SuiteMode → Result GraphError (Unit {0})
check_mode graph selected routes focused = ok tt
check_mode graph selected routes ready_full =
    guard (contains (route_paths routes) "/") ready_suite_without_root
check_mode graph selected routes final_full =
    guard
      (subset selected (graph_goal_ids graph)
        && subset (graph_goal_ids graph) selected
        && eqb (length routes) (length graph.routes))
      final_gate_incomplete

-- the part after the goal scope is known to be valid, on the routes of the selected goals
suite_for :
    GoalGraph
    → List String
    → SuiteMode
    → List NavigationRoute
    → Result GraphError (Option NavigationVerificationSuite)
unfolding check_mode make_suite
suite_for graph selected mode [] = ok none
suite_for graph selected mode (r ∷ rs) = do
  check_mode graph selected (r ∷ rs) mode
  suite ← make_suite (or_zero graph.navigation_suite_version) (r ∷ rs) mode
  ok (some suite)

unfoldable pub derive_navigation_verification_suite :
    GoalGraph → List String → SuiteMode → Result GraphError (Option NavigationVerificationSuite)
unfolding suite_for
derive_navigation_verification_suite graph selected mode =
    if not (eqb graph.schema_version schema_version) then ok none else (do
      guard (not (is_empty selected) && subset selected (graph_goal_ids graph)) scope_invalid
      suite_for graph selected mode (owned_by selected graph.routes))

shared_navigation_gate : NavigationVerificationSuite → Bool
shared_navigation_gate suite = elim suite.mode [ focused ↦ false | _ ↦ true ]

-- `digest` is `hashlib.sha256(path.encode()).hexdigest()[:12]`.
module _ (digest : String → String) where
  unfoldable pub navigation_test_ids : Option NavigationVerificationSuite → List String
  unfolding shared_navigation_gate
  navigation_test_ids none = []
  navigation_test_ids (some suite) =
      map (λ (r : NavigationRoute). String.◌++◌ "direct-" (digest r.path)) suite.routes
      ++ (if shared_navigation_gate suite
            && not (is_empty (keep (λ (r : NavigationRoute). not (r.path == "/")) suite.routes))
          then "shared-navigation" ∷ "mobile-navigation-390" ∷ "history-roundtrip" ∷ []
          else [])
