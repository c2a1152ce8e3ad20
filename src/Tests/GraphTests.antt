-- ===== src/Tests/GraphTests.antt =====
-- The goal graph of the small site.
use fomo_demo.Contracts.Syntax.{is_identifier, is_local_path}
use fomo_demo.Graph.Routes.{
  current_violations, owner_violations, goal_violations, basic_violations, path_violations,
  validate_route_manifest,
}
use fomo_demo.Contracts.Order.{sorted_set, sorted}
use fomo_demo.Graph.Navigation.{
  navigation_mode, derive_navigation_verification_suite, NavigationVerificationSuite, focused,
  final_full, graph_goal_ids,
}
use fomo_demo.Prelude.{unique, ok, ◌≡◌, refl, some, List, [], ◌∷◌, ◌↔◌, Distinct, true, String, ◌∈◌}
use fomo_demo.Contracts.{exact_test_per_criterion}
use fomo_demo.Contracts.Validity.{IsOneToOne, exact_test_per_criterion-IsOneToOne}
use fomo_demo.Graph.{GoalStatus, goal_ids, schema_version, suite_version}
use fomo_demo.Graph.Status.{transition_goal_status}
use fomo_demo.Graph.Status.History.{Steps, here, step, pending_to_verified, Visits}
use fomo_demo.Graph.Topology.{validate_goal_topology}
use fomo_demo.Graph.Topology.Order.{IsOrdered, validate_goal_topology_iff}
use fomo_demo.Graph.Dependencies.{search_from, find_goal, transitive_dependencies, Reaches}
use fomo_demo.Graph.Dependencies.Fuel.{search_from_ends}
use fomo_demo.Graph.Dependencies.Closure.{transitive_dependencies_decides}
use fomo_demo.Graph.Dependencies.Acyclic.{acyclic}
use fomo_demo.Graph.Routes.Accepted.{IsRouted, validate_route_manifest-IsRouted}
use fomo_demo.Graph.Navigation.Suite.{IsSuite, derive_navigation_verification_suite-IsSuite}
use fomo_demo.Graph.Navigation.Final.{final_gate_total}
use fomo_demo.Graph.Model.{
  validate_draft, validate_goal_graph, initial_graph, materialize_goal_graph,
}
use fomo_demo.Graph.Model.Materialize.{materialize_goal_graph_total}
use fomo_demo.Graph.Keys.{acceptance_persistence_key, acceptance_test_path, navigation_evidence_key}
use fomo_demo.Graph.Keys.Injective.{acceptance_persistence_key_injective}
use fomo_demo.Tests.Data.{keep_text, site, goals, routes, route, about, shows}

home_is_complete : exact_test_per_criterion (shows "home-1" "/") ≡ ok tt
unfolding exact_test_per_criterion unique sorted
home_is_complete = refl

IsOneToOne-example : IsOneToOne (shows "home-1" "/")
IsOneToOne-example = exact_test_per_criterion-IsOneToOne (shows "home-1" "/") home_is_complete

about_is_local : is_local_path "/about" ≡ true
unfolding is_local_path
about_is_local = refl

claims : transition_goal_status GoalStatus.active GoalStatus.claimed ≡ ok GoalStatus.claimed
unfolding transition_goal_status
claims = refl

activates : transition_goal_status GoalStatus.pending GoalStatus.active ≡ ok GoalStatus.active
unfolding transition_goal_status
activates = refl

verifies : transition_goal_status GoalStatus.claimed GoalStatus.verified ≡ ok GoalStatus.verified
unfolding transition_goal_status
verifies = refl

abbrev direct_run : Steps GoalStatus.pending GoalStatus.verified
direct_run = step activates (step claims (step verifies (here GoalStatus.verified)))

history_example : Visits GoalStatus.active direct_run × Visits GoalStatus.claimed direct_run
history_example = pending_to_verified direct_run

topology_example :
    (validate_goal_topology goals ≡ ok tt) ↔ (Distinct (goal_ids goals) × IsOrdered [] goals)
topology_example = validate_goal_topology_iff goals

goals_are_ordered : validate_goal_topology goals ≡ ok tt
unfolding validate_goal_topology unique
goals_are_ordered = refl

search_example : (search_from goals about).pending ≡ []
search_example = search_from_ends goals about

about_is_found : find_goal goals "about" ≡ some about
unfolding find_goal
about_is_found = refl

closure_example :
    (ds : List String) × (transitive_dependencies goals "about" ≡ ok ds)
    × ((x : String) → (x ∈ ds) ↔ Reaches goals "about" x)
closure_example = transitive_dependencies_decides goals "about" about about_is_found

acyclic_example : ¬ Reaches goals "about" "about"
acyclic_example = acyclic goals goals_are_ordered "about"

routes_are_valid : validate_route_manifest keep_text schema_version routes goals ≡ ok tt
unfolding validate_route_manifest current_violations owner_violations find_goal
    transitive_dependencies goal_violations basic_violations unique sorted_set path_violations
routes_are_valid = refl

IsRouted-example : IsRouted keep_text goals routes
IsRouted-example = validate_route_manifest-IsRouted keep_text goals routes routes_are_valid

pub site_is_valid : validate_draft keep_text site ≡ ok tt
unfolding validate_draft validate_goal_topology unique validate_route_manifest current_violations
    owner_violations find_goal transitive_dependencies goal_violations basic_violations sorted_set
    path_violations
site_is_valid = refl

materialize_example : materialize_goal_graph keep_text site ≡ ok (initial_graph site)
materialize_example = materialize_goal_graph_total keep_text site site_is_valid

graph_is_valid : validate_goal_graph keep_text (initial_graph site) ≡ ok tt
unfolding validate_goal_graph initial_graph validate_goal_topology unique validate_route_manifest
    current_violations owner_violations find_goal transitive_dependencies goal_violations
    basic_violations sorted_set path_violations navigation_mode
graph_is_valid = refl

graph_is_current : (initial_graph site).schema_version ≡ schema_version
unfolding initial_graph
graph_is_current = refl

abbrev home_suite : NavigationVerificationSuite
home_suite = record { version = 1; routes = route "/" "Home" "home" ∷ []; mode = focused }

home_suite_derived :
    derive_navigation_verification_suite (initial_graph site) ("home" ∷ []) focused
    ≡ ok (some home_suite)
unfolding derive_navigation_verification_suite initial_graph unique
home_suite_derived = refl

suite_example : IsSuite (initial_graph site) ("home" ∷ []) focused home_suite
suite_example =
    derive_navigation_verification_suite-IsSuite (initial_graph site) ("home" ∷ []) focused
      home_suite home_suite_derived

final_gate_example :
    derive_navigation_verification_suite
      (initial_graph site)
      (graph_goal_ids (initial_graph site))
      final_full
    ≡ ok (
        some (record {
          version = suite_version;
          routes = (initial_graph site).routes;
          mode = final_full;
        }))
final_gate_example = final_gate_total keep_text (initial_graph site) graph_is_valid graph_is_current

key_of_home : acceptance_persistence_key keep_text "home" "home-1" ≡ ok "home:home-1"
unfolding acceptance_persistence_key is_identifier
key_of_home = refl

path_of_home :
    acceptance_test_path keep_text "home" "home-1"
    ≡ ok "tests/fomo-acceptance/home/home-1.smoke.spec.ts"
unfolding acceptance_test_path is_identifier
path_of_home = refl

navigation_key : navigation_evidence_key keep_text 1 "direct-1" ≡ ok "__fomo_navigation_v1:direct-1"
unfolding navigation_evidence_key is_identifier
navigation_key = refl

key_example : (keep_text "home" ≡ keep_text "home") × (keep_text "home-1" ≡ keep_text "home-1")
key_example =
    acceptance_persistence_key_injective keep_text "home" "home-1" "home" "home-1" "home:home-1"
      key_of_home key_of_home
