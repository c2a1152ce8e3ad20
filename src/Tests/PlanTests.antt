-- ===== src/Tests/PlanTests.antt =====
-- A plan of the small site.
use fomo_demo.Prelude.{ok, some, ◌≡◌, refl, [], ◌∷◌, false, unique}
use fomo_demo.Graph.{Goal, GoalDraft, GoalGraph, GoalStatus, multi_route}
use fomo_demo.Graph.Model.{initial_graph, validate_goal_graph}
use fomo_demo.Manager.Run.{run, run_from_draft, activate, claim, verify}
use fomo_demo.Manager.Invariant.{IsManaged}
use fomo_demo.Manager.Plan.{VerifiedGoalEvidence, GoalExecutionPlan, plan_goal_execution}
use fomo_demo.Manager.Plan.Covered.{IsCovered, plan_goal_execution-IsCovered}
use fomo_demo.Graph.Status.{transition_goal_status, transition_graph_status}
use fomo_demo.Manager.{
  set_status, activate_next_goal, claim_active_goal, retry_claimed_goal, verify_claimed_goal,
}
use fomo_demo.Graph.Topology.{validate_goal_topology}
use fomo_demo.Graph.Routes.{
  validate_route_manifest, current_violations, owner_violations, goal_violations, basic_violations,
  path_violations,
}
use fomo_demo.Graph.Dependencies.{find_goal, transitive_dependencies}
use fomo_demo.Graph.Navigation.{navigation_mode}
use fomo_demo.Contracts.Order.{sorted_set}
use fomo_demo.Tests.Data.{keep_text, site, home, about, routes}
use fomo_demo.Tests.GraphTests.{site_is_valid}

abbrev goal : GoalStatus → GoalDraft → Goal
goal s g = record { draft = g; status = s; legacy = false }

-- the home page is verified, and the plan is for the page about us
abbrev home_is_verified : GoalGraph
home_is_verified = record (initial_graph site) {
  goals = goal GoalStatus.verified home ∷ goal GoalStatus.pending about ∷ [];
}

abbrev about_is_active : GoalGraph
about_is_active = record (initial_graph site) {
  goals = goal GoalStatus.verified home ∷ goal GoalStatus.active about ∷ [];
}

abbrev home_evidence : VerifiedGoalEvidence
home_evidence = record {
  goal_id = "home";
  passed_acceptance_ids = "home-1" ∷ [];
  evidence_refs = "trace:1" ∷ [];
}

abbrev second_plan : GoalExecutionPlan
second_plan = record {
  graph_revision = 1;
  graph_schema_version = 3;
  navigation_mode = multi_route;
  routes = routes;
  navigation_suite_version = some 1;
  active_goal = goal GoalStatus.active about;
  verified_evidence = home_evidence ∷ [];
}

home_is_done :
    run keep_text (activate ∷ claim ∷ verify ∷ []) (initial_graph site) ≡ ok home_is_verified
unfolding run activate_next_goal claim_active_goal retry_claimed_goal verify_claimed_goal
    initial_graph transition_goal_status transition_graph_status validate_goal_graph set_status
    validate_goal_topology unique validate_route_manifest current_violations owner_violations
    find_goal transitive_dependencies goal_violations basic_violations sorted_set path_violations
    navigation_mode
home_is_done = refl

plan_is_made :
    plan_goal_execution keep_text home_is_verified 1 (home_evidence ∷ [])
    ≡ ok (about_is_active, second_plan)
unfolding run activate_next_goal claim_active_goal retry_claimed_goal verify_claimed_goal
    initial_graph transition_goal_status transition_graph_status validate_goal_graph set_status
    validate_goal_topology unique validate_route_manifest current_violations owner_violations
    find_goal transitive_dependencies goal_violations basic_violations sorted_set path_violations
    navigation_mode plan_goal_execution
plan_is_made = refl

home-IsManaged : IsManaged keep_text home_is_verified
home-IsManaged =
    (run_from_draft keep_text site (activate ∷ claim ∷ verify ∷ []) home_is_verified site_is_valid
      home_is_done).0

IsCovered-example : IsCovered about_is_active second_plan
IsCovered-example =
    plan_goal_execution-IsCovered keep_text home_is_verified home-IsManaged 1 (home_evidence ∷ [])
      about_is_active second_plan plan_is_made
