-- ===== src/Tests/ManagerTests.antt =====
-- A whole run of the goal manager on the small site.
use fomo_demo.Graph.Status.{transition_goal_status, transition_graph_status}
use fomo_demo.Graph.Model.{validate_goal_graph, initial_graph, draft_goals}
use fomo_demo.Manager.{
  set_status, activate_next_goal, claim_active_goal, retry_claimed_goal, verify_claimed_goal,
  is_verified,
}
use fomo_demo.Graph.Topology.{validate_goal_topology}
use fomo_demo.Prelude.{unique, ok, ◌≡◌, refl, List, [], ◌∷◌, false, ◌⊎◌, all, true}
use fomo_demo.Graph.Routes.{
  validate_route_manifest, current_violations, owner_violations, goal_violations, basic_violations,
  path_violations,
}
use fomo_demo.Graph.Dependencies.{find_goal, transitive_dependencies}
use fomo_demo.Graph.Navigation.{navigation_mode}
use fomo_demo.Contracts.Order.{sorted_set}
use fomo_demo.Graph.{GoalDraft, Goal, GoalGraph, GoalStatus, GraphStatus, drafts}
use fomo_demo.Manager.Invariant.{IsManaged}
use fomo_demo.Manager.Operations.{Sets, activate_next_goal-Sets, verify_claimed_goal-Sets}
use fomo_demo.Manager.Run.{
  Call, activate, claim, retry, verify, run, run_from_draft, initial_graph-IsManaged,
}
use fomo_demo.Manager.Progress.Finish.{cycles, run_to_completion}
use fomo_demo.Tests.Data.{keep_text, site, home, about}
use fomo_demo.Tests.GraphTests.{site_is_valid}

abbrev goal : GoalStatus → GoalDraft → Goal
goal s g = record { draft = g; status = s; legacy = false }

-- the graph of the site where its goals have the statuses
abbrev at : GoalStatus → GoalStatus → GraphStatus → GoalGraph
at s t status = record (initial_graph site) {
  goals = goal s home ∷ goal t about ∷ [];
  status = status;
}

abbrev activated : GoalGraph
activated = at GoalStatus.active GoalStatus.pending GraphStatus.active

abbrev claimed_home : GoalGraph
claimed_home = at GoalStatus.claimed GoalStatus.pending GraphStatus.active

abbrev verified_home : GoalGraph
verified_home = at GoalStatus.verified GoalStatus.pending GraphStatus.active

abbrev finished : GoalGraph
finished = at GoalStatus.verified GoalStatus.verified GraphStatus.verified

abbrev all_calls : List Call
all_calls = activate ∷ claim ∷ retry ∷ claim ∷ verify ∷ activate ∷ claim ∷ verify ∷ []

finish_example :
    (graph : GoalGraph) × (run keep_text (cycles (draft_goals site)) (initial_graph site)
      ≡ ok graph)
    × (graph.status ≡ GraphStatus.verified)
    × (all (λ (x : Goal). is_verified x.status) graph.goals ≡ true)
finish_example = run_to_completion keep_text site site_is_valid refl

site_is_finished : run keep_text all_calls (initial_graph site) ≡ ok finished
unfolding run activate_next_goal claim_active_goal retry_claimed_goal verify_claimed_goal
    initial_graph transition_goal_status transition_graph_status validate_goal_graph set_status
    validate_goal_topology unique validate_route_manifest current_violations owner_violations
    find_goal transitive_dependencies goal_violations basic_violations sorted_set path_violations
    navigation_mode
site_is_finished = refl

run_example : IsManaged keep_text finished × (drafts finished.goals ≡ draft_goals site)
run_example = run_from_draft keep_text site all_calls finished site_is_valid site_is_finished

activation : activate_next_goal keep_text (initial_graph site) ≡ ok activated
unfolding run activate_next_goal claim_active_goal retry_claimed_goal verify_claimed_goal
    initial_graph transition_goal_status transition_graph_status validate_goal_graph set_status
    validate_goal_topology unique validate_route_manifest current_violations owner_violations
    find_goal transitive_dependencies goal_violations basic_violations sorted_set path_violations
    navigation_mode
activation = refl

activate_example :
    (activated ≡ initial_graph site)
    ⊎ Sets keep_text (initial_graph site) GoalStatus.pending GoalStatus.active activated
activate_example =
    activate_next_goal-Sets keep_text (initial_graph site)
      (initial_graph-IsManaged keep_text site site_is_valid) activated activation

site_is_activated : run keep_text (activate ∷ []) (initial_graph site) ≡ ok activated
unfolding run activate_next_goal claim_active_goal retry_claimed_goal verify_claimed_goal
    initial_graph transition_goal_status transition_graph_status validate_goal_graph set_status
    validate_goal_topology unique validate_route_manifest current_violations owner_violations
    find_goal transitive_dependencies goal_violations basic_violations sorted_set path_violations
    navigation_mode
site_is_activated = refl

site_is_claimed : run keep_text (activate ∷ claim ∷ []) (initial_graph site) ≡ ok claimed_home
unfolding run activate_next_goal claim_active_goal retry_claimed_goal verify_claimed_goal
    initial_graph transition_goal_status transition_graph_status validate_goal_graph set_status
    validate_goal_topology unique validate_route_manifest current_violations owner_violations
    find_goal transitive_dependencies goal_violations basic_violations sorted_set path_violations
    navigation_mode
site_is_claimed = refl

activated-IsManaged : IsManaged keep_text activated
activated-IsManaged =
    (run_from_draft keep_text site (activate ∷ []) activated site_is_valid site_is_activated).0

claimed-IsManaged : IsManaged keep_text claimed_home
claimed-IsManaged =
    (run_from_draft keep_text site (activate ∷ claim ∷ []) claimed_home site_is_valid
      site_is_claimed).0

claims_home : claim_active_goal keep_text activated ≡ ok claimed_home
unfolding run activate_next_goal claim_active_goal retry_claimed_goal verify_claimed_goal
    initial_graph transition_goal_status transition_graph_status validate_goal_graph set_status
    validate_goal_topology unique validate_route_manifest current_violations owner_violations
    find_goal transitive_dependencies goal_violations basic_violations sorted_set path_violations
    navigation_mode
claims_home = refl

retries_home : retry_claimed_goal keep_text claimed_home ≡ ok activated
unfolding run activate_next_goal claim_active_goal retry_claimed_goal verify_claimed_goal
    initial_graph transition_goal_status transition_graph_status validate_goal_graph set_status
    validate_goal_topology unique validate_route_manifest current_violations owner_violations
    find_goal transitive_dependencies goal_violations basic_violations sorted_set path_violations
    navigation_mode
retries_home = refl

verifies_home : verify_claimed_goal keep_text claimed_home ≡ ok verified_home
unfolding run activate_next_goal claim_active_goal retry_claimed_goal verify_claimed_goal
    initial_graph transition_goal_status transition_graph_status validate_goal_graph set_status
    validate_goal_topology unique validate_route_manifest current_violations owner_violations
    find_goal transitive_dependencies goal_violations basic_violations sorted_set path_violations
    navigation_mode
verifies_home = refl

verify_example : Sets keep_text claimed_home GoalStatus.claimed GoalStatus.verified verified_home
verify_example =
    verify_claimed_goal-Sets keep_text claimed_home claimed-IsManaged verified_home verifies_home
