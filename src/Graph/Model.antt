-- ===== src/Graph/Model.antt =====
-- The models `GoalGraphDraft`, its two historical forms and `GoalGraph` of
-- direct_pi/goalgraph.py, with their validators, and `materialize_goal_graph`.
pub mod Parts
pub mod Materialize
use fomo_demo.Prelude.{
  ℕ, String, Bool, true, false, not, ◌&&◌, Option, none, some, List, [], ◌∷◌, map, Result, ok, err,
  guard, ◌>>=◌, ◌>>◌, any, is_some, eqb, if◌then◌else◌, ◌≡◌, ◌||◌,
}
use fomo_demo.Graph.{
  Goal, GoalDraft, GoalGraph, GoalStatus, GraphStatus, NavigationRoute, NavigationMode,
  single_surface, multi_route, QualityBar, QualityGate, deps, typecheck, build, harness_smoke,
  per_goal_acceptance, preview_health, GraphError, legacy_goal_in_routed_graph, suite_version_fixed,
  historical_suite_version, quality_bar_fixed, navigation_mode_fixed, legacy_schema_version,
  legacy_route_schema_version, schema_version, suite_version, drafts,
}
use fomo_demo.Graph.Topology.{validate_goal_topology}
use fomo_demo.Graph.Routes.{validate_route_manifest}
use fomo_demo.Graph.Evidence.{validate_legacy_v2_routing_contract}
use fomo_demo.Graph.Navigation.{navigation_mode}

abbrev pub quality_gates : List QualityGate
quality_gates = deps ∷ typecheck ∷ build ∷ harness_smoke ∷ per_goal_acceptance ∷ preview_health ∷ []

abbrev server_quality_bar : QualityBar
server_quality_bar = record { gates = quality_gates }

same_gate : QualityGate → QualityGate → Bool
same_gate deps deps = true
same_gate typecheck typecheck = true
same_gate build build = true
same_gate harness_smoke harness_smoke = true
same_gate per_goal_acceptance per_goal_acceptance = true
same_gate preview_health preview_health = true
same_gate _ _ = false

pub same_gates : List QualityGate → List QualityGate → Bool
unfolding same_gate
same_gates [] [] = true
same_gates (x ∷ xs) (y ∷ ys) = same_gate x y && same_gates xs ys
same_gates _ _ = false

pub same_mode : NavigationMode → NavigationMode → Bool
same_mode single_surface single_surface = true
same_mode multi_route multi_route = true
same_mode _ _ = false

pub is_suite_version : Option ℕ → Bool
is_suite_version none = false
is_suite_version (some v) = eqb v suite_version

-- the checks of the routing contract that the schema version selects
module _ (casefold : String → String) where
  pub routing_contract : ℕ → List NavigationRoute → List GoalDraft → Result GraphError (Unit {0})
  routing_contract version routes goals =
      if eqb version legacy_route_schema_version
      then validate_legacy_v2_routing_contract casefold routes goals
      else validate_route_manifest casefold version routes goals

pub check_suite_version : ℕ → Option ℕ → Result GraphError (Unit {0})
unfolding is_suite_version
check_suite_version version suite =
    if eqb version schema_version
    then guard (is_suite_version suite) suite_version_fixed
    else guard (not (is_some suite)) historical_suite_version

module _ (casefold : String → String) where
  -- `GoalGraph.fixed_server_contract`, the validator that `model_validate` runs
  unfoldable pub validate_goal_graph : GoalGraph → Result GraphError (Unit {0})
  unfolding routing_contract check_suite_version same_gates same_mode
  validate_goal_graph graph = do
    guard
        (eqb graph.schema_version legacy_schema_version
          || not (any (λ (g : Goal). g.legacy) graph.goals))
        legacy_goal_in_routed_graph
    validate_goal_topology (drafts graph.goals)
    routing_contract casefold graph.schema_version graph.routes (drafts graph.goals)
    check_suite_version graph.schema_version graph.navigation_suite_version
    guard (same_gates graph.quality_bar.gates quality_gates) quality_bar_fixed
    guard (same_mode graph.navigation_mode (navigation_mode graph.schema_version graph.routes))
        navigation_mode_fixed

-- `LegacyGoalGraphDraft`, `LegacyRouteGoalGraphDraft`, `GoalGraphDraft`
pub data GraphDraft : Type 0 where
  legacy : String → List GoalDraft → GraphDraft
  legacy_route current : String → List NavigationRoute → List GoalDraft → GraphDraft

abbrev draft_version : GraphDraft → ℕ
draft_version (legacy o gs) = legacy_schema_version
draft_version (legacy_route o rs gs) = legacy_route_schema_version
draft_version (current o rs gs) = schema_version

abbrev draft_outcome : GraphDraft → String
draft_outcome (legacy o gs) = o
draft_outcome (legacy_route o rs gs) = o
draft_outcome (current o rs gs) = o

abbrev draft_routes : GraphDraft → List NavigationRoute
draft_routes (legacy o gs) = []
draft_routes (legacy_route o rs gs) = rs
draft_routes (current o rs gs) = rs

abbrev pub draft_goals : GraphDraft → List GoalDraft
draft_goals (legacy o gs) = gs
draft_goals (legacy_route o rs gs) = gs
draft_goals (current o rs gs) = gs

abbrev pub is_legacy_draft : GraphDraft → Bool
is_legacy_draft (legacy o gs) = true
is_legacy_draft _ = false

abbrev draft_suite_version : GraphDraft → Option ℕ
draft_suite_version (current o rs gs) = some suite_version
draft_suite_version _ = none

-- the projection that `materialize_goal_graph` builds
unfoldable pub initial_graph : GraphDraft → GoalGraph
initial_graph d = record {
  schema_version = draft_version d;
  product_outcome = draft_outcome d;
  routes = draft_routes d;
  quality_bar = server_quality_bar;
  navigation_mode = navigation_mode (draft_version d) (draft_routes d);
  navigation_suite_version = draft_suite_version d;
  goals =
      map
        (λ (g : GoalDraft). record {
          draft = g;
          status = GoalStatus.pending;
          legacy = is_legacy_draft d;
        })
        (draft_goals d);
  status = GraphStatus.active;
}

module _ (casefold : String → String) where
  -- the `model_validator`s of the three drafts
  unfoldable pub validate_draft : GraphDraft → Result GraphError (Unit {0})
  validate_draft (legacy o gs) = validate_goal_topology gs
  validate_draft (legacy_route o rs gs) = do
    validate_goal_topology gs
    validate_legacy_v2_routing_contract casefold rs gs
  validate_draft (current o rs gs) = do
    validate_goal_topology gs
    validate_route_manifest casefold schema_version rs gs

  unfoldable pub materialize_goal_graph : GraphDraft → Result GraphError GoalGraph
  unfolding initial_graph
  materialize_goal_graph d = do validate_goal_graph casefold (initial_graph d); ok (initial_graph d)
